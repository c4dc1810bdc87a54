-- ===== src/Memory/Heap/Expand.antt =====
-- `expand` of the buddy heap: the blocks that a range of addresses is cut into.
use cofuos.Prelude.{
  ℕ, zero, suc, ◌+◌, ◌-◌, ◌/◌, ◌^◌, ◌≤◌, ◌<◌, ◌≡◌, refl, sym, ◌⊎◌, inl, inr, Bool, true, false,
  ◌==◌, not, ◌||◌, arith, ltb, leb, if◌then◌else◌, Bool-cases, ◌∙◌,
}
use native.Mathlib.Nat.{lt-div-mul-add}
use cofuos.Memory.Heap.{
  Pool, Expanded, put, is_aligned, range_loop, range_category, expand_loop, expand, align_up,
}
use cofuos.Prelude.Powers.{pow-pos}
use cofuos.Memory.Heap.Words.{is_aligned-next, is_aligned-multiple}
use cofuos.Memory.Heap.Cover.{cover, holds, IsPool}
use cofuos.Memory.Heap.Blocks.{put_lem}

-- The class `sh` is one that the range has a block of.
abbrev pub IsFit : ℕ → ℕ → ℕ → ℕ → Type 0
IsFit bot base len sh = (bot ≤ sh) × (is_aligned sh base ≡ true) × (2 ^ sh ≤ len)

range_loop-IsFit :
    (bot top n cur res base len : ℕ)
    → cur + n ≤ top
    → res < top
    → bot ≤ cur
    → IsFit bot base len res
    → (range_loop n cur res base len < top) × IsFit bot base len (range_loop n cur res base len)
unfolding range_loop
range_loop-IsFit bot top zero cur res base len f h b fit = (h, fit)
range_loop-IsFit bot top (suc n) cur res base len f h b fit =
    elim (Bool-cases (not (is_aligned cur base) || ltb len (2 ^ cur))) [
      | inl e ↦ rw e (h, fit)
      | inr e ↦ rw e (
          range_loop-IsFit bot top n (cur + 1) cur base len (omega arith) (omega arith)
            (omega arith) (omega arith, ground arith, ground arith))
    ]

range_category-IsFit :
    (bot n base len : ℕ)
    → bot ≤ n
    → is_aligned bot base ≡ true
    → 2 ^ bot ≤ len
    → (range_category bot (suc n) base len < suc n)
      × IsFit bot base len (range_category bot (suc n) base len)
unfolding range_loop
range_category-IsFit bot n base len h al l =
    let s : suc n - bot ≡ suc (n - bot) = omega arith in
    let e : ltb len (2 ^ bot) ≡ false = ground arith in
    rw (s, al, e)
      (range_loop-IsFit bot (suc n) (n - bot) (bot + 1) bot base len (omega arith) (omega arith)
        (omega arith) (omega arith, al, l))

or_false : (b : Bool) → b ≡ (b || false)
or_false true = refl
or_false false = refl

or_true : (b c : Bool) → c ≡ true → (b || c) ≡ true
or_true true c h = refl
or_true false c h = h

-- 1 if `x` is one of the `m` addresses from `base` on.
abbrev pub in_range : ℕ → ℕ → ℕ → ℕ
in_range base m x = if ltb x base then 0 else (if ltb x (base + m) then 1 else 0)

-- The first `m` bytes at `base` are free blocks of the pool now, and the smallest block does not fit in the rest.
abbrev pub IsExpanded : ℕ → ℕ → ℕ → ℕ → Bool → ℕ → Pool → ℕ → Expanded → Type 0
IsExpanded bot n base len res size p m (done, size', q) =
    (m ≤ len)
    × (len < m + 2 ^ bot)
    × (size' ≡ size + m)
    × (done ≡ (res || ltb 0 m))
    × IsPool q
    × ((x : ℕ) → cover (suc n) q x ≡ cover (suc n) p x + in_range base m x)

nothing-IsExpanded :
    (bot n base len : ℕ) (res : Bool) (size : ℕ) (p : Pool)
    → len < 2 ^ bot
    → IsPool p
    → IsExpanded bot n base len res size p 0 (res, size, p)
nothing-IsExpanded bot n base len res size p l hp =
    (omega arith, omega arith, omega arith, or_false res, hp, λ x. ground arith)

step-IsExpanded :
    (bot n base len : ℕ) (res : Bool) (size : ℕ) (p q : Pool) (sh m : ℕ) (r : Expanded)
    → 2 ^ sh ≤ len
    → ((x : ℕ) → cover (suc n) q x ≡ cover (suc n) p x + holds sh base x)
    → IsExpanded bot n (base + 2 ^ sh) (len - 2 ^ sh) true (size + 2 ^ sh) q m r
    → IsExpanded bot n base len res size p (2 ^ sh + m) r
step-IsExpanded bot n base len res size p q sh m (d, size', q') l c (ml, ll, e, f, hq, c') =
    let pos = pow-pos sh in
    (
      omega arith,
      omega arith,
      omega arith,
      f ∙ sym (or_true res _ (ground arith)),
      hq,
      λ x. let cx = c x in let cx' = c' x in ground arith,
    )

expand_loop-IsExpanded :
    (bot n k base len : ℕ) (res : Bool) (size : ℕ) (p : Pool)
    → bot ≤ n
    → len ≤ k
    → 0 < base
    → is_aligned bot base ≡ true
    → IsPool p
    → (m : ℕ) × IsExpanded bot n base len res size p m
        (expand_loop bot (suc n) k base len res size p)
unfolding expand_loop
expand_loop-IsExpanded bot n zero base len res size p hb f nz al hp =
    let pos = pow-pos bot in (0, nothing-IsExpanded bot n base len res size p (omega arith) hp)
expand_loop-IsExpanded bot n (suc k) base len res size p hb f nz al hp =
    elim (Bool-cases (ltb len (2 ^ bot))) [
      | inl e ↦ rw e (0, nothing-IsExpanded bot n base len res size p (ground arith) hp)
      | inr e ↦
          let sh = range_category bot (suc n) base len in
          let fit = range_category-IsFit bot n base len hb al (ground arith) in
          let g : leb (suc n) sh ≡ false = let t = fit.0 in ground arith in
          let r = put_lem (suc n) (suc n - sh) sh base p (omega arith) fit.0 hp (nz, fit.1.1) in
          let next = is_aligned-next bot sh base fit.1.0 al in
          let room = fit.1.2 in
          let pos = pow-pos sh in
          let rest =
            expand_loop-IsExpanded bot n k (base + 2 ^ sh) (len - 2 ^ sh) true (size + 2 ^ sh)
              (put (suc n) (suc n - sh) base sh p).1 hb (omega arith) (omega arith) next r.1.0 in
          rw (e, g, r.0)
            (
              2 ^ sh + rest.0,
              step-IsExpanded bot n base len res size p _ sh rest.0 _ room r.1.1 rest.1,
            )
    ]

-- What `expand` did with the `len` bytes at `ptr`: the `m` bytes from the first aligned address on are new.
abbrev pub IsGrown : ℕ → ℕ → ℕ → ℕ → ℕ → Pool → ℕ → Expanded → Type 0
IsGrown bot n ptr len size p m (done, size', q) =
    let first = align_up ptr (2 ^ bot) in
    ((m ≡ 0) ⊎ (first + m ≤ ptr + len))
    × (ptr + len < first + m + 2 ^ bot)
    × (size' ≡ size + m)
    × (done ≡ ltb 0 m)
    × IsPool q
    × ((x : ℕ) → cover (suc n) q x ≡ cover (suc n) p x + in_range first m x)

loop-IsGrown :
    (bot n ptr len size : ℕ) (p : Pool) (m : ℕ) (r : Expanded)
    → let first = align_up ptr (2 ^ bot) in
      ptr ≤ first
      → first - ptr < len
      → IsExpanded bot n first (len - (first - ptr)) false size p m r
      → IsGrown bot n ptr len size p m r
loop-IsGrown bot n ptr len size p m (d, size', q) le l (ml, ll, e, f, hq, c) =
    (inr (omega arith), omega arith, e, f, hq, c)

align_up-le : (a m : ℕ) → 0 < m → a ≤ align_up a m
align_up-le a m h = let t = lt-div-mul-add {a = a + (m - 1)} {b = m} h in omega arith

-- `expand` with the `len` bytes at a pointer that is not null, in a pool of aligned blocks: from the first aligned
-- address on all of the range but a rest that is smaller than the smallest block becomes free, no other
-- address changes, the capacity grows by the number of new bytes, and the result is whether there are any.
pub expand_lem :
    (bot n ptr len size : ℕ) (p : Pool)
    → bot ≤ n
    → 0 < ptr
    → IsPool p
    → (m : ℕ) × IsGrown bot n ptr len size p m (expand bot (suc n) ptr len size p)
unfolding expand
expand_lem bot n ptr len size p hb nz hp =
    let first = align_up ptr (2 ^ bot) in
    let pos = pow-pos bot in
    let le = align_up-le ptr (2 ^ bot) pos in
    let z : (ptr == 0) ≡ false = ground arith in
    elim (Bool-cases ((len == 0) || leb len (first - ptr))) [
      | inl e ↦ rw (z, e) (0, (inl refl, ground arith, omega arith, refl, hp, λ x. ground arith))
      | inr e ↦
          let al = is_aligned-multiple bot ((ptr + (2 ^ bot - 1)) / 2 ^ bot) in
          let r =
            expand_loop-IsExpanded bot n (len - (first - ptr)) first (len - (first - ptr)) false
              size p hb (omega arith) (omega arith) al hp in
          rw (z, e) (r.0, loop-IsGrown bot n ptr len size p r.0 _ le (ground arith) r.1)
    ]
