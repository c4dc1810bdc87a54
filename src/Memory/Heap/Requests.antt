-- ===== src/Memory/Heap/Requests.antt =====
-- `allocate`, `release` and `expand` of the buddy heap.
use cofuos.Prelude.{
  ℕ, zero, suc, ◌+◌, ◌-◌, ◌^◌, ◌≤◌, ◌<◌, ◌≡◌, refl, ◌≢◌, ◌⊎◌, inl, inr, true, false, ◌==◌, arith,
  leb, if◌then◌else◌, Bool-cases, List, [], ◌∷◌, All,
}
use mathlib.Core.Path.{subst}
use cofuos.Memory.Heap.{Pool, get, take_from, split, category, allocate, release}
use cofuos.Memory.Heap.Cover.{cover, holds, IsBlock, IsPool}
use cofuos.Memory.Heap.Blocks.{put_lem, get-IsTaken, IsTaken}
use cofuos.Memory.Heap.Sizes.{category_lem, IsCategory}

-- No free block of the class `sh` or larger.
abbrev IsEmptyFrom : ℕ → ℕ → Pool → Type 0
IsEmptyFrom top sh p = (i : ℕ) → sh ≤ i → i < top → p i ≡ []

take_from-none :
    (sh : ℕ) (bs : List ℕ) (rest : ℕ × Pool) (p : Pool)
    → All (IsBlock sh) bs
    → (take_from sh bs rest p).0 ≡ 0
    → (bs ≡ []) × (rest.0 ≡ 0)
take_from-none sh [] rest p h e = (refl, e)
take_from-none sh (b ∷ bs) rest p h e = let pos = h.0.0 in absurd (omega arith)

split-none : (top n sh : ℕ) (r : ℕ × Pool) → (split top n sh r).0 ≡ 0 → r.0 ≡ 0
split-none top n sh (b, q) e = elim (Bool-cases (b == 0)) [
  | inl z ↦ ground arith
  | inr z ↦ absurd (ground arith)
]

get-none :
    (top n sh : ℕ) (p : Pool)
    → top ≤ sh + n
    → IsPool p
    → (get top n sh p).0 ≡ 0
    → IsEmptyFrom top sh p
unfolding get
get-none top zero sh p f hp e i l h = absurd (omega arith)
get-none top (suc n) sh p f hp e i l h =
    let g : leb top sh ≡ false = ground arith in
    let e' =
      subst
        (λ t.
          (if t
            then (0, p)
            else take_from sh (p sh) (split top (suc n) sh (get top n (sh + 1) p)) p).0
          ≡ 0)
        g e in
    let t = take_from-none sh (p sh) _ p (hp sh) e' in
    elim (Bool-cases (sh == i)) [
      | inl s ↦ let w : sh ≡ i = ground arith in rw (← w) t.0
      | inr s ↦
          get-none top n (sh + 1) p (omega arith) hp (split-none top (suc n) sh _ t.1) i
            (ground arith) h
    ]

-- The outcome of a request of `req` bytes on a heap whose largest class is `n`.
abbrev pub IsAllocated : ℕ → ℕ → ℕ → Pool → ℕ × Pool → Type 0
IsAllocated bot n req p (b, q) =
    let c = category bot (suc n) req in
    ((b ≡ 0) × (q ≡ p) × ((2 ^ n < req) ⊎ IsEmptyFrom (suc n) c p))
    ⊎ ((c < suc n)
        × IsCategory bot req c
        × IsBlock c b
        × IsPool q
        × ((x : ℕ) → cover (suc n) p x ≡ cover (suc n) q x + holds c b x))

got-IsAllocated :
    (bot n req : ℕ) (p : Pool) (r : ℕ × Pool)
    → category bot (suc n) req < suc n
    → IsCategory bot req (category bot (suc n) req)
    → IsTaken (suc n) (category bot (suc n) req) p r
    → (r.0 ≡ 0 → IsEmptyFrom (suc n) (category bot (suc n) req) p)
    → IsAllocated bot n req p r
got-IsAllocated bot n req p (b, q) l hc (inl t) none = inl (t.0, t.1, inr (none t.0))
got-IsAllocated bot n req p (b, q) l hc (inr t) none = inr (l, hc, t.0, t.1, t.2)

-- `allocate` on a request of at least one byte, in a pool of aligned blocks: either it gives null, with the pool
-- as it was, and the request is larger than the largest class or every class that has room for it is empty; or
-- it gives an aligned block of the smallest class that has room for it, and each address is in the block and in
-- the free blocks left just as often as it was in the free blocks before.
pub allocate-IsAllocated :
    (bot n req : ℕ) (p : Pool)
    → bot ≤ n
    → 0 < req
    → IsPool p
    → IsAllocated bot n req p (allocate bot (suc n) req p)
unfolding allocate
allocate-IsAllocated bot n req p hb nz hp =
    let c = category bot (suc n) req in
    elim (category_lem bot n req hb nz) [
      | inl t ↦
          let e : leb (suc n) c ≡ false = ground arith in
          let f : suc n ≤ c + (suc n - c) = omega arith in
          rw e (
            got-IsAllocated bot n req p _ t.1 t.2 (get-IsTaken (suc n) (suc n - c) c p f hp)
              (get-none (suc n) (suc n - c) c p f hp))
      | inr t ↦ let e : leb (suc n) c ≡ true = ground arith in rw e (inl (refl, refl, inl t.0))
    ]

-- The pool `q` has the free bytes of `p`.
abbrev pub IsSame : ℕ → Pool → Pool → Type 0
IsSame n p q = IsPool q × ((x : ℕ) → cover (suc n) q x ≡ cover (suc n) p x)

release-back :
    (bot n req : ℕ) (p : Pool) (r : ℕ × Pool)
    → bot ≤ n
    → 0 < req
    → IsAllocated bot n req p r
    → r.0 ≢ 0
    → ((release bot (suc n) r.0 req r.1).0 ≡ true) × IsSame n p (release bot (suc n) r.0 req r.1).1
unfolding release
release-back bot n req p (b, q) hb nz (inl t) h = absurd (h t.0)
release-back bot n req p (b, q) hb nz (inr (l, hc, hblock, hq, c)) h =
    let k = category bot (suc n) req in
    let zb : (b == 0) ≡ false = ground arith in
    elim (category_lem bot n req hb nz) [
      | inl t ↦
          let e : leb (suc n) k ≡ false = ground arith in
          let f : suc n ≤ k + (suc n - k) = omega arith in
          let r = put_lem (suc n) (suc n - k) k b q f (ground arith) hq hblock in
          rw (zb, e) (r.0, (r.1.0, λ x. omega (arith, r.1.1 x, c x)))
      | inr t ↦ absurd (omega (arith, l, t.1))
    ]

-- A block that `allocate` gives for a request of at least one byte, released with the size of the request, is
-- taken back, and each address is in the free blocks just as often as before the allocation.
pub allocate-release :
    (bot n req : ℕ) (p : Pool)
    → bot ≤ n
    → 0 < req
    → IsPool p
    → (allocate bot (suc n) req p).0 ≢ 0
    → let r = allocate bot (suc n) req p in
      let s = release bot (suc n) r.0 req r.1 in (s.0 ≡ true) × IsSame n p s.1
allocate-release bot n req p hb nz hp h =
    release-back bot n req p (allocate bot (suc n) req p) hb nz
      (allocate-IsAllocated bot n req p hb nz hp) h
