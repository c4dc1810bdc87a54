-- ===== src/Memory/Heap/Blocks.antt =====
-- `put` and `get` of the buddy heap: no byte is lost or handed out twice.
use cofuos.Prelude.{
  ℕ, zero, suc, ◌+◌, ◌^◌, ◌≤◌, ◌<◌, ◌≡◌, refl, ◌≢◌, ◌⊎◌, inl, inr, true, false, ◌==◌, ◌&&◌, not,
  arith, ltb, leb, min, List, [], ◌∷◌, All, Bool-cases,
}
use mathlib.Core.Path.{subst}
use cofuos.Memory.Heap.{
  Pool, set_list, is_aligned, insert_block, remove_block, buddy_of, put, get, split, take_from,
}
use cofuos.Memory.Heap.Words.{is_aligned-half, is_aligned-second}
use cofuos.Memory.Heap.Cover.{
  holds, list_cover, cover, IsBlock, IsPool, list_cover-insert_block, list_cover-remove_block,
  All-insert_block, All-remove_block, IsBlock-contains, IsPool-set_list, cover-set_list,
  contains-buddy_of, holds-buddy, holds-Halves,
}

-- `q` has the free blocks of `p`, merged or split, and the block of class `sh` at `b`.
abbrev pub IsAdded : ℕ → ℕ → ℕ → Pool → Pool → Type 0
IsAdded top sh b p q = IsPool q × ((x : ℕ) → cover top q x ≡ cover top p x + holds sh b x)

-- `put` with fuel `n` takes every block of a class that the fuel reaches.
abbrev pub IsPut : ℕ → ℕ → Type 0
IsPut top n =
    (sh b : ℕ) (p : Pool)
    → top ≤ sh + n
    → sh < top
    → IsPool p
    → IsBlock sh b
    → ((put top n b sh p).0 ≡ true) × IsAdded top sh b p (put top n b sh p).1

put-insert :
    (top sh b : ℕ) (p : Pool)
    → IsPool p
    → IsBlock sh b
    → sh < top
    → IsAdded top sh b p (set_list p sh (insert_block b (p sh)))
put-insert top sh b p hp hb h = (
  IsPool-set_list p sh _ hp (All-insert_block sh b (p sh) hb (hp sh)),
  λ x. omega (
    arith,
    cover-set_list top p sh (insert_block b (p sh)) x h,
    list_cover-insert_block sh b (p sh) x,
  ),
)

-- What the recursive call gives when `b` merges with its buddy.
put-merge :
    (top n sh b : ℕ) (p : Pool)
    → top ≤ sh + suc n
    → sh + 1 < top
    → IsPool p
    → IsBlock sh b
    → buddy_of sh b (p sh) ≢ 0
    → IsPut top n
    → let buddy = buddy_of sh b (p sh) in
      let r = put top n (min b buddy) (sh + 1) (set_list p sh (remove_block buddy (p sh))) in
      (r.0 ≡ true) × IsAdded top sh b p r.1
put-merge top n sh b p f h hp hb nz next =
    let buddy = buddy_of sh b (p sh) in
    let left = set_list p sh (remove_block buddy (p sh)) in
    let found = contains-buddy_of sh b (p sh) nz in
    let hbuddy = IsBlock-contains sh buddy (p sh) (hp sh) found.0 in
    let both : (x : ℕ)
        → IsBlock (suc sh) (min b buddy)
          × (holds (suc sh) (min b buddy) x ≡ holds sh buddy x + holds sh b x) =
      λ x. holds-buddy sh buddy b x hbuddy hb found.1 in
    let s : sh + 1 ≡ suc sh = omega arith in
    let hleft = IsPool-set_list p sh _ hp (All-remove_block sh buddy (p sh) (hp sh)) in
    let r = next (sh + 1) (min b buddy) left (omega arith) h hleft (rw s (both 0).0) in
    (
      r.0,
      (
        r.1.0,
        λ x.
            let c = r.1.1 x in
            let w = (both x).1 in
            let t = cover-set_list top p sh (remove_block buddy (p sh)) x (omega arith) in
            let u = list_cover-remove_block sh buddy (p sh) x found.0 in
            let v : holds (sh + 1) (min b buddy) x ≡ holds (suc sh) (min b buddy) x = rw s refl in
            omega arith,
      ),
    )

-- A block of the kernel's heap that `put` takes is among the free blocks afterwards, alone or merged.
pub put_lem : (top n : ℕ) → IsPut top n
unfolding put
put_lem top zero sh b p f h hp hb = absurd (omega arith)
put_lem top (suc n) sh b p f h hp hb =
    rw (hb.1) (elim (Bool-cases (ltb (sh + 1) top && not (buddy_of sh b (p sh) == 0))) [
      | inr e ↦ rw e (refl, put-insert top sh b p hp hb h)
      | inl e ↦ rw e (put-merge top n sh b p f (ground arith) hp hb (ground arith) (put_lem top n))
    ])

-- What `get` gives: no block, with the pool as it was, or a block that the pool no longer holds.
abbrev pub IsTaken : ℕ → ℕ → Pool → ℕ × Pool → Type 0
IsTaken top sh p (b, q) =
    ((b ≡ 0) × (q ≡ p))
    ⊎ (IsBlock sh b × IsPool q × ((x : ℕ) → cover top p x ≡ cover top q x + holds sh b x))

take_from-IsTaken :
    (top sh : ℕ) (bs : List ℕ) (p : Pool) (rest : ℕ × Pool)
    → sh < top
    → IsPool p
    → p sh ≡ bs
    → IsTaken top sh p rest
    → IsTaken top sh p (take_from sh bs rest p)
unfolding list_cover
take_from-IsTaken top sh [] p rest h hp e t = t
take_from-IsTaken top sh (b ∷ bs) p rest h hp e t =
    let hs : All (IsBlock sh) (b ∷ bs) = subst (λ l. All (IsBlock sh) l) e (hp sh) in
    inr (
      hs.0,
      IsPool-set_list p sh bs hp hs.1,
      λ x.
          let c = cover-set_list top p sh bs x h in
          let w : list_cover sh (p sh) x ≡ holds sh b x + list_cover sh bs x = rw e refl in
          omega arith,
    )

split-IsTaken :
    (top n sh : ℕ) (p : Pool) (r : ℕ × Pool)
    → top ≤ sh + suc n
    → sh < top
    → IsPool p
    → IsTaken top (sh + 1) p r
    → IsTaken top sh p (split top (suc n) sh r)
split-IsTaken top n sh p (b, q) f h hp (inl t) = let z = t.0 in rw z (inl (refl, t.1))
split-IsTaken top n sh p (b, q) f h hp (inr (hb, hq, c)) =
    let s : sh + 1 ≡ suc sh = omega arith in
    let nz : (b == 0) ≡ false = let pos = hb.0 in ground arith in
    let al : is_aligned (suc sh) b ≡ true = rw (← s) (hb.1) in
    let second : IsBlock sh (b + 2 ^ sh) = (omega (arith, hb.0), is_aligned-second sh b al) in
    let r = put_lem top (suc n) sh (b + 2 ^ sh) q f h hq second in
    rw nz (
      inr (
        (hb.0, is_aligned-half sh b al),
        r.1.0,
        λ x.
            let cx = c x in
            let rx = r.1.1 x in
            let w = holds-Halves sh b (b + 2 ^ sh) x (refl, al) in
            let v : holds (sh + 1) b x ≡ holds (suc sh) b x = rw s refl in omega arith,
      ))

pub get-IsTaken :
    (top n sh : ℕ) (p : Pool) → top ≤ sh + n → IsPool p → IsTaken top sh p (get top n sh p)
unfolding get
get-IsTaken top zero sh p f hp = inl (refl, refl)
get-IsTaken top (suc n) sh p f hp = elim (Bool-cases (leb top sh)) [
  | inl e ↦ rw e (inl (refl, refl))
  | inr e ↦
      let h : sh < top = ground arith in
      let next = get-IsTaken top n (sh + 1) p (omega arith) hp in
      rw e (take_from-IsTaken top sh (p sh) p _ h hp refl (split-IsTaken top n sh p _ f h hp next))
]
