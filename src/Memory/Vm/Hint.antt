-- ===== src/Memory/Vm/Hint.antt =====
-- kernel/memory/vm.cpp: `insert` with the links of a block as a hint, or with none.
use cofuos.Prelude.{
  ℕ, ◌≡◌, refl, sym, ap, Bool, true, false, not, ◌==◌, ◌||◌, ◌&&◌, if◌then◌else◌, arith, ◌≤◌, ◌<◌,
  Bool-cases, ◌⊎◌, inl, inr, List, [], ◌∷◌, ◌++◌, none, some, length,
}
use mathlib.Core.Path.{subst}
use cofuos.Memory.Vm.{Table, Block, Space, get, get_max_size}
use cofuos.Memory.Vm.Insert.{find_place, place_at, hinted, insert, insert_at, none_block}
use cofuos.Memory.Vm.Sizes.{size_of-pos}
use cofuos.Memory.Vm.Blocks.{IsRun}
use cofuos.Memory.Vm.Chain.{Extent, link_of, last_or, first_or, IsApart}
use cofuos.Memory.Vm.Relink.{last_extent, last-IsBlock}
use cofuos.Memory.Vm.Erase.{IsBetween}
use cofuos.Memory.Vm.FreeList.{IsFreeList}
use cofuos.Memory.Vm.Place.{IsPlace, IsBlockOf, Placed}
use cofuos.Memory.Vm.Join.{find_place-Placed}
use cofuos.Memory.Vm.Ordered.{extent_of, Inserted, insert_at-IsFreeList}

-- The links of a block are those of some place in the list, or there are none.
abbrev pub IsHint : Block → List Extent → Type 0
IsHint b xs =
    ((ys : List Extent) × (zs : List Extent) × (ys ++ zs ≡ xs) × IsBetween b ys zs)
    ⊎ ((b.prev_valid ≡ false) × (b.next_valid ≡ false) × (b.prev < 512) × (b.next < 512))

IsBlockOf-read :
    (t : Table) (v : Bool) (n : ℕ) → IsBlockOf t (if v then get t n else none_block) (link_of v n)
IsBlockOf-read t true n = refl
IsBlockOf-read t false n = refl

place_at-IsPlace :
    (b : Block) (s : Space) (ys zs : List Extent)
    → link_of b.prev_valid b.prev ≡ last_or none ys
    → link_of b.next_valid b.next ≡ first_or none zs
    → IsPlace s.table (place_at b s) ys zs
place_at-IsPlace b s ys zs h g = (
  subst (IsBlockOf s.table (place_at b s).before) h (IsBlockOf-read s.table b.prev_valid b.prev),
  subst (IsBlockOf s.table (place_at b s).after) g (IsBlockOf-read s.table b.next_valid b.next),
)

insert-hinted :
    (fuel : ℕ) (b h : Block) (s : Space) (ys zs : List Extent)
    → hinted b s ≡ h
    → h.self ≡ b.self
    → h.size ≡ b.size
    → h.prev < 512
    → h.next < 512
    → link_of h.prev_valid h.prev ≡ last_or none ys
    → link_of h.next_valid h.next ≡ first_or none zs
    → IsFreeList s (ys ++ zs)
    → IsApart (extent_of b) (ys ++ zs)
    → IsRun s.table b.self b.size
    → length (ys ++ zs) ≤ fuel
    → Inserted (insert fuel b s) (extent_of b) (ys ++ zs)
unfolding insert
insert-hinted fuel b h s ys zs e i j m n back on f a r l =
    let z : (b.size == 0) ≡ false = (let q = r.0 in ground arith) in
    let same : extent_of h ≡ extent_of b = rw (i, j) refl in
    let p = place_at-IsPlace h s ys zs back on in
    let placed = find_place-Placed fuel s.table b.size (place_at h s) ys zs f.0 f.2 p r.0 l in
    let placed' =
      subst (λ k. Placed s.table k (find_place fuel s.table b.size (place_at h s)) (ys ++ zs))
        (sym j) placed in
    let done =
      insert_at-IsFreeList h (find_place fuel s.table b.size (place_at h s)) s (ys ++ zs) placed' f
        (subst (λ x. IsApart x (ys ++ zs)) (sym same) a) (rw (i, j) r) n m in
    let q : insert fuel b s ≡ insert_at h (find_place fuel s.table b.size (place_at h s)) s =
      rw z (ap (λ k. insert_at k (find_place fuel s.table b.size (place_at k s)) s) e) in
    subst (λ u. Inserted u (extent_of b) (ys ++ zs)) (sym q)
      (subst
        (λ x. Inserted (insert_at h (find_place fuel s.table b.size (place_at h s)) s) x (ys ++ zs))
        same done)

largest-class :
    (s : Space) (x : Extent) (xs : List Extent)
    → IsFreeList s (x ∷ xs)
    → (get_max_size s.pdt == 0) ≡ false
unfolding get_max_size
largest-class s x xs (c, d, a, h, r) =
    let q = (last-IsBlock s.table none x xs none c).0 in
    rw r (size_of-pos (last_extent x xs).size q.0 (let m = q.1 in omega arith))

empty-class : (s : Space) → IsFreeList s [] → (get_max_size s.pdt == 0) ≡ true
unfolding get_max_size
empty-class s (c, d, a, h, r) = rw r refl

insert_first :
    (fuel : ℕ) (b : Block) (s : Space) (xs : List Extent)
    → b.prev_valid ≡ false
    → b.next_valid ≡ false
    → b.prev < 512
    → b.next < 512
    → IsFreeList s xs
    → IsApart (extent_of b) xs
    → IsRun s.table b.self b.size
    → length xs ≤ fuel
    → Inserted (insert fuel b s) (extent_of b) xs
unfolding last_or
insert_first fuel b s [] v w m n f a r l =
    let e : hinted b s ≡ b = rw (empty-class s f, v, w) refl in
    insert-hinted fuel b b s [] [] e refl refl m n (rw v refl) (rw w refl) f a r l
insert_first fuel b s (x ∷ xs) v w m n f a r l =
    let h : Block = record b { next = s.pdt.head; next_valid = true } in
    let e : hinted b s ≡ h = rw (largest-class s x xs f, v, w) refl in
    let q = f.0.0 in
    let k : s.pdt.head < 512 = (let u = f.3 in let g = q.0 in let j = q.1 in omega arith) in
    let on : link_of h.next_valid h.next ≡ some x.at = ap some f.3 in
    insert-hinted fuel b h s [] (x ∷ xs) e refl refl m k (rw v refl) on f a r l

-- `insert` of a run of free entries that is apart from the blocks of the list, with the links of any place of the
-- list as a hint or with none, and with as many turns as there are blocks, leaves the list with the block in it:
-- linked both ways, ascending by size, with the head and the class of the largest size.
pub insert-IsFreeList :
    (fuel : ℕ) (b : Block) (s : Space) (xs : List Extent)
    → IsHint b xs
    → IsFreeList s xs
    → IsApart (extent_of b) xs
    → IsRun s.table b.self b.size
    → length xs ≤ fuel
    → Inserted (insert fuel b s) (extent_of b) xs
insert-IsFreeList fuel b s xs (inr (v, w, m, n)) f a r l = insert_first fuel b s xs v w m n f a r l
insert-IsFreeList fuel b s xs (inl (ys, zs, e, (back, on, m, n))) f a r l =
    elim (Bool-cases (b.prev_valid || b.next_valid)) [
      | inl c ↦
          let h : hinted b s ≡ b =
            (let d : not b.prev_valid && not b.next_valid ≡ false = ground arith in rw d refl) in
          subst (λ o. Inserted (insert fuel b s) (extent_of b) o) e
            (insert-hinted fuel b b s ys zs h refl refl m n back on (subst (IsFreeList s) (sym e) f)
              (subst (IsApart (extent_of b)) (sym e) a) r (rw (← ap length e) at l))
      | inr c ↦
          let v : b.prev_valid ≡ false = ground arith in
          let w : b.next_valid ≡ false = ground arith in insert_first fuel b s xs v w m n f a r l
    ]
