-- ===== src/Memory/Vm/Search.antt =====
-- kernel/memory/vm.cpp: the search of `imp_reserve_any`.
use cofuos.Prelude.{
  ℕ, zero, suc, ◌≡◌, refl, sym, ap, ◌∙◌, true, false, ltb, leb, if◌then◌else◌, arith, ◌≤◌,
  Bool-cases, inl, inr, List, [], ◌∷◌, ◌++◌, Option, none, some, length, length-append,
}
use mathlib.Core.Path.{subst}
use cofuos.Memory.Vm.{Space, get, get_max_size}
use cofuos.Memory.Vm.Pages.{take_block, taken, reserve_from, imp_reserve_any}
use cofuos.Memory.Vm.Sizes.{class_of, size_of, size_of-class_of, class_of-bound}
use cofuos.Memory.Vm.Chain.{Extent, IsChain}
use cofuos.Memory.Vm.Relink.{last_extent, last-IsBlock}
use cofuos.Memory.Vm.Erase.{link_of-some}
use cofuos.Memory.Vm.FreeList.{IsFreeList}
use cofuos.Memory.Vm.Reserve.{IsTakenFrom, take_block-TakenBlock, taken-IsTakenFrom}

-- The loop comes to a block that is large enough.
reserve_from-taken :
    (fuel links base n : ℕ) (s : Space) (b : Option ℕ) (y : Extent) (ys : List Extent)
    → IsChain s.table b (y ∷ ys) none
    → n ≤ (last_extent y ys).size
    → suc (length ys) ≤ fuel
    → (us : List Extent) × (x : Extent) × (vs : List Extent) × (us ++ x ∷ vs ≡ y ∷ ys)
      × (n ≤ x.size)
      × (reserve_from fuel links base n y.at s
          ≡ taken links base n (take_block links s (get s.table x.at)))
reserve_from-taken zero links base n s b y ys h l f = absurd (omega arith)
reserve_from-taken (suc fuel) links base n s b y [] (r, k, h) l f =
    let w : leb n (get s.table y.at).size ≡ true = (let q = k.1 in ground arith) in
    ([], y, [], refl, l, rw w refl)
reserve_from-taken (suc fuel) links base n s b y (z ∷ ys) (r, k, h) l f =
    elim (Bool-cases (leb n (get s.table y.at).size)) [
      | inl w ↦ ([], y, z ∷ ys, refl, (let q = k.1 in ground arith), rw w refl)
      | inr w ↦
          let (v, m) =
            link_of-some (get s.table y.at).next_valid (get s.table y.at).next z.at k.4 in
          let (us, x, vs, e, g, t) =
            reserve_from-taken fuel links base n s (some y.at) z ys h l (omega arith) in
          (y ∷ us, x, vs, ap (λ o. y ∷ o) e, g, rw (w, v, m) t)
    ]

-- What `imp_reserve_any` leaves: nothing for a request above the class of the largest block, and else a block of
-- the list without its end.
abbrev pub Reserved : Option (ℕ × Space) → ℕ → ℕ → Space → List Extent → Type 0
Reserved o base n s xs =
    if ltb (get_max_size s.pdt) n
    then (o ≡ some (0, s))
    else ((ys : List Extent) × (x : Extent) × (zs : List Extent) × (ys ++ x ∷ zs ≡ xs)
        × (n ≤ x.size)
        × IsTakenFrom o base n s ys x zs)

enough :
    (s : Space) (y : Extent) (ys : List Extent) (n : ℕ)
    → IsFreeList s (y ∷ ys)
    → ltb (get_max_size s.pdt) n ≡ false
    → n ≤ (last_extent y ys).size
unfolding get_max_size
enough s y ys n h e =
    let q = (last-IsBlock s.table none y ys none h.0).0.1 in
    let l = (last_extent y ys).size in
    let g = (size_of-class_of l (class_of l) (omega arith) (class_of-bound l)).1 (omega arith) in
    let c : s.pdt.remain ≡ class_of l = h.4 in
    let e' : ltb (size_of (class_of l)) n ≡ false = subst (λ r. ltb (size_of r) n ≡ false) c e in
    ground arith

reserve_from-IsTakenFrom :
    (fuel base n : ℕ) (s : Space) (xs : List Extent)
    → IsFreeList s xs
    → 1 ≤ n
    → length xs ≤ fuel
    → ltb (get_max_size s.pdt) n ≡ false
    → (ys : List Extent) × (x : Extent) × (zs : List Extent) × (ys ++ x ∷ zs ≡ xs)
      × (n ≤ x.size)
      × IsTakenFrom (reserve_from fuel fuel base n s.pdt.head s) base n s ys x zs
unfolding get_max_size
reserve_from-IsTakenFrom fuel base n s [] h p l e = absurd (
    let c : s.pdt.remain ≡ 0 = h.4 in
    let e' = subst (λ r. ltb (size_of r) n ≡ false) c e in ground arith)
reserve_from-IsTakenFrom fuel base n s (y ∷ ys) h p l e =
    let (us, x, vs, same, g, t) =
      reserve_from-taken fuel fuel base n s none y ys h.0 (enough s y ys n h e) l in
    let h' = subst (IsFreeList s) (sym same) h in
    let m = length-append us (x ∷ vs) in
    let k = length-append us vs in
    let size = ap length same in
    let b = take_block-TakenBlock fuel s us vs x h' (omega arith) in
    let d =
      taken-IsTakenFrom fuel base n (take_block fuel s (get s.table x.at)) s us vs x b h' p g
        (omega arith) in
    let q : reserve_from fuel fuel base n s.pdt.head s
        ≡ taken fuel base n (take_block fuel s (get s.table x.at)) =
      ap (λ i. reserve_from fuel fuel base n i s) h.3 ∙ t in
    (us, x, vs, same, g, subst (λ o. IsTakenFrom o base n s us x vs) (sym q) d)

-- On a list of free blocks, with as many turns as it has blocks, `imp_reserve_any` answers 0 and changes nothing
-- when the class of the largest block is below the request, and else takes the last entries of a block that is
-- large enough: these come into use, no other entry changes its use, and the rest of the block is in the list.
pub imp_reserve_any-Reserved :
    (fuel base n : ℕ) (s : Space) (xs : List Extent)
    → IsFreeList s xs
    → 1 ≤ n
    → length xs ≤ fuel
    → Reserved (imp_reserve_any fuel base n s) base n s xs
unfolding imp_reserve_any
imp_reserve_any-Reserved fuel base n s xs h p l = elim (Bool-cases (ltb (get_max_size s.pdt) n)) [
  | inl e ↦ rw e refl
  | inr e ↦ rw e (reserve_from-IsTakenFrom fuel base n s xs h p l e)
]
