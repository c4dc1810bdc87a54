-- ===== src/Memory/Vm/FreeList.antt =====
-- kernel/memory/vm.cpp: the list of the free blocks of a table, and a block that leaves it.
use cofuos.Prelude.{
  ℕ, ◌≡◌, refl, sym, ap, ◌∙◌, if◌then◌else◌, arith, ◌%◌, ◌≤◌, Bool-cases, inl, inr, List, [], ◌∷◌,
  ◌++◌, none, some, max,
}
use mathlib.Core.Path.{subst}
use mathlib.Core.List.{append-nil}
use cofuos.Memory.Vm.{Block, Pdte, Space, get, erase, put_max_size, get_max_size}
use cofuos.Memory.Vm.Sizes.{class_of, size_of, class_of-max}
use cofuos.Memory.Vm.Chain.{Extent, last_or, IsChain, IsPairwise, IsChain-split, IsChain-join}
use cofuos.Memory.Vm.Relink.{
  last_extent, last_or-extent, last-IsBlock, AreAllApart-rest, IsPairwise-split, IsPairwise-join,
}
use cofuos.Memory.Vm.Erase.{
  link_of-some, link_of-none, relink_before, relink_after, IsBetween, relink_before-left,
  relink_before-right, relink_after-right, relink_after-left,
}

abbrev pub IsAscending : List Extent → Type 0
IsAscending [] = Unit
IsAscending (x ∷ []) = Unit
IsAscending (x ∷ y ∷ ys) = (x.size ≤ y.size) × IsAscending (y ∷ ys)

abbrev pub last_size : List Extent → ℕ
last_size [] = 0
last_size (x ∷ xs) = (last_extent x xs).size

abbrev pub IsHead : Pdte → List Extent → Type 0
IsHead p [] = Unit
IsHead p (x ∷ xs) = p.head ≡ x.at

-- The free blocks, from the smallest to the largest one, whose class of size is kept in the directory entry.
abbrev pub IsFreeList : Space → List Extent → Type 0
IsFreeList s xs =
    IsChain s.table none xs none
    × IsPairwise xs
    × IsAscending xs
    × IsHead s.pdt xs
    × (s.pdt.remain ≡ class_of (last_size xs))

-- What `erase` leaves: the table, the head and the class of the largest size.
pub erase-parts :
    (b : Block) (s : Space)
    → ((erase b s).table ≡ relink_after b (relink_before b s.table))
      × ((erase b s).pdt.head ≡ (if b.prev_valid then s.pdt.head else b.next % 512))
      × ((erase b s).pdt.remain
          ≡ class_of (
              if b.next_valid
              then max (get (relink_before b s.table) b.next).size (size_of s.pdt.remain)
              else (if b.prev_valid then (get s.table b.prev).size else 0)))
unfolding erase put_max_size get_max_size
erase-parts b s = elim (Bool-cases b.prev_valid) [
  | inl e ↦ elim (Bool-cases b.next_valid) [
    | inl f ↦ rw (e, f) (refl, refl, refl)
    | inr f ↦ rw (e, f) (refl, refl, refl)
  ]
  | inr e ↦ elim (Bool-cases b.next_valid) [
    | inl f ↦ rw (e, f) (refl, refl, refl)
    | inr f ↦ rw (e, f) (refl, refl, refl)
  ]
]

IsAscending-tail : (x : Extent) (xs : List Extent) → IsAscending (x ∷ xs) → IsAscending xs
IsAscending-tail x [] h = tt
IsAscending-tail x (y ∷ ys) h = h.1

last_extent-ge :
    (x : Extent) (xs : List Extent) → IsAscending (x ∷ xs) → x.size ≤ (last_extent x xs).size
last_extent-ge x [] h = omega arith
last_extent-ge x (y ∷ ys) h = let t = last_extent-ge y ys h.1 in omega (arith, h.0)

IsAscending-without :
    (ys zs : List Extent) (x : Extent) → IsAscending (ys ++ x ∷ zs) → IsAscending (ys ++ zs)
IsAscending-without [] zs x h = IsAscending-tail x zs h
IsAscending-without (y ∷ []) [] x h = tt
IsAscending-without (y ∷ []) (z ∷ zs) x h = (omega (arith, h.0, h.1.0), h.1.1)
IsAscending-without (y ∷ w ∷ ys) zs x h = (h.0, IsAscending-without (w ∷ ys) zs x h.1)

IsAscending-drop : (ys zs : List Extent) → IsAscending (ys ++ zs) → IsAscending zs
IsAscending-drop [] zs h = h
IsAscending-drop (y ∷ ys) zs h = IsAscending-drop ys zs (IsAscending-tail y (ys ++ zs) h)

pub last_size-append :
    (ys zs : List Extent) (z : Extent) → last_size (ys ++ z ∷ zs) ≡ (last_extent z zs).size
last_size-append [] zs z = refl
last_size-append (y ∷ []) zs z = refl
last_size-append (y ∷ x ∷ ys) zs z = last_size-append (x ∷ ys) zs z

erase-IsHead :
    (b : Block) (s : Space) (ys zs : List Extent) (x : Extent)
    → IsBetween b ys zs
    → IsHead s.pdt (ys ++ x ∷ zs)
    → IsHead (erase b s).pdt (ys ++ zs)
unfolding last_or
erase-IsHead b s [] [] x k h = tt
erase-IsHead b s [] (z ∷ zs) x k h =
    let v = link_of-none b.prev_valid b.prev k.0 in
    let n = (link_of-some b.next_valid b.next z.at k.1).1 in
    let q = (erase-parts b s).1 in
    let m : b.next % 512 ≡ b.next = (let l = k.3 in omega arith) in q ∙ rw (v, m) n
erase-IsHead b s (y ∷ ys) zs x k h =
    let v =
      (link_of-some b.prev_valid b.prev (last_extent y ys).at (k.0 ∙ last_or-extent none y ys)).0 in
    (erase-parts b s).1 ∙ rw v h

erase-class :
    (b : Block) (s : Space) (ys zs : List Extent) (x : Extent)
    → IsBetween b ys zs
    → IsFreeList s (ys ++ x ∷ zs)
    → (erase b s).pdt.remain ≡ class_of (last_size (ys ++ zs))
unfolding last_or
erase-class b s [] [] x k h =
    let v = link_of-none b.prev_valid b.prev k.0 in
    let w = link_of-none b.next_valid b.next k.1 in (erase-parts b s).2 ∙ rw (v, w) refl
erase-class b s (y ∷ ys) [] x k h =
    let left = (IsChain-split s.table none (y ∷ ys) (x ∷ []) none h.0).0 in
    let (v, n) =
      link_of-some b.prev_valid b.prev (last_extent y ys).at (k.0 ∙ last_or-extent none y ys) in
    let w = link_of-none b.next_valid b.next k.1 in
    let q = (last-IsBlock s.table none y ys _ left).2 in
    (erase-parts b s).2 ∙ rw (w, v, n, q, append-nil) refl
erase-class b s ys (z ∷ zs) x k h =
    let (left, right) = IsChain-split s.table none ys (x ∷ z ∷ zs) none h.0 in
    let (dy, dz, apart) = IsPairwise-split ys (x ∷ z ∷ zs) h.1 in
    let right1 =
      relink_before-right b s.table ys (z ∷ zs) _ _ k (AreAllApart-rest ys x (z ∷ zs) apart) left
        right.2 in
    let (w, n) = link_of-some b.next_valid b.next z.at k.1 in
    let l = last_size-append ys (z ∷ zs) x in
    let up = last_extent-ge z zs (IsAscending-drop ys (x ∷ z ∷ zs) h.2).1 in
    let bound = (last-IsBlock s.table (some x.at) z zs none right.2).0.1 in
    let e : s.pdt.remain ≡ class_of (last_extent z zs).size = h.4 ∙ ap class_of l in
    let m = class_of-max z.size (last_extent z zs).size up (omega arith) in
    let q = right1.1.1 in
    let t1 = relink_before b s.table in
    let n' : (get t1 b.next).size ≡ z.size = ap (λ i. (get t1 i).size) n ∙ q in
    let largest : max (get t1 b.next).size (size_of s.pdt.remain)
        ≡ max z.size (size_of (class_of (last_extent z zs).size)) =
      cc in
    (erase-parts b s).2
    ∙ ap
        (λ v. class_of (
          if v
          then max (get t1 b.next).size (size_of s.pdt.remain)
          else (if b.prev_valid then (get s.table b.prev).size else 0)))
        w
    ∙ ap class_of largest
    ∙ m
    ∙ ap class_of (sym (last_size-append ys zs z))

-- `erase` of a block with the links of its place in the list leaves the list of the other blocks, linked both
-- ways, ascending by size, with the head and the class of the largest size.
pub erase-IsFreeList :
    (b : Block) (s : Space) (ys zs : List Extent) (x : Extent)
    → IsBetween b ys zs
    → IsFreeList s (ys ++ x ∷ zs)
    → IsFreeList (erase b s) (ys ++ zs)
unfolding last_or
erase-IsFreeList b s ys zs x k h =
    let (left, right) = IsChain-split s.table none ys (x ∷ zs) none h.0 in
    let (dy, dz, apart) = IsPairwise-split ys (x ∷ zs) h.1 in
    let apart' = AreAllApart-rest ys x zs apart in
    let left1 = relink_before-left b s.table ys zs _ k dy left in
    let right1 = relink_before-right b s.table ys zs _ _ k apart' left right.2 in
    let t1 = relink_before b s.table in
    let left2 = relink_after-left b t1 ys zs _ _ k apart' right1 left1 in
    let right2 = relink_after-right b t1 ys zs _ k dz.1 right1 in
    let chain = IsChain-join (relink_after b t1) none ys zs none left2 right2 in
    (
      subst (λ t. IsChain t none (ys ++ zs) none) (sym (erase-parts b s).0) chain,
      IsPairwise-join ys zs dy dz.1 apart',
      IsAscending-without ys zs x h.2,
      erase-IsHead b s ys zs x k h.3,
      erase-class b s ys zs x k h,
    )
