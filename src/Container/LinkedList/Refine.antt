-- ===== src/Container/LinkedList/Refine.antt =====
-- util/include/linked_list.hpp: the list as the sequence of its nodes.
use cofuos.Prelude.{ℕ, ◌≡◌, refl, sym, ◌∙◌, List, ◌∷◌, ◌++◌, arith, length, length-append, ◌-◌}
use mathlib.Core.Path.{subst}
use cofuos.Container.LinkedList.{State, link_next, link_prev, unlink, set_count}
use cofuos.Container.LinkedList.Segment.{
  last_or, first_or, IsSegment, IsSegment-split, IsSegment-join, IsDistinct, last_or-append,
}
use cofuos.Container.LinkedList.Runs.{
  IsSegment-first, IsApart, IsDistinct-split, IsDistinct-join, apart-last, apart-first,
}
use cofuos.Container.LinkedList.Relink.{
  IsLeft, IsRight, link_next-IsLeft, link_next-IsRight, link_prev-IsLeft, link_prev-IsRight,
}

-- The nodes of the list, from the head to the tail.
abbrev pub IsList : State → List ℕ → Type 0
IsList s xs =
    IsSegment s.links 0 s.list.head xs 0
    × (s.list.tail ≡ last_or 0 xs)
    × (s.list.count ≡ length xs)
    × IsDistinct xs

pub IsList-split :
    (s : State) (ys zs : List ℕ)
    → IsList s (ys ++ zs)
    → IsLeft s ys (first_or 0 zs) × IsRight s (last_or 0 ys) zs
IsList-split s ys zs (l, t, n, d) =
    let c = IsSegment-split s.links 0 s.list.head ys zs 0 l in
    (c.0, (c.1, t ∙ last_or-append 0 ys zs))

-- The counter is the last to be written.
pub IsList-join :
    (s : State) (n : ℕ) (ys zs : List ℕ)
    → n ≡ length (ys ++ zs)
    → IsDistinct (ys ++ zs)
    → IsLeft s ys (first_or 0 zs)
    → IsRight s (last_or 0 ys) zs
    → IsList (set_count n s) (ys ++ zs)
IsList-join s n ys zs c d l (r, t) =
    (IsSegment-join s.links 0 s.list.head ys zs 0 l r, t ∙ sym (last_or-append 0 ys zs), c, d)

-- A node in the middle is taken out.
pub unlink-IsList :
    (s : State) (ys zs : List ℕ) (pos : ℕ)
    → IsList s (ys ++ pos ∷ zs)
    → IsList (unlink pos s) (ys ++ zs)
unfolding last_or
unlink-IsList s ys zs pos h =
    let (left, right) = IsList-split s ys (pos ∷ zs) h in
    let (dy, dz, apart) = IsDistinct-split ys (pos ∷ zs) h.3 in
    let before = last_or 0 ys in
    let after = first_or 0 zs in
    let back : s.links.prev pos ≡ before = right.0.2 in
    let on : s.links.next pos ≡ after =
      IsSegment-first s.links pos (s.links.next pos) zs 0 right.0.3 in
    let apart' : IsApart ys zs = λ a m. (let t = apart a m in ground arith) in
    let rest : IsRight s pos zs =
      (subst (λ p. IsSegment s.links pos p zs 0) on right.0.3, right.1) in
    let left1 = link_next-IsLeft s ys pos after dy left in
    let right1 =
      link_next-IsRight s pos before after zs (apart-last s.links pos _ 0 ys zs apart' rest.0)
        rest in
    let s1 = link_next before after s in
    let left2 =
      link_prev-IsLeft s1 ys after after before (apart-first s1.links 0 _ after ys zs apart' left1)
        left1 in
    let right2 = link_prev-IsRight s1 pos before zs dz.1 right1 in
    let n : s.list.count - 1 ≡ length (ys ++ zs) =
      ground (arith, length-append ys zs, length-append ys (pos ∷ zs), h.2) in
    let d = IsDistinct-join ys zs dy dz.1 apart' in
    let t = IsList-join (link_prev after before s1) _ ys zs n d left2 right2 in
    let e : unlink pos s ≡ set_count (s.list.count - 1) (link_prev after before s1) =
      rw (back, on) refl in
    subst (λ q. IsList q (ys ++ zs)) (sym e) t
