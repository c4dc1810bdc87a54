-- ===== src/Container/LinkedList/Insert.antt =====
-- util/include/linked_list.hpp: a node that is put into a list.
use cofuos.Prelude.{
  ℕ, ◌≡◌, refl, sym, ap, ◌∙◌, ◌≢◌, false, ◌==◌, if◌then◌else◌, List, [], ◌∷◌, ◌++◌, Bool-cases, inl,
  inr, arith, length, length-append, ◌+◌,
}
use cofuos.Prelude.Tickets.{contains, contains-ne}
use mathlib.Core.Path.{subst}
use mathlib.Core.List.{append-nil}
use cofuos.Container.LinkedList.{
  State, set_next, set_prev, link_next, put_before, put_at, set_count, set_head, set_tail,
}
use cofuos.Container.LinkedList.Segment.{last_or, first_or, IsSegment, IsDistinct}
use cofuos.Container.LinkedList.Runs.{
  contains-append, IsDistinct-split, IsDistinct-join, apart-last, apart-first,
}
use cofuos.Container.LinkedList.Relink.{
  IsLeft, IsRight, link_next-IsLeft, link_next-IsRight, link_prev-IsRight, contains-last_or,
  next-same, prev-same, next-last, link_prev-real,
}
use cofuos.Container.LinkedList.Refine.{IsList, IsList-split, IsList-join}

IsDistinct-insert :
    (ys zs : List ℕ) (cur : ℕ)
    → IsDistinct (ys ++ zs)
    → contains (ys ++ zs) cur ≡ false
    → IsDistinct (ys ++ cur ∷ zs)
IsDistinct-insert ys zs cur d out =
    let (dy, dz, apart) = IsDistinct-split ys zs d in
    let c = contains-append ys zs cur in
    let n : contains zs cur ≡ false = ground arith in
    IsDistinct-join ys (cur ∷ zs) dy (n, dz)
      (λ a m. (let t = apart a m in let e = contains-ne ys cur a (ground arith) m in ground arith))

-- `cur` between `before` and `pos`.
abbrev placed : ℕ → ℕ → ℕ → State → State
placed before pos cur s =
    set_prev pos cur (link_next before cur (set_next cur pos (set_prev cur before s)))

put_before-IsLeft :
    (s : State) (ys zs : List ℕ) (pos cur : ℕ)
    → IsList s (ys ++ pos ∷ zs)
    → contains (ys ++ pos ∷ zs) cur ≡ false
    → IsLeft (placed (last_or 0 ys) pos cur s) ys cur
put_before-IsLeft s ys zs pos cur h out =
    let (left, right) = IsList-split s ys (pos ∷ zs) h in
    let (dy, dz, apart) = IsDistinct-split ys (pos ∷ zs) h.3 in
    let c = contains-append ys (pos ∷ zs) cur in
    let far : contains ys cur ≡ false = ground arith in
    let left1 = prev-same s.links 0 _ cur (last_or 0 ys) ys pos far left in
    let s1 = set_prev cur (last_or 0 ys) s in
    let left2 = next-same s1.links 0 _ cur pos ys pos far left1 in
    let s2 = set_next cur pos s1 in
    let left3 = link_next-IsLeft s2 ys pos cur dy left2 in
    let s3 = link_next (last_or 0 ys) cur s2 in
    prev-same s3.links 0 _ pos cur ys cur (apart-first s.links 0 _ pos ys (pos ∷ zs) apart left)
      left3

pub last_or-ne : (ys : List ℕ) (cur : ℕ) → contains ys cur ≡ false → cur ≢ 0 → last_or 0 ys ≢ cur
unfolding last_or
last_or-ne [] cur out n e = n (sym e)
last_or-ne (y ∷ ys) cur out n e =
    contains-ne (y ∷ ys) cur (last_or y ys) out (contains-last_or y ys) (sym e)

pub link_next-far :
    (a v c : ℕ) (s : State)
    → a ≢ c
    → ((link_next a v s).links.next c ≡ s.links.next c)
      × ((link_next a v s).links.prev c ≡ s.links.prev c)
link_next-far a v c s n = elim (Bool-cases (a == 0)) [
  | inl e ↦ rw e (refl, refl)
  | inr e ↦ rw e (ground arith, refl)
]

put_before-IsRight :
    (s : State) (ys zs : List ℕ) (pos cur : ℕ)
    → IsList s (ys ++ pos ∷ zs)
    → contains (ys ++ pos ∷ zs) cur ≡ false
    → cur ≢ 0
    → IsRight (placed (last_or 0 ys) pos cur s) (last_or 0 ys) (cur ∷ pos ∷ zs)
unfolding last_or
put_before-IsRight s ys zs pos cur h out real =
    let (left, right) = IsList-split s ys (pos ∷ zs) h in
    let (dy, dz, apart) = IsDistinct-split ys (pos ∷ zs) h.3 in
    let c = contains-append ys (pos ∷ zs) cur in
    let far : contains (pos ∷ zs) cur ≡ false = ground arith in
    let before = last_or 0 ys in
    let right1 = prev-same s.links before pos cur before (pos ∷ zs) 0 far right.0 in
    let s1 = set_prev cur before s in
    let right2 = next-same s1.links before pos cur pos (pos ∷ zs) 0 far right1 in
    let s2 = set_next cur pos s1 in
    let s3 = link_next before cur s2 in
    let right3 =
      link_next-IsRight s2 before before cur (pos ∷ zs)
        (apart-last s.links before pos 0 ys (pos ∷ zs) apart right.0) (right2, right.1) in
    let w : (pos == 0) ≡ false = (let n = right.0.1 in ground arith) in
    let right4 =
      subst (λ q. IsRight q cur (pos ∷ zs)) (link_prev-real pos cur s3 w)
        (link_prev-IsRight s3 before cur (pos ∷ zs) dz right3) in
    let f = link_next-far before cur cur s2 (last_or-ne ys cur (ground arith) real) in
    let on : s3.links.next cur ≡ pos = f.0 ∙ ground arith in
    let back : (if cur == pos then cur else s3.links.prev cur) ≡ before =
      (let g : s3.links.prev cur ≡ before = f.1 ∙ ground arith in ground arith) in
    (
      (
        refl,
        real,
        back,
        subst (λ p. IsSegment (set_prev pos cur s3).links cur p (pos ∷ zs) 0) (sym on) right4.0,
      ),
      right4.1,
    )

put_last_first :
    (s : State) (cur : ℕ)
    → cur ≢ 0
    → IsList
        (set_count 1 (set_tail cur (set_head cur (set_prev cur 0 (set_next cur 0 s)))))
        (cur ∷ [])
unfolding last_or
put_last_first s cur real =
    ((refl, real, ground arith, ground arith), refl, ground arith, (ground arith, tt))

put_last_more :
    (s : State) (y : ℕ) (ys : List ℕ) (cur : ℕ)
    → IsList s (y ∷ ys)
    → contains (y ∷ ys) cur ≡ false
    → cur ≢ 0
    → IsList
        (set_count
          (s.list.count + 1)
          (set_tail cur (set_prev cur s.list.tail (set_next s.list.tail cur (set_next cur 0 s)))))
        (y ∷ ys ++ cur ∷ [])
unfolding last_or
put_last_more s y ys cur (h, t, n, d) out real =
    let ended = set_next cur 0 s in
    let left1 = next-same s.links 0 _ cur 0 (y ∷ ys) 0 out h in
    let left2 = next-last ended.links 0 _ y cur ys 0 d left1 in
    let s2 = set_next (last_or y ys) cur ended in
    let left3 = prev-same s2.links 0 _ cur (last_or y ys) (y ∷ ys) cur out left2 in
    let s3 = set_tail cur (set_prev cur (last_or y ys) s2) in
    let apart = contains-ne (y ∷ ys) cur (last_or y ys) out (contains-last_or y ys) in
    let on : s3.links.next cur ≡ 0 = ground arith in
    let back : s3.links.prev cur ≡ last_or y ys = ground arith in
    let m : s.list.count + 1 ≡ length (y ∷ ys ++ cur ∷ []) =
      ground (arith, length-append (y ∷ ys) (cur ∷ [])) in
    let u =
      IsList-join s3 (s.list.count + 1) (y ∷ ys) (cur ∷ []) m
        (IsDistinct-insert (y ∷ ys) [] cur (rw append-nil d) (rw append-nil out)) left3
        ((refl, real, back, on), refl) in
    subst
      (λ q.
        IsList (set_count (s.list.count + 1) (set_tail cur (set_prev cur q (set_next q cur ended))))
          (y ∷ ys ++ cur ∷ []))
      (sym t) u

put_before-IsList :
    (s : State) (ys zs : List ℕ) (pos cur : ℕ)
    → IsList s (ys ++ pos ∷ zs)
    → contains (ys ++ pos ∷ zs) cur ≡ false
    → cur ≢ 0
    → IsList (put_at pos cur s) (ys ++ cur ∷ pos ∷ zs)
put_before-IsList s ys zs pos cur h out real =
    let right = (IsList-split s ys (pos ∷ zs) h).1 in
    let w : (pos == 0) ≡ false = (let n = right.0.1 in ground arith) in
    let left' = put_before-IsLeft s ys zs pos cur h out in
    let right' = put_before-IsRight s ys zs pos cur h out real in
    let n : s.list.count + 1 ≡ length (ys ++ cur ∷ pos ∷ zs) =
      ground (arith, length-append ys (pos ∷ zs), length-append ys (cur ∷ pos ∷ zs), h.2) in
    let d = IsDistinct-insert ys (pos ∷ zs) cur h.3 out in
    let t =
      IsList-join (placed (last_or 0 ys) pos cur s) (s.list.count + 1) ys (cur ∷ pos ∷ zs) n d left'
        right' in
    let at_place : put_at pos cur s ≡ set_count (s.list.count + 1) (put_before pos cur s) =
      rw w refl in
    let e : put_before pos cur s ≡ placed (last_or 0 ys) pos cur s = rw right.0.2 refl in
    subst (λ q. IsList q (ys ++ cur ∷ pos ∷ zs))
      (sym (at_place ∙ ap (set_count (s.list.count + 1)) e)) t

-- A new node comes before the one at `pos`, or last when `pos` is null.
pub put_at-IsList :
    (s : State) (ys zs : List ℕ) (cur : ℕ)
    → IsList s (ys ++ zs)
    → contains (ys ++ zs) cur ≡ false
    → cur ≢ 0
    → IsList (put_at (first_or 0 zs) cur s) (ys ++ cur ∷ zs)
put_at-IsList s [] [] cur h out real =
    let w : s.list.count ≡ 0 = h.2 in rw w (put_last_first s cur real)
put_at-IsList s (y ∷ ys) [] cur h out real =
    let h' = subst (IsList s) (append-nil (y ∷ ys)) h in
    let w : (s.list.count == 0) ≡ false = (let n = h.2 in ground arith) in
    let t = put_last_more s y ys cur h' (rw append-nil at out) real in
    let e : put_at 0 cur s
        ≡ set_count (s.list.count + 1) (
            set_tail cur (set_prev cur s.list.tail (set_next s.list.tail cur (set_next cur 0 s)))) =
      rw w refl in
    subst (λ q. IsList q (y ∷ ys ++ cur ∷ [])) (sym e) t
put_at-IsList s ys (z ∷ zs) cur h out real = put_before-IsList s ys zs z cur h out real
