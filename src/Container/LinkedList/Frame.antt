-- ===== src/Container/LinkedList/Frame.antt =====
-- util/include/linked_list.hpp: two lists over one store, and `splice`.
use cofuos.Prelude.{
  ℕ, ◌≡◌, refl, sym, ap, ◌∙◌, ◌≢◌, true, false, ◌==◌, List, [], ◌∷◌, ◌++◌, arith, ◌+◌, ◌-◌, Option,
  some, none, Bool-cases, inl, inr,
}
use cofuos.Prelude.Tickets.{contains, contains-ne}
use mathlib.Core.Path.{subst}
use cofuos.Container.LinkedList.{
  Links, State, LinkedList, set_next, set_prev, link_next, link_prev, set_count, unlink, put_at,
  both, splice,
}
use cofuos.Container.LinkedList.Segment.{last_or, first_or, IsSegment-same, IsDistinct}
use cofuos.Container.LinkedList.Runs.{
  contains-append, contains-zero, IsApart, IsDistinct-split, IsSegment-first,
}
use cofuos.Container.LinkedList.Refine.{IsList, IsList-split, unlink-IsList}
use cofuos.Container.LinkedList.Insert.{put_at-IsList, last_or-ne, link_next-far}
use cofuos.Container.LinkedList.Operations.{
  iterator_to, get_node-some, node-real, self-equal, put_node-this,
}

-- The links of a node are the same in both.
abbrev IsSame : Links → Links → ℕ → Type 0
IsSame k j c = (j.next c ≡ k.next c) × (j.prev c ≡ k.prev c)

link_prev-far : (a v c : ℕ) (s : State) → a ≢ c → IsSame s.links (link_prev a v s).links c
link_prev-far a v c s n = elim (Bool-cases (a == 0)) [
  | inl e ↦ rw e (refl, refl)
  | inr e ↦ rw e (refl, ground arith)
]

first_or-ne : (zs : List ℕ) (c : ℕ) → contains zs c ≡ false → c ≢ 0 → first_or 0 zs ≢ c
first_or-ne [] c out n = λ e. n (sym e)
first_or-ne (z ∷ zs) c out n = ground arith

unlink-far :
    (s : State) (ys zs : List ℕ) (pos c : ℕ)
    → IsList s (ys ++ pos ∷ zs)
    → contains (ys ++ pos ∷ zs) c ≡ false
    → c ≢ 0
    → IsSame s.links (unlink pos s).links c
unlink-far s ys zs pos c h out real =
    let right = (IsList-split s ys (pos ∷ zs) h).1 in
    let on : s.links.next pos ≡ first_or 0 zs =
      IsSegment-first s.links pos (s.links.next pos) zs 0 right.0.3 in
    let m = contains-append ys (pos ∷ zs) c in
    let f =
      link_next-far (last_or 0 ys) (first_or 0 zs) c s (last_or-ne ys c (ground arith) real) in
    let s1 = link_next (last_or 0 ys) (first_or 0 zs) s in
    let g =
      link_prev-far (first_or 0 zs) (last_or 0 ys) c s1 (first_or-ne zs c (ground arith) real) in
    let t : IsSame s.links (link_prev (first_or 0 zs) (last_or 0 ys) s1).links c =
      (g.0 ∙ f.0, g.1 ∙ f.1) in
    let e : unlink pos s
        ≡ set_count (s.list.count - 1) (link_prev (first_or 0 zs) (last_or 0 ys) s1) =
      rw (right.0.2, on) refl in
    subst (λ q. IsSame s.links q.links c) (sym e) t

put_at-far :
    (s : State) (ys zs : List ℕ) (cur c : ℕ)
    → IsList s (ys ++ zs)
    → contains (ys ++ zs) c ≡ false
    → cur ≢ c
    → c ≢ 0
    → IsSame s.links (put_at (first_or 0 zs) cur s).links c
unfolding last_or
put_at-far s ys [] cur c h out ne real = elim (Bool-cases (s.list.count == 0)) [
  | inl e ↦ rw e (ground arith, ground arith)
  | inr e ↦
      let t = last_or-ne (ys ++ []) c out real in
      let u : s.list.tail ≢ c = λ w. t (sym h.1 ∙ w) in rw e (ground arith, ground arith)
]
put_at-far s ys (z ∷ zs) cur c h out ne real =
    let right = (IsList-split s ys (z ∷ zs) h).1 in
    let w : (z == 0) ≡ false = (let n = right.0.1 in ground arith) in
    let m = contains-append ys (z ∷ zs) c in
    let s2 = set_next cur z (set_prev cur (last_or 0 ys) s) in
    let f = link_next-far (last_or 0 ys) cur c s2 (last_or-ne ys c (ground arith) real) in
    let t : IsSame s.links (set_prev z cur (link_next (last_or 0 ys) cur s2)).links c =
      (f.0 ∙ ground arith, (let g = f.1 in ground arith)) in
    let e : put_at z cur s
        ≡ set_count (s.list.count + 1) (set_prev z cur (link_next (last_or 0 ys) cur s2)) =
      rw (w, right.0.2) refl in
    subst (λ q. IsSame s.links q.links c) (sym e) t

IsList-same :
    (s t : State) (xs : List ℕ)
    → ((c : ℕ) → contains xs c ≡ true → IsSame s.links t.links c)
    → s.list ≡ t.list
    → IsList s xs
    → IsList t xs
IsList-same s t xs same e h =
    subst (λ l. IsList (record { links = t.links; list = l }) xs) e
      (IsSegment-same s.links t.links 0 s.list.head xs 0 same h.0, h.1, h.2, h.3)

IsList-real : (s : State) (xs : List ℕ) (c : ℕ) → IsList s xs → contains xs c ≡ true → c ≢ 0
IsList-real s xs c h m e =
    contains-ne xs 0 c (contains-zero s.links 0 s.list.head xs 0 h.0) m (sym e)

IsApart-sym :
    (xs ws : List ℕ) (c : ℕ) → IsApart xs ws → contains ws c ≡ true → contains xs c ≡ false
IsApart-sym xs ws c apart m = let t = apart c in ground arith

contains-middle : (us vs : List ℕ) (pos : ℕ) → contains (us ++ pos ∷ vs) pos ≡ true
contains-middle us vs pos = let t = contains-append us (pos ∷ vs) pos in ground arith

-- A node that is left is another one, and was there before.
contains-rest :
    (us vs : List ℕ) (pos c : ℕ)
    → IsDistinct (us ++ pos ∷ vs)
    → contains (us ++ vs) c ≡ true
    → (contains (us ++ pos ∷ vs) c ≡ true) × (pos ≢ c)
contains-rest us vs pos c d m =
    let (du, dv, apart) = IsDistinct-split us (pos ∷ vs) d in
    let a = contains-append us vs c in
    let b = contains-append us (pos ∷ vs) c in
    let e : contains (us ++ vs) pos ≡ false =
      (let f = IsApart-sym us (pos ∷ vs) pos apart (ground arith) in
        let g = contains-append us vs pos in ground (arith, dv.0)) in
    (ground arith, contains-ne (us ++ vs) pos c e m)

-- Both lists after a node went from the second to the first.
abbrev pub GivesBoth : Option (LinkedList × State) → List ℕ → List ℕ → Type 0
GivesBoth none xs ws = ⊥
GivesBoth (some (other, s)) xs ws =
    IsList s xs × IsList (record { links = s.links; list = other }) ws

-- `splice` between two lists that share no node, for any node of `other` and any place of `this`, does not throw:
-- the node stands at that place of `this`, `other` is without it, and both are linked both ways.
pub splice-IsList :
    (s : State) (other : LinkedList) (ys zs us vs : List ℕ) (pos : ℕ)
    → IsList s (ys ++ zs)
    → IsList (record { links = s.links; list = other }) (us ++ pos ∷ vs)
    → IsApart (ys ++ zs) (us ++ pos ∷ vs)
    → GivesBoth
        (splice (iterator_to s zs) (record { owner = other.self; ptr = pos }) other s)
        (ys ++ pos ∷ zs)
        (us ++ vs)
unfolding splice
splice-IsList s other ys zs us vs pos h g apart =
    let so : State = record { links = s.links; list = other } in
    let real = node-real so us vs pos g in
    let t = unlink pos so in
    let this : State = record { links = t.links; list = s.list } in
    let inside = contains-middle us vs pos in
    let out = IsApart-sym (ys ++ zs) (us ++ pos ∷ vs) pos apart inside in
    let keep =
      IsList-same s this (ys ++ zs)
        (λ c m. unlink-far so us vs pos c g (apart c m) (IsList-real s (ys ++ zs) c h m)) refl h in
    let now =
      put_at-IsList this ys zs pos keep out (IsList-real so (us ++ pos ∷ vs) pos g inside) in
    let rest = unlink-IsList so us vs pos g in
    let u = put_at (first_or 0 zs) pos this in
    let rest' =
      IsList-same t (record { links = u.links; list = t.list }) (us ++ vs)
        (λ c m.
          (let (was, ne) = contains-rest us vs pos c g.3 m in
            put_at-far this ys zs pos c keep (IsApart-sym (ys ++ zs) (us ++ pos ∷ vs) c apart was)
              ne (IsList-real so (us ++ pos ∷ vs) c g was)))
        refl rest in
    let w : splice (iterator_to s zs) (record { owner = other.self; ptr = pos }) other s
        ≡ some (t.list, u) =
      rw (self-equal, self-equal, real, get_node-some so us vs pos g)
        (ap (both t.list) (put_node-this this zs pos)) in
    subst (λ o. GivesBoth o (ys ++ pos ∷ zs) (us ++ vs)) (sym w) (now, rest')
