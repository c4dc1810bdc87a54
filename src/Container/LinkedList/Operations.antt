-- ===== src/Container/LinkedList/Operations.antt =====
-- util/include/linked_list.hpp: the operations on the sequence of the nodes.
use cofuos.Prelude.{
  ℕ, ◌≡◌, refl, sym, ◌≢◌, true, false, ◌==◌, List, [], ◌∷◌, ◌++◌, arith, Option, some, none,
}
use cofuos.Prelude.Tickets.{contains}
use mathlib.Core.Path.{subst}
use mathlib.Core.List.{append-nil}
use cofuos.Container.LinkedList.{
  State, Iterator, unlink, put_at, get_node, put_node, push_back, push_front, erased, erase,
}
use cofuos.Container.LinkedList.Segment.{first_or}
use cofuos.Container.LinkedList.Refine.{IsList, IsList-split, unlink-IsList}
use cofuos.Container.LinkedList.Runs.{IsSegment-first}
use cofuos.Container.LinkedList.Insert.{put_at-IsList}

-- The iterator to the first of these nodes of the list, or its end.
abbrev pub iterator_to : State → List ℕ → Iterator
iterator_to s zs = record { owner = s.list.self; ptr = first_or 0 zs }

pub node-real :
    (s : State) (ys zs : List ℕ) (pos : ℕ) → IsList s (ys ++ pos ∷ zs) → (pos == 0) ≡ false
node-real s ys zs pos h = let n = (IsList-split s ys (pos ∷ zs) h).1.0.1 in ground arith

pub self-equal : (n : ℕ) → (n == n) ≡ true
self-equal n = ground arith

-- The operation does not throw, and leaves this sequence of nodes.
abbrev pub GivesList : Option State → List ℕ → Type 0
GivesList none xs = ⊥
GivesList (some s) xs = IsList s xs

-- The same of an erased node, with the iterator to the node after it.
abbrev pub GivesErased : Option (Iterator × State) → List ℕ → List ℕ → Type 0
GivesErased none ys zs = ⊥
GivesErased (some (it, s)) ys zs = IsList s (ys ++ zs) × (it ≡ iterator_to s zs)

pub unlink-self : (s : State) (pos : ℕ) → (unlink pos s).list.self ≡ s.list.self
unlink-self s pos = ground arith

pub get_node-some :
    (s : State) (ys zs : List ℕ) (pos : ℕ)
    → IsList s (ys ++ pos ∷ zs)
    → get_node (iterator_to s (pos ∷ zs)) s ≡ some (pos, unlink pos s)
unfolding get_node
get_node-some s ys zs pos h = rw (node-real s ys zs pos h, self-equal) refl

pub put_node-this :
    (s : State) (zs : List ℕ) (cur : ℕ)
    → put_node (iterator_to s zs) cur s ≡ some (put_at (first_or 0 zs) cur s)
unfolding put_node
put_node-this s zs cur = rw self-equal refl

-- A node is put into a list at any place, with the iterator to the node that comes after it, or with the end.
pub put_node-IsList :
    (s : State) (ys zs : List ℕ) (cur : ℕ)
    → IsList s (ys ++ zs)
    → contains (ys ++ zs) cur ≡ false
    → cur ≢ 0
    → GivesList (put_node (iterator_to s zs) cur s) (ys ++ cur ∷ zs)
unfolding put_node
put_node-IsList s ys zs cur h out real = rw self-equal (put_at-IsList s ys zs cur h out real)

pub erase-IsList :
    (s : State) (ys zs : List ℕ) (pos : ℕ)
    → IsList s (ys ++ pos ∷ zs)
    → GivesErased (erase (iterator_to s (pos ∷ zs)) s) ys zs
unfolding erase
erase-IsList s ys zs pos h =
    let right = (IsList-split s ys (pos ∷ zs) h).1 in
    let on : s.links.next pos ≡ first_or 0 zs =
      IsSegment-first s.links pos (s.links.next pos) zs 0 right.0.3 in
    let e = get_node-some s ys zs pos h in
    let it : record { owner = (unlink pos s).list.self; ptr = s.links.next pos }
        ≡ iterator_to (unlink pos s) zs =
      rw on refl in
    subst (λ o. GivesErased (erased (s.links.next pos) o) ys zs) (sym e)
      (unlink-IsList s ys zs pos h, it)

pub push_back-IsList :
    (s : State) (xs : List ℕ) (cur : ℕ)
    → IsList s xs
    → contains xs cur ≡ false
    → cur ≢ 0
    → GivesList (push_back cur s) (xs ++ cur ∷ [])
push_back-IsList s xs cur h out real =
    put_node-IsList s xs [] cur (subst (IsList s) (sym (append-nil xs)) h) (rw append-nil out) real

pub push_front-IsList :
    (s : State) (xs : List ℕ) (cur : ℕ)
    → IsList s xs
    → contains xs cur ≡ false
    → cur ≢ 0
    → GivesList (push_front cur s) (cur ∷ xs)
push_front-IsList s xs cur h out real =
    let e = IsSegment-first s.links 0 s.list.head xs 0 h.0 in
    let t = put_node-IsList s [] xs cur h out real in
    subst (λ p. GivesList (put_node (record { owner = s.list.self; ptr = p }) cur s) (cur ∷ xs))
      (sym e) t
