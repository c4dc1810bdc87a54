-- ===== src/Container/LinkedList/Ends.antt =====
-- util/include/linked_list.hpp: `pop_back` and `pop_front`.
use cofuos.Prelude.{
  snoc, ℕ, zero, suc, ◌≡◌, refl, sym, ap, ◌∙◌, true, false, ◌==◌, if◌then◌else◌, List, [], ◌∷◌,
  ◌++◌, arith, length, length-append, ◌-◌, ◌≤◌, Option, some, none,
}
use mathlib.Core.Path.{subst}
use cofuos.Container.LinkedList.{
  State, set_next, set_prev, set_head, set_tail, set_count, pop_back, pop_front, turn, clear, step,
}
use cofuos.Container.LinkedList.Segment.{last_or, first_or}
use cofuos.Container.LinkedList.Relink.{prev-same, next-last, last_or-real}
use cofuos.Container.LinkedList.Runs.{IsDistinct-split, IsSegment-first}
use cofuos.Container.LinkedList.Refine.{IsList, IsList-split}
use cofuos.Container.LinkedList.Operations.{GivesList, node-real, iterator_to}

-- What `pop_back` leaves, when the last node is `x` and the one before it is `before`.
abbrev without_last : ℕ → State → State
without_last before s =
    set_count (s.list.count - 1)
      (if before == 0 then set_tail 0 (set_head 0 s) else set_next before 0 (set_tail before s))

without_last-IsList :
    (s : State) (ys : List ℕ) (x : ℕ)
    → IsList s (ys ++ x ∷ [])
    → IsList (without_last (last_or 0 ys) s) ys
unfolding last_or
without_last-IsList s [] x h = (refl, refl, (let n = h.2 in ground arith), tt)
without_last-IsList s (y ∷ ys) x h =
    let (left, right) = IsList-split s (y ∷ ys) (x ∷ []) h in
    let (dy, dz, apart) = IsDistinct-split (y ∷ ys) (x ∷ []) h.3 in
    let real = last_or-real s.links 0 _ y ys x left in
    let w : (last_or y ys == 0) ≡ false = ground arith in
    let l = next-last s.links 0 _ y 0 ys x dy left in
    let n : s.list.count - 1 ≡ length (y ∷ ys) =
      ground (arith, length-append (y ∷ ys) (x ∷ []), h.2) in
    let e : without_last (last_or y ys) s
        ≡ set_count (s.list.count - 1) (set_next (last_or y ys) 0 (set_tail (last_or y ys) s)) =
      rw w refl in
    subst (λ q. IsList q (y ∷ ys)) (sym e) (l, refl, n, dy)

-- The last node goes; a list without nodes throws.
pub pop_back-IsList :
    (s : State) (ys : List ℕ) (x : ℕ) → IsList s (ys ++ x ∷ []) → GivesList (pop_back s) ys
unfolding pop_back last_or
pop_back-IsList s ys x h =
    let (left, right) = IsList-split s ys (x ∷ []) h in
    let n : (s.list.count == 0) ≡ false = ground (arith, length-append ys (x ∷ []), h.2) in
    let e : s.links.prev s.list.tail ≡ last_or 0 ys = ap s.links.prev right.1 ∙ right.0.2 in
    let t = without_last-IsList s ys x h in
    let p : pop_back s ≡ some (without_last (last_or 0 ys) s) = rw (n, e) refl in
    subst (λ o. GivesList o ys) (sym p) t

abbrev without_first : ℕ → State → State
without_first after s =
    set_count (s.list.count - 1)
      (if after == 0 then set_tail 0 (set_head 0 s) else set_prev after 0 (set_head after s))

without_first-IsList :
    (s : State) (xs : List ℕ) (x : ℕ)
    → IsList s (x ∷ xs)
    → IsList (without_first (first_or 0 xs) s) xs
unfolding last_or
without_first-IsList s [] x h = (refl, refl, (let n = h.2 in ground arith), tt)
without_first-IsList s (y ∷ ys) x ((a, b, c, (d, f, g, i)), t, n, dx) =
    let w : (y == 0) ≡ false = ground arith in
    let l = prev-same s.links y _ y 0 ys 0 dx.1.0 i in
    let m : s.list.count - 1 ≡ length (y ∷ ys) = ground arith in
    let e : without_first y s ≡ set_count (s.list.count - 1) (set_prev y 0 (set_head y s)) =
      rw w refl in
    let here : (if y == y then 0 else s.links.prev y) ≡ 0 = ground arith in
    subst (λ q. IsList q (y ∷ ys)) (sym e) ((refl, f, here, l), t, m, dx.1)

pub pop_front-IsList :
    (s : State) (xs : List ℕ) (x : ℕ) → IsList s (x ∷ xs) → GivesList (pop_front s) xs
unfolding pop_front
pop_front-IsList s xs x h =
    let right = (IsList-split s [] (x ∷ xs) h).1 in
    let n : (s.list.count == 0) ≡ false = ground (arith, h.2) in
    let e : s.links.next s.list.head ≡ first_or 0 xs =
      ap s.links.next h.0.0 ∙ IsSegment-first s.links x _ xs 0 h.0.3 in
    let p : pop_front s ≡ some (without_first (first_or 0 xs) s) = rw (n, e) refl in
    subst (λ o. GivesList o xs) (sym p) (without_first-IsList s xs x h)

GivesList-turn :
    (o : Option State) (ys : List ℕ) (rest : State → Option State)
    → GivesList o ys
    → ((s : State) → IsList s ys → GivesList (rest s) [])
    → GivesList (turn o rest) []
GivesList-turn none ys rest h f = absurd h
GivesList-turn (some s) ys rest h f = f s h

-- `clear` empties a list with as many turns of its loop as the list has nodes, and does not throw.
pub clear-IsList :
    (xs : List ℕ) (n : ℕ) (s : State) → length xs ≤ n → IsList s xs → GivesList (clear n s) []
clear-IsList [] zero s f h = let m : (s.list.count == 0) ≡ true = ground (arith, h.2) in rw m h
clear-IsList [] (suc n) s f h = let m : (s.list.count == 0) ≡ true = ground (arith, h.2) in rw m h
clear-IsList (x ∷ xs) zero s f h = absurd (ground arith)
clear-IsList (x ∷ xs) (suc n) s f h =
    let (ys, z, e) = snoc x xs in
    let m : (s.list.count == 0) ≡ false = ground (arith, h.2) in
    let l : length ys ≤ n = ground (arith, length-append ys (z ∷ []), ap length e) in
    let t = pop_back-IsList s ys z (subst (IsList s) e h) in
    rw m (GivesList-turn (pop_back s) ys (clear n) t (λ u g. clear-IsList ys n u l g))

-- An iterator at a node goes to the node after it, or to the end.
pub step-IsList :
    (s : State) (ys zs : List ℕ) (x : ℕ)
    → IsList s (ys ++ x ∷ zs)
    → step (iterator_to s (x ∷ zs)) s ≡ some (iterator_to s zs)
unfolding step
step-IsList s ys zs x h =
    let right = (IsList-split s ys (x ∷ zs) h).1 in
    let on : s.links.next x ≡ first_or 0 zs =
      IsSegment-first s.links x (s.links.next x) zs 0 right.0.3 in
    rw (node-real s ys zs x h, on) refl
