-- ===== src/Container/LinkedList/Relink.antt =====
-- The two ends of a list at a place, and the writes that join them anew.
use cofuos.Prelude.{
  ℕ, ◌≡◌, refl, sym, ◌≢◌, inl, inr, true, false, ◌==◌, List, [], ◌∷◌, arith, Bool-cases,
}
use mathlib.Core.Path.{subst}
use cofuos.Prelude.Tickets.{contains, contains-ne}
use cofuos.Container.LinkedList.{Links, State, write, set_next, set_prev, link_next, link_prev}
use cofuos.Container.LinkedList.Segment.{last_or, first_or, IsSegment, IsSegment-same, IsDistinct}

-- The nodes before a place, from the head on, and those from it on, to the tail.
abbrev pub IsLeft : State → List ℕ → ℕ → Type 0
IsLeft s ys e = IsSegment s.links 0 s.list.head ys e

abbrev pub IsRight : State → ℕ → List ℕ → Type 0
IsRight s b zs = IsSegment s.links b (first_or 0 zs) zs 0 × (s.list.tail ≡ last_or b zs)

pub contains-last_or : (y : ℕ) (ys : List ℕ) → contains (y ∷ ys) (last_or y ys) ≡ true
unfolding last_or
contains-last_or y [] = ground arith
contains-last_or y (z ∷ zs) = ground (arith, contains-last_or z zs)

pub last_or-real :
    (k : Links) (b p y : ℕ) (ys : List ℕ) (e : ℕ) → IsSegment k b p (y ∷ ys) e → last_or y ys ≢ 0
unfolding last_or
last_or-real k b p y [] e h = h.1
last_or-real k b p y (z ∷ zs) e h = last_or-real k y (k.next y) z zs e h.3

-- Writes to nodes outside.
pub next-same :
    (k : Links) (b p a v : ℕ) (xs : List ℕ) (e : ℕ)
    → contains xs a ≡ false
    → IsSegment k b p xs e
    → IsSegment (record k { next = write k.next a v }) b p xs e
next-same k b p a v xs e out h =
    IsSegment-same k _ b p xs e (λ c m. (let n = contains-ne xs a c out m in ground arith, refl)) h

pub prev-same :
    (k : Links) (b p a v : ℕ) (xs : List ℕ) (e : ℕ)
    → contains xs a ≡ false
    → IsSegment k b p xs e
    → IsSegment (record k { prev = write k.prev a v }) b p xs e
prev-same k b p a v xs e out h =
    IsSegment-same k _ b p xs e (λ c m. (refl, let n = contains-ne xs a c out m in ground arith)) h

pub next-last :
    (k : Links) (b p y v : ℕ) (ys : List ℕ) (e : ℕ)
    → IsDistinct (y ∷ ys)
    → IsSegment k b p (y ∷ ys) e
    → IsSegment (record k { next = write k.next (last_or y ys) v }) b p (y ∷ ys) v
unfolding last_or
next-last k b p y v [] e d (a, n, l, r) = (a, n, l, ground arith)
next-last k b p y v (z ∷ zs) e d (a, n, l, r) =
    let apart = contains-ne (z ∷ zs) y (last_or z zs) d.0 (contains-last_or z zs) in
    let here : write k.next (last_or z zs) v y ≡ k.next y = ground arith in
    (a, n, l, rw here (next-last k y (k.next y) z v zs e d.1 r))

link_next-real : (a v : ℕ) (s : State) → (a == 0) ≡ false → link_next a v s ≡ set_next a v s
link_next-real a v s w = rw w refl

pub link_prev-real : (a v : ℕ) (s : State) → (a == 0) ≡ false → link_prev a v s ≡ set_prev a v s
link_prev-real a v s w = rw w refl

pub link_next-IsLeft :
    (s : State) (ys : List ℕ) (e v : ℕ)
    → IsDistinct ys
    → IsLeft s ys e
    → IsLeft (link_next (last_or 0 ys) v s) ys v
unfolding last_or
link_next-IsLeft s [] e v d h = refl
link_next-IsLeft s (y ∷ ys) e v d h =
    let n = last_or-real s.links 0 s.list.head y ys e h in
    let w : (last_or y ys == 0) ≡ false = ground arith in
    let t = next-last s.links 0 s.list.head y v ys e d h in
    subst (λ q. IsLeft q (y ∷ ys) v) (sym (link_next-real (last_or y ys) v s w)) t

pub link_next-IsRight :
    (s : State) (b a v : ℕ) (zs : List ℕ)
    → contains zs a ≡ false
    → IsRight s b zs
    → IsRight (link_next a v s) b zs
link_next-IsRight s b a v zs out h = elim (Bool-cases (a == 0)) [
  | inl e ↦ rw e h
  | inr e ↦ rw e (next-same s.links b _ a v zs 0 out h.0, h.1)
]

pub link_prev-IsLeft :
    (s : State) (ys : List ℕ) (e a v : ℕ)
    → contains ys a ≡ false
    → IsLeft s ys e
    → IsLeft (link_prev a v s) ys e
link_prev-IsLeft s ys e a v out h = elim (Bool-cases (a == 0)) [
  | inl w ↦ rw w h
  | inr w ↦ rw w (prev-same s.links 0 _ a v ys e out h)
]

pub link_prev-IsRight :
    (s : State) (b v : ℕ) (zs : List ℕ)
    → IsDistinct zs
    → IsRight s b zs
    → IsRight (link_prev (first_or 0 zs) v s) v zs
unfolding last_or
link_prev-IsRight s b v [] d h = (refl, refl)
link_prev-IsRight s b v (z ∷ zs) d ((a, n, l, r), t) =
    let w : (z == 0) ≡ false = ground arith in
    let u = prev-same s.links z _ z v zs 0 d.0 r in
    let here : write s.links.prev z v z ≡ v = ground arith in
    subst (λ q. IsRight q v (z ∷ zs)) (sym (link_prev-real z v s w)) ((refl, n, here, u), t)
