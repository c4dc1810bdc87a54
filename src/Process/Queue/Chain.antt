-- ===== src/Process/Queue/Chain.antt =====
-- Chains of threads in the store.
use cofuos.Prelude.{
  ℕ, zero, suc, ◌<◌, ◌==◌, ◌≡◌, ◌≢◌, refl, sym, ◌∙◌, inl, inr, true, false, List, [], ◌∷◌, ◌++◌,
  ◌||◌, arith, Bool-cases, length,
}
use cofuos.Prelude.Tickets.{contains-ne, contains, erase, contains-erase-false}
use cofuos.Process.Queue.{Next, set_next, find_prev}

-- From `p` the store leads through the threads `xs`, no two of them the same, to the end.
abbrev pub IsChain : Next → ℕ → List ℕ → Type 0
IsChain next p [] = p ≡ 0
IsChain next p (x ∷ xs) = (p ≡ x) × (x ≢ 0) × (contains xs x ≡ false) × IsChain next (next x) xs

unfoldable pub last : List ℕ → ℕ
last [] = 0
last (x ∷ []) = x
last (x ∷ y ∷ ys) = last (y ∷ ys)

pub last-real : (next : Next) (p x : ℕ) (xs : List ℕ) → IsChain next p (x ∷ xs) → last (x ∷ xs) ≢ 0
unfolding last
last-real next p x [] c = c.1
last-real next p x (y ∷ ys) c = last-real next (next x) y ys c.3

pub last-snoc : (xs : List ℕ) (th : ℕ) → last (xs ++ th ∷ []) ≡ th
unfolding last
last-snoc [] th = refl
last-snoc (x ∷ []) th = refl
last-snoc (x ∷ y ∷ ys) th = last-snoc (y ∷ ys) th

-- A write to a thread outside the chain leaves it alone.
pub IsChain-set_next :
    (next : Next) (p : ℕ) (xs : List ℕ) (y v : ℕ)
    → contains xs y ≡ false
    → IsChain next p xs
    → IsChain (set_next next y v) p xs
IsChain-set_next next p [] y v n c = c
IsChain-set_next next p (x ∷ xs) y v n c =
    let (e, z, d, rest) = c in
    let here : set_next next y v x ≡ next x = ground arith in
    (e, z, d, rw here (IsChain-set_next next (next x) xs y v (ground arith) rest))

pub contains-last : (x : ℕ) (xs : List ℕ) → contains (x ∷ xs) (last (x ∷ xs)) ≡ true
unfolding last
contains-last x [] = ground arith
contains-last x (y ∷ ys) = ground (arith, contains-last y ys)

contains-append : (xs : List ℕ) (th x : ℕ) → contains (xs ++ th ∷ []) x ≡ contains xs x || (th == x)
contains-append [] th x = ground arith
contains-append (y ∷ ys) th x = ground (arith, contains-append ys th x)

-- A thread put behind the last one.
pub IsChain-snoc :
    (next : Next) (p x : ℕ) (xs : List ℕ) (th : ℕ)
    → IsChain next p (x ∷ xs)
    → contains (x ∷ xs) th ≡ false
    → th ≢ 0
    → next th ≡ 0
    → IsChain (set_next next (last (x ∷ xs)) th) p ((x ∷ xs) ++ th ∷ [])
unfolding last
IsChain-snoc next p x [] th c n z e =
    let (a, b, d, r) = c in (a, b, ground arith, (ground arith, z, refl, ground arith))
IsChain-snoc next p x (y ∷ ys) th c n z e =
    let (a, b, d, r) = c in
    let l = contains-last y ys in
    let apart : x ≢ last (y ∷ ys) = contains-ne (y ∷ ys) x (last (y ∷ ys)) d l in
    let here : set_next next (last (y ∷ ys)) th x ≡ next x = ground (arith, apart) in
    (
      a,
      b,
      ground (arith, contains-append (y ∷ ys) th x),
      rw here (IsChain-snoc next (next x) y ys th r (ground arith) z e),
    )

-- What `find_prev` finds from `x` for a thread behind it: its predecessor `r`. Past it the thread is
-- out of the chain, and it was the last one just when nothing follows it.
pub record IsBefore (next : Next) (x : ℕ) (xs : List ℕ) (th r : ℕ) : Type 0 where
  pub real : r ≢ 0
  pub inside : contains (x ∷ xs) r ≡ true
  pub chain : IsChain (set_next next r (next th)) x (x ∷ erase th xs)
  pub end : next th ≡ 0 → last (x ∷ erase th xs) ≡ r
  pub middle : next th ≢ 0 → last (x ∷ erase th xs) ≡ last (x ∷ xs)

pub erase-absent : (th : ℕ) (xs : List ℕ) → contains xs th ≡ false → erase th xs ≡ xs
erase-absent th [] n = refl
erase-absent th (x ∷ xs) n = ground (arith, erase-absent th xs)

chain-end : (next : Next) (ys : List ℕ) → IsChain next 0 ys → ys ≡ []
chain-end next [] c = refl
chain-end next (y ∷ ys) c = absurd (c.1 (sym c.0))

chain-more :
    (next : Next) (p x : ℕ) (ys : List ℕ) → p ≢ 0 → IsChain next p ys → last (x ∷ ys) ≡ last ys
unfolding last
chain-more next p x [] z c = absurd (z c)
chain-more next p x (y ∷ ys) z c = refl

IsBefore-next :
    (next : Next) (x th : ℕ) (ys : List ℕ)
    → x ≢ 0
    → contains ys x ≡ false
    → contains ys th ≡ false
    → IsChain next (next th) ys
    → IsBefore next x (th ∷ ys) th x
unfolding last
IsBefore-next next x th ys b d n h =
    let gone : erase th (th ∷ ys) ≡ ys = ground (arith, erase-absent th ys n) in
    let here : set_next next x (next th) x ≡ next th = ground arith in
    record {
      real = b;
      inside = ground arith;
      chain = rw gone ((refl, b, d, rw here (IsChain-set_next next (next th) ys x (next th) d h)));
      end = λ e. rw (gone, chain-end next ys (rw e at h)) refl;
      middle = λ z.
          rw gone (chain-more next (next th) x ys z h ∙ sym (chain-more next (next th) th ys z h));
    }

IsBefore-later :
    (next : Next) (x y : ℕ) (ys : List ℕ) (th r : ℕ)
    → x ≢ 0
    → contains (y ∷ ys) x ≡ false
    → next x ≡ y
    → y ≢ th
    → IsBefore next y ys th r
    → IsBefore next x (y ∷ ys) th r
unfolding last
IsBefore-later next x y ys th r b d e n i =
    let kept : erase th (y ∷ ys) ≡ y ∷ erase th ys = ground arith in
    let apart = contains-ne (y ∷ ys) x r d i.inside in
    let here : set_next next r (next th) x ≡ y = ground (arith, apart) in
    record {
      real = i.real;
      inside = ground (arith, i.inside);
      chain =
          rw kept ((refl, b, rw kept at (contains-erase-false th x (y ∷ ys) d), rw here i.chain));
      end = λ z. rw kept (i.end z);
      middle = λ z. rw kept (i.middle z);
    }

pub find_prev_lem :
    (fuel : ℕ) (next : Next) (x : ℕ) (xs : List ℕ) (th : ℕ)
    → IsChain next x (x ∷ xs)
    → contains xs th ≡ true
    → length xs < fuel
    → IsBefore next x xs th (find_prev fuel next x th)
unfolding find_prev
find_prev_lem zero next x xs th c m l = absurd (omega arith)
find_prev_lem (suc fuel) next x [] th c m l = absurd (ground arith)
find_prev_lem (suc fuel) next x (y ∷ ys) th c m l =
    let (a, b, d, (e, f, g, h)) = c in
    let here : x == 0 ≡ false = ground arith in
    rw here (elim (Bool-cases (next x == th)) [
      | inl k ↦
          let t : y ≡ th = ground arith in
          rw k (rw t (IsBefore-next next x th ys b (ground arith) (rw t at g) (rw t at h)))
      | inr k ↦
          rw (k, e)
            (IsBefore-later next x y ys th (find_prev fuel next y th) b d e (ground arith)
              (find_prev_lem fuel next y ys th (refl, f, g, h) (ground arith) (ground arith)))
    ])

-- A thread outside the chain is not found.
pub find_prev-absent :
    (fuel : ℕ) (next : Next) (p : ℕ) (xs : List ℕ) (th : ℕ)
    → IsChain next p xs
    → contains xs th ≡ false
    → th ≢ 0
    → length xs < fuel
    → find_prev fuel next p th ≡ 0
unfolding find_prev
find_prev-absent zero next p xs th c n z l = absurd (omega arith)
find_prev-absent (suc fuel) next p [] th c n z l = ground arith
find_prev-absent (suc fuel) next p (x ∷ []) th c n z l =
    let (a, b, d, e) = c in
    rw a (ground (arith, a, e, find_prev-absent fuel next (next x) [] th e refl z (ground arith)))
find_prev-absent (suc fuel) next p (x ∷ y ∷ ys) th c n z l =
    let (a, b, d, e) = c in
    rw a (
      ground (
        arith,
        e.0,
        find_prev-absent fuel next (next x) (y ∷ ys) th e (ground arith) z (ground arith),
      ))
