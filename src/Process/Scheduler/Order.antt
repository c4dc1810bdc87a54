-- ===== src/Process/Scheduler/Order.antt =====
-- The scheduler takes the most urgent thread that has waited longest.
use cofuos.Prelude.{
  ℕ, zero, suc, ◌+◌, ◌≤◌, ◌<◌, ◌==◌, ◌≡◌, refl, ◌∙◌, ◌⊎◌, inl, inr, min, Option, none, some, List,
  [], ◌∷◌, arith, Bool-cases,
}
use native.Mathlib.Nat.{zero-add}
use cofuos.Process.Scheduler.{priorities, Ready, set_queue, take_first, get_loop, get}

-- `r` took the thread `th` from the queue of priority `p`, the first that is not empty from `i` on.
pub record IsTaken (i p th : ℕ) (rest : List ℕ) (q : Ready) (r : Option ℕ × Ready) : Type 0 where
  pub taken : r ≡ (some th, set_queue p rest q)
  pub first : q p ≡ th ∷ rest
  pub urgent : (j : ℕ) → i ≤ j → j < p → q j ≡ []

get_first :
    (i n : ℕ) (q : Ready) (xs : List ℕ) (rest : Option ℕ × Ready)
    → q i ≡ xs
    → ((xs ≡ []) × (take_first i xs rest q ≡ rest))
      ⊎ ((th : ℕ) × (ths : List ℕ) × IsTaken i i th ths q (take_first i xs rest q))
get_first i n q [] rest e = inl (refl, refl)
get_first i n q (th ∷ ths) rest e =
    inr (th, ths, record { taken = refl; first = e; urgent = λ j a b. absurd (omega arith) })

more_empty : (q : Ready) (i j : ℕ) → q i ≡ [] → (i + 1 ≤ j → q j ≡ []) → i ≤ j → q j ≡ []
more_empty q i j e h l = elim (Bool-cases (j == i)) [
  | inl k ↦ let k' : j ≡ i = ground arith in rw k' e
  | inr k ↦ h (ground arith)
]

get_loop_lem :
    (n i : ℕ) (q : Ready)
    → ((get_loop n i q ≡ (none, q)) × ((j : ℕ) → i ≤ j → j < i + n → q j ≡ []))
      ⊎ ((p th : ℕ) × (rest : List ℕ) × (p < i + n) × IsTaken i p th rest q (get_loop n i q))
unfolding get_loop
get_loop_lem zero i q = inl (refl, λ j a b. absurd (omega arith))
get_loop_lem (suc n) i q = elim (get_first i n q (q i) (get_loop n (i + 1) q) refl) [
  | inr t ↦ inr (i, t.0, t.1, omega arith, t.2)
  | inl t ↦
      let (e, s) = t in
      elim (get_loop_lem n (i + 1) q) [
        | inl g ↦ inl (s ∙ g.0, λ j a b. more_empty q i j e (λ l. g.1 j l (omega arith)) a)
        | inr g ↦
            let (p, th, rest, b, t) = g in
            inr (
              p,
              th,
              rest,
              omega (arith, b),
              record {
                taken = s ∙ t.taken;
                first = t.first;
                urgent = λ j l m. more_empty q i j e (λ k. t.urgent j k m) l;
              },
            )
      ]
]

-- `get` takes the thread that has waited longest among the most urgent ones below `level`: the first of
-- the queue of the least priority number that is not empty. It takes nothing, and changes nothing, just
-- when all these queues are empty.
pub get_lem :
    (level : ℕ) (q : Ready)
    → ((get level q ≡ (none, q)) × ((j : ℕ) → j < min level priorities → q j ≡ []))
      ⊎ ((p th : ℕ) × (rest : List ℕ) × (p < min level priorities)
          × IsTaken 0 p th rest q (get level q))
unfolding get
get_lem level q = elim (rw zero-add at (get_loop_lem (min level priorities) 0 q)) [
  | inl g ↦ inl (g.0, λ j l. g.1 j (omega arith) l)
  | inr g ↦ inr g
]
