-- ===== src/Dev/Timer/Deadlines.antt =====
-- The delta queue of timer.cpp, read as a list of absolute deadlines.
use cofuos.Prelude.{
  ℕ, ◌+◌, ◌-◌, ◌<◌, Bool, List, [], ◌∷◌, map, ◌≡◌, refl, ◌≢◌, ltb, leb, ◌&&◌, if◌then◌else◌, arith,
}
use cofuos.Prelude.Tickets.{contains, erase, contains-erase_ne}
use cofuos.Dev.Timer.{Entry, call_of, renew, enqueue, drain}

-- Each entry with its `diff_tick` replaced by the tick at which it is due, counted from `base`.
abbrev pub deadlines : ℕ → List Entry → List Entry
deadlines base [] = []
deadlines base (x ∷ xs) =
    record x { diff_tick = base + x.diff_tick } ∷ deadlines (base + x.diff_tick) xs

-- Ordered insertion, in front of equal deadlines.
abbrev pub place : Entry → List Entry → List Entry
place e [] = e ∷ []
place e (x ∷ xs) = if leb e.diff_tick x.diff_tick then e ∷ x ∷ xs else x ∷ place e xs

abbrev pub later : ℕ → Entry → Entry
later base e = record e { diff_tick = base + e.diff_tick }

-- Inserting in the delta queue moves no deadline.
pub deadlines-enqueue :
    (base : ℕ) (e : Entry) (q : List Entry)
    → deadlines base (enqueue e q) ≡ place (later base e) (deadlines base q)
unfolding enqueue
deadlines-enqueue base e [] = refl
deadlines-enqueue base e (x ∷ xs) = ground (
  arith,
  deadlines-enqueue (base + x.diff_tick) (record e { diff_tick = e.diff_tick - x.diff_tick }) xs,
)

abbrev pub keep {ℓ} : {A : Type ℓ} → (A → Bool) → List A → List A
keep p [] = []
keep p (x ∷ xs) = if p x then x ∷ keep p xs else keep p xs

-- Due by the tick `now`, and not cancelled.
abbrev pub due : ℕ → List ℕ → Entry → Bool
due now live x = leb x.diff_tick now && contains live x.ticket

abbrev pub Fresh : ℕ → List Entry → Type 0
Fresh t [] = Unit
Fresh t (x ∷ xs) = (x.ticket ≢ t) × Fresh t xs

-- No ticket stands twice in the queue.
abbrev pub Distinct : List Entry → Type 0
Distinct [] = Unit
Distinct (x ∷ xs) = Fresh x.ticket xs × Distinct xs

pub keep-due_past :
    (now base : ℕ) (live : List ℕ) (q : List Entry)
    → now < base
    → keep (due now live) (deadlines base q) ≡ []
keep-due_past now base live [] h = refl
keep-due_past now base live (x ∷ xs) h =
    ground (arith, keep-due_past now (base + x.diff_tick) live xs)

keep-due-erase :
    (now base t : ℕ) (live : List ℕ) (q : List Entry)
    → Fresh t q
    → keep (due now (erase t live)) (deadlines base q) ≡ keep (due now live) (deadlines base q)
keep-due-erase now base t live [] h = refl
keep-due-erase now base t live (x ∷ xs) h =
    ground
      (arith, keep-due-erase now (base + x.diff_tick) t live xs, contains-erase_ne t x.ticket live)

-- The calls are those of the entries that are due and live, in the order of their deadlines.
pub calls-drain :
    (base count : ℕ) (live : List ℕ) (periodic q : List Entry)
    → Distinct q
    → (drain count live periodic q).calls
      ≡ map call_of (keep (due (base + count) live) (deadlines base q))
unfolding drain
calls-drain base count live periodic [] d = refl
calls-drain base count live periodic (x ∷ xs) d = ground (
  arith,
  keep-due_past (base + count) (base + x.diff_tick) live xs,
  keep-due-erase (base + count) (base + x.diff_tick) x.ticket live xs,
  calls-drain (base + x.diff_tick) (count - x.diff_tick) live periodic xs d.1,
  calls-drain (base + x.diff_tick) (count - x.diff_tick) (erase x.ticket live) periodic xs d.1,
  calls-drain (base + x.diff_tick) (count - x.diff_tick) live
      (renew (count - x.diff_tick) x ∷ periodic) xs d.1,
)

keep-later_all :
    (now base : ℕ) (q : List Entry)
    → now < base
    → keep (λ x. ltb now x.diff_tick) (deadlines base q) ≡ deadlines base q
keep-later_all now base [] h = refl
keep-later_all now base (x ∷ xs) h = ground (arith, keep-later_all now (base + x.diff_tick) xs)

-- What stays in the queue is what is due after the step, at the deadline that it had.
pub deadlines-drain :
    (base count : ℕ) (live : List ℕ) (periodic q : List Entry)
    → deadlines (base + count) (drain count live periodic q).queue
      ≡ keep (λ x. ltb (base + count) x.diff_tick) (deadlines base q)
unfolding drain
deadlines-drain base count live periodic [] = refl
deadlines-drain base count live periodic (x ∷ xs) = ground (
  arith,
  keep-later_all (base + count) (base + x.diff_tick) xs,
  deadlines-drain (base + x.diff_tick) (count - x.diff_tick) live periodic xs,
  deadlines-drain (base + x.diff_tick) (count - x.diff_tick) (erase x.ticket live) periodic xs,
  deadlines-drain (base + x.diff_tick) (count - x.diff_tick) live
      (renew (count - x.diff_tick) x ∷ periodic) xs,
)
