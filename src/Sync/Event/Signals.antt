-- ===== src/Sync/Event/Signals.antt =====
-- Who sleeps on an event, and who is woken.
use cofuos.Prelude.{ℕ, ◌≡◌, refl, ◌⊎◌, inl, inr, Bool, false, List, [], ◌∷◌, arith}
use cofuos.Sync.Event.{
  Event, passed, to_sleep, look, sleep, wake_one, signal_one, wake_all, signal_all, reset,
}

-- The steps of an event when nothing comes between the two steps of a `wait`.
pub data Step : Event → Event → Type 0 where
  passes : (e : Event) → look e ≡ passed → Step e e
  sleeps : (e : Event) (th : ℕ) → look e ≡ to_sleep → Step e (sleep th e)
  signals_one : (e : Event) (alive : ℕ → Bool) → Step e (signal_one alive e).1
  signals_all : (e : Event) (alive : ℕ → Bool) → Step e (signal_all alive e).1
  resets : (e : Event) → Step e (reset e)

pub data Reach (initial : Bool) : Event → Type 0 where
  start : Reach initial (record { state = initial; wait_queue = [] })
  next : {e f : Event} → Reach initial e → Step e f → Reach initial f

wake_one-empty : (alive : ℕ → Bool) (q : List ℕ) → q ≡ [] → (wake_one alive q).1 ≡ []
unfolding wake_one
wake_one-empty alive [] h = refl
wake_one-empty alive (th ∷ ths) h = cc

abbrev pub IsValid : Event → Type 0
IsValid e = (e.wait_queue ≡ []) ⊎ (e.state ≡ false)

Step-IsValid : {e f : Event} → Step e f → IsValid e → IsValid f
unfolding look sleep signal_one signal_all reset
Step-IsValid (passes e h) v = v
Step-IsValid (sleeps e th h) v = ground arith
Step-IsValid (signals_one e alive) v = ground (arith, wake_one-empty alive e.wait_queue)
Step-IsValid (signals_all e alive) v = inl refl
Step-IsValid (resets e) v = inr refl

-- As long as nothing comes between the look of a `wait` and its sleep, nobody ever sleeps on an
-- event that is set.
pub event-IsValid : {initial : Bool} {e : Event} → Reach initial e → IsValid e
event-IsValid start = inl refl
event-IsValid (next r st) = Step-IsValid st (event-IsValid r)

-- A `signal_all` that comes between the look of a `wait` and its sleep is lost: it does not wake the
-- thread, which then sleeps on an event that is set.
pub signal_all_lost :
    (alive : ℕ → Bool) (th : ℕ) (e : Event)
    → look e ≡ to_sleep
    → e.wait_queue ≡ []
    → let (woken, e') = signal_all alive e in
      (woken ≡ []) × ((sleep th e').wait_queue ≡ th ∷ []) × (look (sleep th e') ≡ passed)
unfolding look sleep signal_all wake_all
signal_all_lost alive th e h q = ground arith
