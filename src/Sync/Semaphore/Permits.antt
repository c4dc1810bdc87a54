-- ===== src/Sync/Semaphore/Permits.antt =====
-- The permits of a semaphore, over every sequence of operations.
use cofuos.Prelude.{
  ℕ, ◌+◌, ◌-◌, ◌≤◌, ◌<◌, ◌^◌, ◌≡◌, refl, ◌⊎◌, inl, Bool, true, none, some, List, [], ◌∷◌, ◌++◌, min,
  arith,
}
use cofuos.Prelude.Tickets.{erase}
use cofuos.Sync.Semaphore.{Semaphore, create, check, Round, wait, wake_one, signal}

-- A semaphore, and the number of threads that were woken and have not yet looked at it again.
pub record System : Type 0 where
  pub sem : Semaphore
  pub woken : ℕ

pub data Step : System → System → Type 0 where
  checks :
      (s : System) (got : Bool) (t : Semaphore)
      → check s.sem ≡ (got, t)
      → Step s (record s { sem = t })
  enters :
      (s : System) (th : ℕ) (r : Round) (t : Semaphore)
      → wait th s.sem ≡ (r, t)
      → Step s (record s { sem = t })
  retries :
      (s : System) (th : ℕ) (r : Round) (t : Semaphore)
      → 0 < s.woken
      → wait th s.sem ≡ (r, t)
      → Step s (record { sem = t; woken = s.woken - 1 })
  signals :
      (s : System) (alive : ℕ → Bool) (th : ℕ) (t : Semaphore)
      → signal alive s.sem ≡ (some th, t)
      → Step s (record { sem = t; woken = s.woken + 1 })
  signals_nobody :
      (s : System) (alive : ℕ → Bool) (t : Semaphore)
      → signal alive s.sem ≡ (none, t)
      → Step s (record s { sem = t })
  times_out :
      (s : System) (th : ℕ)
      → Step s (record s { sem = record (s.sem) { wait_queue = erase th s.sem.wait_queue } })

pub data Reach (initial : ℕ) : System → Type 0 where
  start : Reach initial (record { sem = create initial; woken = 0 })
  next : {s t : System} → Reach initial s → Step s t → Reach initial t

-- The permits do not exceed the total; while somebody sleeps, there are no more permits than
-- threads on their way to take one.
pub record IsValid (initial : ℕ) (s : System) : Type 0 where
  pub total : s.sem.total ≡ initial
  pub bounded : s.sem.count ≤ initial
  pub served : (s.sem.wait_queue ≡ []) ⊎ (s.sem.count ≤ s.woken)

wake_one-none :
    (alive : ℕ → Bool) (q : List ℕ) → (wake_one alive q).0 ≡ none → (wake_one alive q).1 ≡ []
unfolding wake_one
wake_one-none alive [] h = refl
wake_one-none alive (th ∷ ths) h = ground (arith, wake_one-none alive ths)

wake_one-empty : (alive : ℕ → Bool) (q : List ℕ) → q ≡ [] → (wake_one alive q).1 ≡ []
unfolding wake_one
wake_one-empty alive [] h = refl
wake_one-empty alive (th ∷ ths) h = cc

Step-IsValid : {initial : ℕ} {s t : System} → Step s t → IsValid initial s → IsValid initial t
unfolding check wait signal
Step-IsValid (checks s got t e) v = ground arith
Step-IsValid (enters s th r t e) v = ground arith
Step-IsValid (retries s th r t h e) v = ground arith
Step-IsValid (signals s alive th t e) v = ground (arith, wake_one-empty alive s.sem.wait_queue)
Step-IsValid (signals_nobody s alive t e) v = ground (arith, wake_one-none alive s.sem.wait_queue)
Step-IsValid (times_out s th) v = ground arith

-- In every reachable state the permits are within the total, and a thread sleeps only while every
-- permit has a woken thread on its way to it.
pub semaphore-IsValid : {initial : ℕ} {s : System} → Reach initial s → IsValid initial s
unfolding create
semaphore-IsValid start = record { total = refl; bounded = omega arith; served = inl refl }
semaphore-IsValid (next r st) = Step-IsValid st (semaphore-IsValid r)

wake_one-append :
    (alive : ℕ → Bool) (dead : List ℕ) (th : ℕ) (rest : List ℕ)
    → (wake_one alive dead).0 ≡ none
    → alive th ≡ true
    → wake_one alive (dead ++ th ∷ rest) ≡ (some th, rest)
unfolding wake_one
wake_one-append alive [] th rest d a = rw a
wake_one-append alive (x ∷ xs) th rest d a = ground (arith, wake_one-append alive xs th rest)

-- A signal adds a permit up to the total, as long as the total is less than 2 ^ 32 - 1, and wakes
-- the first waiter that has not stopped, with those before it taken off the queue.
pub signal_lem :
    (alive : ℕ → Bool) (s : Semaphore) (dead : List ℕ) (th : ℕ) (rest : List ℕ)
    → s.count ≤ s.total
    → s.total < 2 ^ 32 - 1
    → s.wait_queue ≡ dead ++ th ∷ rest
    → (wake_one alive dead).0 ≡ none
    → alive th ≡ true
    → signal alive s ≡ (some th, record s { count = min (s.count + 1) s.total; wait_queue = rest })
unfolding signal
signal_lem alive s dead th rest low small q d a =
    ground (arith, wake_one-append alive dead th rest d a)

-- With a total of 2 ^ 32 - 1 and all permits free, a signal wraps the count to 0: every permit is
-- lost.
pub signal_wraps :
    (alive : ℕ → Bool) (s : Semaphore)
    → s.total ≡ 2 ^ 32 - 1
    → s.count ≡ s.total
    → (signal alive s).1.count ≡ 0
unfolding signal
signal_wraps alive s t c = ground arith
