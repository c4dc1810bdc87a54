-- ===== src/Sync/Semaphore.antt =====
-- kernel/sync/semaphore.cpp. `objlock` makes `check`, each round of `wait` and `signal` atomic; a
-- round that finds no permit hands it on to `imp_wait`, which queues the thread. Whether `imp_notify`
-- can wake a thread, which it cannot if the thread has stopped, is the argument `alive`.
pub mod Permits
mod Tests
use cofuos.Prelude.{
  ℕ, ◌+◌, ◌-◌, ◌%◌, ◌^◌, Bool, true, false, Option, none, some, List, [], ◌∷◌, ◌++◌, ◌==◌, min,
  if◌then◌else◌,
}

pub record Semaphore : Type 0 where
  pub total : ℕ
  pub count : ℕ
  pub wait_queue : List ℕ

pub create : ℕ → Semaphore
create initial = record { total = initial; count = initial; wait_queue = [] }

pub check : Semaphore → Bool × Semaphore
check s = if s.count == 0 then (false, s) else (true, record s { count = s.count - 1 })

-- A round of `wait`: it returns, or the thread goes to sleep.
pub data Round : Type 0 where
  returned asleep : Round

pub wait : ℕ → Semaphore → Round × Semaphore
wait th s =
    if s.count == 0
    then (asleep, record s { wait_queue = s.wait_queue ++ th ∷ [] })
    else (returned, record s { count = s.count - 1 })

-- The loop of `signal`: threads that have stopped are taken off the queue too.
pub wake_one : (ℕ → Bool) → List ℕ → Option ℕ × List ℕ
wake_one alive [] = (none, [])
wake_one alive (th ∷ ths) = if alive th then (some th, ths) else wake_one alive ths

pub signal : (ℕ → Bool) → Semaphore → Option ℕ × Semaphore
signal alive s =
    let (woken, rest) = wake_one alive s.wait_queue in
    (woken, record s { count = min ((s.count + 1) % 2 ^ 32) s.total; wait_queue = rest })
