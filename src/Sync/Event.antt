-- ===== src/Sync/Event.antt =====
-- kernel/sync/event.cpp. `wait` reads `state` without `objlock`, and takes `objlock` to sleep: these
-- are two steps. A thread that can be woken is one for which `alive` holds.
pub mod Signals
mod Tests
use cofuos.Prelude.{ℕ, Bool, true, false, Option, none, some, List, [], ◌∷◌, ◌++◌, if◌then◌else◌}

pub record Event : Type 0 where
  pub state : Bool
  pub wait_queue : List ℕ

pub data Look : Type 0 where
  passed to_sleep : Look

-- The first step of `wait`.
pub look : Event → Look
look e = if e.state then passed else to_sleep

-- The second step of `wait`, `waitable::wait`.
pub sleep : ℕ → Event → Event
sleep th e = record e { wait_queue = e.wait_queue ++ th ∷ [] }

pub wake_one : (ℕ → Bool) → List ℕ → Option ℕ × List ℕ
wake_one alive [] = (none, [])
wake_one alive (th ∷ ths) = if alive th then (some th, ths) else wake_one alive ths

pub signal_one : (ℕ → Bool) → Event → Option ℕ × Event
signal_one alive e =
    let (woken, rest) = wake_one alive e.wait_queue in (woken, record e { wait_queue = rest })

-- `imp_notify` on the whole queue: the threads that it wakes.
pub wake_all : (ℕ → Bool) → List ℕ → List ℕ
wake_all alive [] = []
wake_all alive (th ∷ ths) = if alive th then th ∷ wake_all alive ths else wake_all alive ths

pub signal_all : (ℕ → Bool) → Event → List ℕ × Event
signal_all alive e = (wake_all alive e.wait_queue, record { state = true; wait_queue = [] })

pub reset : Event → Event
reset e = record e { state = false }
