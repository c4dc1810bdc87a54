-- ===== src/Process/Scheduler.antt =====
-- kernel/process/core_state.cpp: the queues of ready threads, one for each priority. A queue is the list
-- that Process.Queue refines. `priority` reads the field of a thread; the spin lock makes each operation
-- atomic. `bugcheck` is the failed assertion on the priority.
pub mod Order
mod Tests
use cofuos.Prelude.{
  ℕ, zero, suc, ◌+◌, ◌==◌, min, Bool, true, false, ltb, if◌then◌else◌, Option, none, some, List, [],
  ◌∷◌, ◌++◌,
}

abbrev pub priorities : ℕ
priorities = 0x10

abbrev pub Ready : Type 0
Ready = ℕ → List ℕ

abbrev pub set_queue : ℕ → List ℕ → Ready → Ready
set_queue p xs r i = if i == p then xs else r i

-- What `get` makes of the queue of priority `i`: its first thread, or the rest of the search.
abbrev pub take_first : ℕ → List ℕ → Option ℕ × Ready → Ready → Option ℕ × Ready
take_first i [] rest r = rest
take_first i (th ∷ ths) rest r = (some th, set_queue i ths r)

-- The loop of `get` over `n` priorities from `i` on.
pub get_loop : ℕ → ℕ → Ready → Option ℕ × Ready
get_loop zero i r = (none, r)
get_loop (suc n) i r = let rest = get_loop n (i + 1) r in take_first i (r i) rest r

pub get : ℕ → Ready → Option ℕ × Ready
get level r = get_loop (min level priorities) 0 r

pub data Put : Type 0 where
  queued : Ready → Put
  bugcheck : Put

pub put : (ℕ → ℕ) → ℕ → Ready → Put
put priority th r =
    if ltb (priority th) priorities
    then queued (set_queue (priority th) (r (priority th) ++ th ∷ []) r)
    else bugcheck
