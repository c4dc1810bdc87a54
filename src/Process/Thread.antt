-- ===== src/Process/Thread.antt =====
-- kernel/process/thread.cpp: the state machine of a thread. An object is the number of its address, 0 is
-- the null pointer and the ticket of no timer. A failed assertion is the value `bugcheck`. What
-- `set_state` and `kill` do to the object's queue and the timer is the list of effects they return;
-- `World` applies them to the queue entry and the timer entry of the thread. Each operation has the
-- thread's lock.
pub mod Events
pub mod Registration
pub mod Stop
mod Tests
use cofuos.Prelude.{
  ℕ, zero, suc, ◌==◌, Bool, true, false, ltb, leb, not, ◌&&◌, ◌||◌, if◌then◌else◌, List, [], ◌∷◌,
  ◌++◌, ◌≡◌,
}

pub data State : Type 0 where
  ready running waiting stopped : State

pub data Reason : Type 0 where
  none passed notify timeout abandon : Reason

-- `in_critical` and `kill_pending` are the bits CRITICAL and KILL of `critical`.
pub record Thread : Type 0 where
  pub state : State
  pub in_critical : Bool
  pub kill_pending : Bool
  pub priority : ℕ
  pub wait_for : ℕ
  pub timer_ticket : ℕ
  pub reason : Reason

pub data Effect : Type 0 where
  cancel_wait : ℕ → Effect
  cancel_timer : ℕ → Effect

pub data Answer : Type 0 where
  moved : List Effect → Thread → Answer
  refused : Answer
  bugcheck : Answer

-- A call of `set_state` with its arguments.
pub data Request : Type 0 where
  to_ready : Reason → Request
  to_running : Request
  to_waiting : ℕ → ℕ → Request
  to_stopped : Request

abbrev pub cancel_timer_of : Thread → List Effect
cancel_timer_of t = if t.timer_ticket == 0 then [] else (cancel_timer t.timer_ticket ∷ [])

abbrev pub cancel_wait_of : Thread → List Effect
cancel_wait_of t = if t.wait_for == 0 then [] else (cancel_wait t.wait_for ∷ [])

abbrev pub woken : Reason → Thread → Thread
woken r t = record t { state = ready; reason = r; wait_for = 0; timer_ticket = 0 }

-- The move of a waiting thread to READY.
pub wake : Reason → Thread → Answer
wake none t = bugcheck
wake passed t = bugcheck
wake notify t = if t.wait_for == 0 then bugcheck else moved (cancel_timer_of t) (woken notify t)
wake timeout t =
    if t.timer_ticket == 0 then bugcheck else moved (cancel_wait_of t) (woken timeout t)
wake abandon t =
    if t.wait_for == 0
    then bugcheck
    else moved (cancel_wait t.wait_for ∷ cancel_timer_of t) (woken abandon t)

pub set_state_from : State → Request → Thread → Answer
set_state_from stopped q t = refused
set_state_from waiting (to_ready r) t = wake r t
set_state_from ready (to_ready r) t = moved [] (record t { state = ready })
set_state_from running (to_ready r) t = moved [] (record t { state = ready })
set_state_from ready to_running t = moved [] (record t { state = running })
set_state_from running to_running t = bugcheck
set_state_from waiting to_running t = bugcheck
set_state_from running (to_waiting ticket obj) t =
    if (ticket == 0) && (obj == 0)
    then bugcheck
    else (if (t.wait_for == 0) && (t.timer_ticket == 0)
        then moved [] (record t { state = waiting; wait_for = obj; timer_ticket = ticket })
        else bugcheck)
set_state_from ready (to_waiting ticket obj) t = bugcheck
set_state_from waiting (to_waiting ticket obj) t = bugcheck
set_state_from ready to_stopped t = bugcheck
set_state_from running to_stopped t = bugcheck
set_state_from waiting to_stopped t = bugcheck

abbrev pub set_state : Request → Thread → Answer
set_state q t = set_state_from t.state q t

abbrev pub max_priority : ℕ
max_priority = 0x10

abbrev pub set_priority : ℕ → Thread → Bool × Thread
set_priority v t = if leb max_priority v then (false, t) else (true, record t { priority = v })

abbrev pub hold : Thread → Answer
hold t =
    if t.in_critical || t.kill_pending then bugcheck else moved [] (record t { in_critical = true })

-- `drop` stops a thread that was killed in its critical section.
abbrev pub drop_from : State → Thread → Answer
drop_from running t = moved [] (record t { in_critical = false; state = stopped })
drop_from ready t = bugcheck
drop_from waiting t = bugcheck
drop_from stopped t = bugcheck

abbrev pub drop : Thread → Answer
drop t =
    if not t.in_critical
    then bugcheck
    else (if t.kill_pending
        then drop_from t.state t
        else moved [] (record t { in_critical = false }))

abbrev pub kill_from : State → Thread → Answer
kill_from waiting t =
    moved (cancel_wait_of t ++ cancel_timer_of t)
      (record t { state = stopped; wait_for = 0; timer_ticket = 0 })
kill_from ready t = moved [] (record t { state = stopped })
kill_from running t = moved [] (record t { state = stopped })
kill_from stopped t = moved [] (record t { state = stopped })

abbrev pub kill : Thread → Answer
kill t = if t.in_critical then moved [] (record t { kill_pending = true }) else kill_from t.state t

-- The thread with its entry in the queue of the object it waits for, and that in the timer's queue.
pub record World : Type 0 where
  pub thread : Thread
  pub queued : Bool
  pub armed : Bool

pub data Result : Type 0 where
  went : World → Result
  corrupted : Result

-- `waitable::cancel` has a bugcheck for a thread that is not in the queue, `timer.cancel` has none.
pub apply : List Effect → World → Result
apply [] w = went w
apply (cancel_wait o ∷ es) w =
    let rest = apply es (record w { queued = false }) in if w.queued then rest else corrupted
apply (cancel_timer n ∷ es) w = apply es (record w { armed = false })

-- The rest of an operation, with `keep` what stands when the thread refuses.
abbrev pub settle : Answer → World → Result
settle (moved es t) w = apply es (record w { thread = t })
settle refused w = went w
settle bugcheck w = corrupted

-- `imp_wait` after `set_state`: the thread goes into the queue, or its timer is cancelled.
abbrev pub enter_wait : Answer → ℕ → ℕ → World → Result
enter_wait (moved es t) ticket obj w =
    went (record { thread = t; queued = not (obj == 0); armed = not (ticket == 0) })
enter_wait refused ticket obj w = went w
enter_wait bugcheck ticket obj w = corrupted

-- What happens to a thread: the scheduler, its waits, `notify` of the object and of one that goes,
-- its timer, and `kill`.
pub data Op : Type 0 where
  run preempt hold_up drop_it kill_it abandon_all : Op
  wait_on : ℕ → ℕ → Op
  notify_all : Op
  fire : Op

-- Each operation as a whole. `notify` and the timer reach the thread only by its entry. `Events` splits
-- `notify` and `on_timer` into the steps that others can come between.
pub perform : Op → World → Result
perform run w = settle (set_state to_running w.thread) w
perform preempt w = settle (set_state (to_ready none) w.thread) w
perform hold_up w = settle (hold w.thread) w
perform drop_it w = settle (drop w.thread) w
perform kill_it w = settle (kill w.thread) w
perform abandon_all w =
    if w.queued
    then settle (set_state (to_ready abandon) w.thread) (record w { queued = false })
    else went w
perform (wait_on ticket obj) w =
    enter_wait (set_state (to_waiting ticket obj) w.thread) ticket obj w
perform notify_all w =
    if w.queued
    then settle (set_state (to_ready notify) w.thread) (record w { queued = false })
    else went w
perform fire w =
    if w.armed
    then settle (set_state (to_ready timeout) w.thread) (record w { armed = false })
    else went w

abbrev pub is_state : State → State → Bool
is_state ready ready = true
is_state running running = true
is_state waiting waiting = true
is_state stopped stopped = true
is_state ready running = false
is_state ready waiting = false
is_state ready stopped = false
is_state running ready = false
is_state running waiting = false
is_state running stopped = false
is_state waiting ready = false
is_state waiting running = false
is_state waiting stopped = false
is_state stopped ready = false
is_state stopped running = false
is_state stopped waiting = false

-- When the kernel calls each of them: the scheduler takes a ready thread, or one that was stopped since
-- it was queued; the current thread runs, or was stopped since; it enters its critical section when it
-- is in none.
pub enabled : Op → World → Bool
enabled run w = is_state ready w.thread.state || is_state stopped w.thread.state
enabled preempt w = is_state running w.thread.state || is_state stopped w.thread.state
enabled hold_up w = not w.thread.in_critical && not w.thread.kill_pending
enabled drop_it w = w.thread.in_critical && is_state running w.thread.state
enabled kill_it w = true
enabled abandon_all w = true
enabled (wait_on ticket obj) w =
    (is_state running w.thread.state || is_state stopped w.thread.state)
    && not ((ticket == 0) && (obj == 0))
enabled notify_all w = true
enabled fire w = true

-- The thread is queued just when it waits for an object, its timer is armed just when it waits with one;
-- it waits for something, and when it does not wait it keeps neither.
pub is_valid : World → Bool
is_valid w =
    let waits = is_state waiting w.thread.state in
    let object = not (w.thread.wait_for == 0) in
    let ticket = not (w.thread.timer_ticket == 0) in
    (if w.queued then waits && object else not object)
    && (if w.armed then waits && ticket else not ticket)
    && (if waits then object || ticket else true)
