-- ===== src/Process/Thread/Events.antt =====
-- kernel/process/waitable.cpp: `notify` with `imp_notify`, and `on_timer`, as the steps that other processors can come
-- between. `notify` empties the queue with the object's lock, and `imp_notify` reaches the thread later, with the
-- thread's. The timer takes the entry out of its queue and calls `on_timer` later; there the read of the ticket and what
-- follows it with the thread's lock are one step.
use cofuos.Prelude.{ℕ, ◌==◌, Bool, true, false, not, ◌&&◌, ◌||◌, if◌then◌else◌}
use cofuos.Process.Thread.{
  Reason, none, passed, notify, timeout, abandon, Op, run, preempt, hold_up, drop_it, kill_it,
  abandon_all, wait_on, notify_all, fire, World, Result, went, corrupted, to_ready, to_running,
  set_state, settle, perform, enabled, is_state, waiting,
}

-- What `imp_notify` has still to do with the thread.
pub data Pending : Type 0 where
  idle : Pending
  reaching : Reason → Pending

-- `due` is the ticket that `on_timer` was called with, 0 for no call.
pub record Live : Type 0 where
  pub world : World
  pub pending : Pending
  pub due : ℕ

pub data Outcome : Type 0 where
  came : Live → Outcome
  halted : Outcome

pub data Event : Type 0 where
  called : Op → Event
  clear_queue : Reason → Event
  reach expire : Event
  on_timer : Bool → Event

abbrev pub with_world : Pending → ℕ → Result → Outcome
with_world p d (went w) = came (record { world = w; pending = p; due = d })
with_world p d corrupted = halted

-- `set_state(RUNNING)` of a thread that preempts the current one.
abbrev pub preempting : Bool → Result → Result
preempting b corrupted = corrupted
preempting b (went w) = if b then settle (set_state to_running w.thread) w else went w

abbrev pub reach_with : Pending → Live → Outcome
reach_with idle v = came v
reach_with (reaching r) v =
    with_world idle v.due (settle (set_state (to_ready r) v.world.thread) v.world)

-- `notify` up to `imp_notify`.
abbrev pub notify_step : Reason → Live → Outcome
notify_step r v =
    if v.world.queued
    then came (record v { world = record (v.world) { queued = false }; pending = reaching r })
    else came v

abbrev pub on_timer_step : Bool → Live → Outcome
on_timer_step preempts v =
    if not (v.due == 0) && (v.due == v.world.thread.timer_ticket)
    then with_world v.pending 0
        (preempting preempts (settle (set_state (to_ready timeout) v.world.thread) v.world))
    else came (record v { due = 0 })

-- `expire` is the timer's part: the entry leaves its queue, and `on_timer` is called with the ticket.
unfoldable pub happen : Event → Live → Outcome
happen (called op) v = with_world v.pending v.due (perform op v.world)
happen (clear_queue r) v = notify_step r v
happen reach v = reach_with v.pending v
happen expire v =
    if v.world.armed
    then came
        (record v { world = record (v.world) { armed = false }; due = v.world.thread.timer_ticket })
    else came v
happen (on_timer preempts) v = on_timer_step preempts v

abbrev pub is_reason_of_notify : Reason → Bool
is_reason_of_notify none = false
is_reason_of_notify passed = false
is_reason_of_notify notify = true
is_reason_of_notify timeout = false
is_reason_of_notify abandon = true

-- The operations that are one step, and with a ticket that is new.
abbrev pub is_step : Op → ℕ → Bool
is_step run d = true
is_step preempt d = true
is_step hold_up d = true
is_step drop_it d = true
is_step kill_it d = true
is_step abandon_all d = false
is_step notify_all d = false
is_step fire d = false
is_step (wait_on ticket obj) d = not (ticket == d) || (ticket == 0)

unfoldable pub may_happen : Event → Live → Bool
may_happen (called op) v = is_step op v.due && enabled op v.world
may_happen (clear_queue r) v = is_reason_of_notify r
may_happen reach v = true
may_happen expire v = true
may_happen (on_timer preempts) v = true

abbrev pub is_pending : Pending → Bool
is_pending idle = false
is_pending (reaching r) = true

abbrev pub is_notify : Pending → Bool
is_notify idle = true
is_notify (reaching none) = false
is_notify (reaching passed) = false
is_notify (reaching notify) = true
is_notify (reaching timeout) = false
is_notify (reaching abandon) = false

abbrev pub is_abandon : Pending → Bool
is_abandon idle = false
is_abandon (reaching none) = false
is_abandon (reaching passed) = false
is_abandon (reaching notify) = false
is_abandon (reaching timeout) = false
is_abandon (reaching abandon) = true

-- The thread is in the queue of the object that it waits for, or on its way out of it; its timer is armed, or
-- `on_timer` was called with its ticket, just when it waits with one.
unfoldable pub is_registered : Live → Bool
is_registered v =
    let t = v.world.thread in
    let waits = is_state waiting t.state in
    let object = not (t.wait_for == 0) in
    let ticket = not (t.timer_ticket == 0) in
    (is_notify v.pending || is_abandon v.pending)
    && (if is_pending v.pending
        then not v.world.queued && waits && object
        else (if v.world.queued then waits && object else not object))
    && (if v.world.armed
        then waits && ticket && not (v.due == t.timer_ticket)
        else (if ticket then waits && (v.due == t.timer_ticket) else true))
    && (if waits then object || ticket else true)

-- The events that the kernel does not survive: the thread looks for itself in a queue that `notify` has emptied.
-- `ABANDON` makes it do so itself; `kill` outside a critical section and its timeout do when they come before
-- `imp_notify`.
unfoldable pub is_fatal : Event → Live → Bool
is_fatal (called kill_it) v = is_pending v.pending && not v.world.thread.in_critical
is_fatal (called run) v = false
is_fatal (called preempt) v = false
is_fatal (called hold_up) v = false
is_fatal (called drop_it) v = false
is_fatal (called abandon_all) v = false
is_fatal (called (wait_on ticket obj)) v = false
is_fatal (called notify_all) v = false
is_fatal (called fire) v = false
is_fatal (clear_queue r) v = false
is_fatal reach v = is_abandon v.pending
is_fatal expire v = false
is_fatal (on_timer preempts) v =
    is_pending v.pending && not (v.due == 0) && (v.due == v.world.thread.timer_ticket)
