-- ===== src/Process/Thread/Stop.antt =====
-- How a thread stops, and where the kernel's own order of events defeats it.
use cofuos.Prelude.{ℕ, Bool, true, false, not, ◌&&◌, ◌≡◌, arith}
use cofuos.Process.Thread.{
  State, running, stopped, Reason, World, Result, went, corrupted, Op, drop_it, kill_it,
  abandon_all, fire, perform, enabled, is_valid, is_state, apply, set_state_from, wake,
}

abbrev world : State → Bool → Bool → ℕ → ℕ → ℕ → Reason → Bool → Bool → World
world st c k p f n r q a = record {
  thread = record {
    state = st;
    in_critical = c;
    kill_pending = k;
    priority = p;
    wait_for = f;
    timer_ticket = n;
    reason = r;
  };
  queued = q;
  armed = a;
}

-- The outcome leaves the thread stopped, in no object's queue and without a timer.
unfoldable pub is_stopped : Result → Bool
is_stopped (went w) = is_state stopped w.thread.state && not w.queued && not w.armed
is_stopped corrupted = false

stays_stopped :
    (op : Op) (st : State) (c k : Bool) (p f n : ℕ) (r : Reason) (q a : Bool)
    → is_stopped (went (world st c k p f n r q a)) ≡ true
    → enabled op (world st c k p f n r q a) ≡ true
    → is_stopped (perform op (world st c k p f n r q a)) ≡ true
unfolding is_stopped perform enabled apply set_state_from wake
stays_stopped op st c k p f n r q a v e = ground arith

killed :
    (st : State) (k : Bool) (p f n : ℕ) (r : Reason) (q a : Bool)
    → is_valid (world st false k p f n r q a) ≡ true
    → is_stopped (perform kill_it (world st false k p f n r q a)) ≡ true
unfolding is_valid is_stopped perform apply
killed st k p f n r q a v = ground arith

-- A stopped thread stays stopped, in no queue and without a timer, whatever the kernel does next.
pub perform-is_stopped :
    (op : Op) (w : World)
    → is_stopped (went w) ≡ true
    → enabled op w ≡ true
    → is_stopped (perform op w) ≡ true
perform-is_stopped op w v e =
    stays_stopped op w.thread.state w.thread.in_critical w.thread.kill_pending w.thread.priority
      w.thread.wait_for w.thread.timer_ticket w.thread.reason w.queued w.armed v e

pub drops : Result → Result
drops (went w) = perform drop_it w
drops corrupted = corrupted

deferred :
    (st : State) (k : Bool) (p f n : ℕ) (r : Reason) (q a : Bool)
    → is_valid (world st true k p f n r q a) ≡ true
    → is_state running st ≡ true
    → is_stopped (drops (perform kill_it (world st true k p f n r q a))) ≡ true
unfolding is_valid is_stopped drops perform apply
deferred st k p f n r q a v e = ground arith

-- For a thread whose entries agree with its state: `kill` outside a critical section stops it at
-- once, whatever its state, and takes it out of the queue and the timer; inside one of a running
-- thread it does so when the section ends with `drop`.
pub kill-is_stopped :
    (w : World)
    → is_valid w ≡ true
    → (w.thread.in_critical ≡ false → is_stopped (perform kill_it w) ≡ true)
      × (w.thread.in_critical ≡ true
          → is_state running w.thread.state ≡ true
          → is_stopped (drops (perform kill_it w)) ≡ true)
kill-is_stopped w v = (
  λ c. rw c (
      killed w.thread.state w.thread.kill_pending w.thread.priority w.thread.wait_for
        w.thread.timer_ticket w.thread.reason w.queued w.armed (rw c at v)),
  λ c e. rw c (
      deferred w.thread.state w.thread.kill_pending w.thread.priority w.thread.wait_for
        w.thread.timer_ticket w.thread.reason w.queued w.armed (rw c at v) e),
)

pub is_corrupted : Result → Bool
is_corrupted (went w) = false
is_corrupted corrupted = true

abandoned :
    (st : State) (c k : Bool) (p f n : ℕ) (r : Reason) (a : Bool)
    → is_valid (world st c k p f n r true a) ≡ true
    → is_corrupted (perform abandon_all (world st c k p f n r true a)) ≡ true
unfolding is_valid is_corrupted perform apply set_state_from wake
abandoned st c k p f n r a v = ground arith

detached :
    (st : State) (c k : Bool) (p f n : ℕ) (r : Reason)
    → is_valid (world st c k p f n r true true) ≡ true
    → is_corrupted (perform fire (world st c k p f n r false true)) ≡ true
unfolding is_valid is_corrupted perform apply set_state_from wake
detached st c k p f n r v = ground arith

-- For a thread that is queued, with entries that agree with its state, two orders of events end in the
-- bugcheck of a corrupted queue. An object that goes while a thread waits
-- for it empties its queue first, and the thread then looks for itself there. And when the timer of a
-- waiting thread fires after `notify` has emptied the queue, before it reached the thread, so does it.
pub abandon_all-corrupted :
    (w : World)
    → is_valid w ≡ true
    → w.queued ≡ true
    → (is_corrupted (perform abandon_all w) ≡ true)
      × (w.armed ≡ true → is_corrupted (perform fire (record w { queued = false })) ≡ true)
abandon_all-corrupted w v q = (
  rw q (
      abandoned w.thread.state w.thread.in_critical w.thread.kill_pending w.thread.priority
        w.thread.wait_for w.thread.timer_ticket w.thread.reason w.armed (rw q at v)),
  λ a. rw a (
      detached w.thread.state w.thread.in_critical w.thread.kill_pending w.thread.priority
        w.thread.wait_for w.thread.timer_ticket w.thread.reason (rw a at (rw q at v))),
)
