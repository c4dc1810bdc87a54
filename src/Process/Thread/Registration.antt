-- ===== src/Process/Thread/Registration.antt =====
-- A thread's entries in the queue of an object and in the timer's queue follow its state, as long as no event comes
-- that the kernel does not survive.
use cofuos.Prelude.{ℕ, Bool, true, false, ◌≡◌, arith}
use cofuos.Process.Thread.{
  State, ready, Reason, none, perform, enabled, apply, set_state_from, wake,
}
use cofuos.Process.Thread.Events.{
  Pending, idle, Live, Outcome, came, halted, Event, called, clear_queue, reach, expire, on_timer,
  happen, may_happen, is_registered, is_fatal,
}

-- The outcome is a state with that, and no bugcheck.
unfoldable pub is_survived : Outcome → Bool
is_survived (came v) = is_registered v
is_survived halted = false

unfoldable pub is_halted : Outcome → Bool
is_halted (came v) = false
is_halted halted = true

abbrev live : State → Bool → Bool → ℕ → ℕ → ℕ → Reason → Bool → Bool → Pending → ℕ → Live
live st c k p f n r q a w d = record {
  world = record {
    thread = record {
      state = st;
      in_critical = c;
      kill_pending = k;
      priority = p;
      wait_for = f;
      timer_ticket = n;
      reason = r;
    };
    queued = q;
    armed = a;
  };
  pending = w;
  due = d;
}

survived :
    (e : Event) (st : State) (c k : Bool) (p f n : ℕ) (r : Reason) (q a : Bool) (w : Pending)
    (d : ℕ)
    → is_registered (live st c k p f n r q a w d) ≡ true
    → may_happen e (live st c k p f n r q a w d) ≡ true
    → is_fatal e (live st c k p f n r q a w d) ≡ false
    → is_survived (happen e (live st c k p f n r q a w d)) ≡ true
unfolding is_registered may_happen is_survived happen is_fatal perform enabled apply set_state_from
    wake
survived (called op) st c k p f n r q a w d v m s = ground arith
survived (clear_queue s) st c k p f n r q a w d v m s' = ground arith
survived reach st c k p f n r q a w d v m s = ground arith
survived expire st c k p f n r q a w d v m s = ground arith
survived (on_timer b) st c k p f n r q a w d v m s = ground arith

pub happen-is_survived :
    (e : Event) (v : Live)
    → is_registered v ≡ true
    → may_happen e v ≡ true
    → is_fatal e v ≡ false
    → is_survived (happen e v) ≡ true
happen-is_survived e v i m =
    let t = v.world.thread in
    survived e t.state t.in_critical t.kill_pending t.priority t.wait_for t.timer_ticket t.reason
      v.world.queued v.world.armed v.pending v.due i m

abbrev pub fresh : ℕ → Live
fresh p = live ready false false p 0 0 none false false idle 0

-- The states that a new thread comes to.
pub data Reach (p : ℕ) : Live → Type 0 where
  begin : Reach p (fresh p)
  step :
      {v v' : Live} (e : Event)
      → Reach p v
      → may_happen e v ≡ true
      → happen e v ≡ came v'
      → Reach p v'
