-- ===== src/Process/Thread/Tests.antt =====
-- Witnesses and tests.
use cofuos.Prelude.{◌≡◌, refl, true, false}
use cofuos.Process.Thread.{
  waiting, running, none, notify, World, kill_it, fire, abandon_all, perform, is_valid,
}
use cofuos.Process.Thread.Events.{Live, idle, reaching, called, is_fatal}
use cofuos.Process.Thread.Stop.{is_corrupted, abandon_all-corrupted}

-- A thread that waits for the object 50, with the timer's ticket 3.
abbrev waiter : World
waiter = record {
  thread = record {
    state = waiting;
    in_critical = false;
    kill_pending = false;
    priority = 4;
    wait_for = 50;
    timer_ticket = 3;
    reason = none;
  };
  queued = true;
  armed = true;
}

abbrev runner : World
runner = record waiter {
  thread = record (waiter.thread) { state = running; wait_for = 0; timer_ticket = 0 };
  queued = false;
  armed = false;
}

abbrev live_waiter : Live
live_waiter = record { world = waiter; pending = idle; due = 0 }

-- The object has taken the thread out of its queue, and not yet reached it.
abbrev notified : Live
notified = record { world = record waiter { queued = false }; pending = reaching notify; due = 0 }

test_kill : is_fatal (called kill_it) notified ≡ true
unfolding is_fatal
test_kill = refl

abandon_all-corrupted_example :
    (is_corrupted (perform abandon_all waiter) ≡ true)
    × (true ≡ true → is_corrupted (perform fire (record waiter { queued = false })) ≡ true)
unfolding is_valid
abandon_all-corrupted_example = abandon_all-corrupted waiter refl refl
