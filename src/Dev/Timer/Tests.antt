-- ===== src/Dev/Timer/Tests.antt =====
-- Witnesses and tests.
use cofuos.Prelude.{◌≡◌, refl, true, ltb, ◌&&◌, [], ◌∷◌, map, arith}
use cofuos.Dev.Timer.{
  Entry, Call, Timer, Op, waits, cancels, ticks, seconds, wait, step, run, perform, call_of, cancel,
  heartbeat_us,
}
use cofuos.Dev.Timer.Deadlines.{deadlines, keep, due}
use cofuos.Dev.Timer.Step.{place_all, is_periodic, renewals, step_lem}
use cofuos.Dev.Timer.Cancel.{Silent, cancel-Silent}
use cofuos.Dev.Timer.Unique.{IsValid, run-init-IsValid, init}

-- Ticket 1 is due in 2 ticks and again every 3, ticket 2 in 5 ticks.
abbrev busy : Timer
busy = record {
  conductor = 2;
  live = 2 ∷ 1 ∷ [];
  delta_queue =
      record { ticket = 1; diff_tick = 2; func = 10; arg = 20; interval = 3 }
      ∷ record { ticket = 2; diff_tick = 3; func = 11; arg = 21; interval = 0 }
      ∷ [];
  beat_counter = 0;
  running_us = 0;
}

step_calls : map (λ (c : Call). c.ticket) (step 4 busy).0 ≡ 1 ∷ []
unfolding step cofuos.Dev.Timer.drain
step_calls = refl

step_again : map (λ (e : Entry). e.diff_tick) (step 4 busy).1.delta_queue ≡ 1 ∷ 0 ∷ []
unfolding step cofuos.Dev.Timer.requeue cofuos.Dev.Timer.drain cofuos.Dev.Timer.enqueue
step_again = refl

step_lem_example :
    let (calls, t') = step 4 busy in
    let s = deadlines 0 busy.delta_queue in
    (calls ≡ map call_of (keep (due 4 busy.live) s))
    × (deadlines 4 t'.delta_queue
        ≡ place_all
            (renewals 4 [] (keep (λ x. due 4 busy.live x && is_periodic x) s))
            (keep (λ x. ltb 4 x.diff_tick) s))
step_lem_example = step_lem 4 busy ((omega arith, tt), (tt, tt))

cancel-Silent_example :
    Silent 1 (run (ticks ∷ ticks ∷ waits 1000 10 20 true ∷ seconds ∷ []) (cancel 1 busy).1).0
cancel-Silent_example =
    cancel-Silent 1 (ticks ∷ ticks ∷ waits 1000 10 20 true ∷ seconds ∷ []) busy (omega arith)
      (omega arith)

run-init-IsValid_example :
    IsValid (run (waits 3000 1 2 true ∷ ticks ∷ cancels 1 ∷ seconds ∷ []) init).1
run-init-IsValid_example =
    run-init-IsValid (waits 3000 1 2 true ∷ ticks ∷ cancels 1 ∷ seconds ∷ []) (omega arith)
