-- ===== src/Dev/Timer/Step.antt =====
-- `basic_timer::wait` and `basic_timer::step` on the schedule of absolute deadlines.
use cofuos.Prelude.{
  ℕ, ◌+◌, ◌-◌, ◌/◌, ◌%◌, ◌^◌, Bool, true, List, [], ◌∷◌, map, ◌≡◌, refl, ltb, ◌&&◌, ◌==◌, not, max,
  if◌then◌else◌, arith, ◌∙◌,
}
use mathlib.Core.Path.{ap₂}
use native.Mathlib.Nat.{zero-add}
use cofuos.Prelude.Tickets.{contains, erase, contains-erase_ne}
use cofuos.Dev.Timer.{
  Entry, Timer, call_of, renew, new_entry, Drained, enqueue, wait, drain, requeue, step,
  heartbeat_us,
}
use cofuos.Dev.Timer.Deadlines.{
  deadlines, place, later, keep, due, Fresh, Distinct, deadlines-enqueue, calls-drain,
  deadlines-drain, keep-due_past,
}

abbrev pub is_periodic : Entry → Bool
is_periodic x = not (x.interval == 0)

-- The next deadlines of periodic entries that fired, last fired first: a deadline that the step
-- has passed too is moved to the end of the step.
abbrev pub renewals : ℕ → List Entry → List Entry → List Entry
renewals now done [] = done
renewals now done (x ∷ xs) =
    renewals now (record x { diff_tick = max (x.diff_tick + x.interval) now } ∷ done) xs

abbrev pub place_all : List Entry → List Entry → List Entry
place_all [] s = s
place_all (e ∷ es) s = place_all es (place e s)

deadlines-requeue :
    (base : ℕ) (es q : List Entry)
    → deadlines base (requeue es q) ≡ place_all (map (later base) es) (deadlines base q)
unfolding requeue
deadlines-requeue base [] q = refl
deadlines-requeue base (e ∷ es) q =
    ground (arith, deadlines-requeue base es (enqueue e q), deadlines-enqueue base e q)

keep-none :
    (now base : ℕ) (live : List ℕ) (q : List Entry) (p : Entry → Bool)
    → keep (due now live) (deadlines base q) ≡ []
    → keep (λ x. due now live x && p x) (deadlines base q) ≡ []
keep-none now base live [] p h = refl
keep-none now base live (x ∷ xs) p h = ground (arith, keep-none now (base + x.diff_tick) live xs p)

keep-periodic-erase :
    (now base t : ℕ) (live : List ℕ) (q : List Entry)
    → Fresh t q
    → keep (λ x. due now (erase t live) x && is_periodic x) (deadlines base q)
      ≡ keep (λ x. due now live x && is_periodic x) (deadlines base q)
keep-periodic-erase now base t live [] h = refl
keep-periodic-erase now base t live (x ∷ xs) h = ground (
  arith,
  keep-periodic-erase now (base + x.diff_tick) t live xs,
  contains-erase_ne t x.ticket live,
)

periodic-drain :
    (base count : ℕ) (live : List ℕ) (periodic q : List Entry)
    → Distinct q
    → map (later (base + count)) (drain count live periodic q).periodic
      ≡ renewals
          (base + count)
          (map (later (base + count)) periodic)
          (keep (λ x. due (base + count) live x && is_periodic x) (deadlines base q))
unfolding drain
periodic-drain base count live periodic [] d = refl
periodic-drain base count live periodic (x ∷ xs) d = ground (
  arith,
  keep-due_past (base + count) (base + x.diff_tick) live xs,
  keep-none (base + count) (base + x.diff_tick) live xs is_periodic,
  keep-periodic-erase (base + count) (base + x.diff_tick) x.ticket live xs,
  periodic-drain (base + x.diff_tick) (count - x.diff_tick) live periodic xs d.1,
  periodic-drain (base + x.diff_tick) (count - x.diff_tick) (erase x.ticket live) periodic xs d.1,
  periodic-drain (base + x.diff_tick) (count - x.diff_tick) live
      (renew (count - x.diff_tick) x ∷ periodic) xs d.1,
)

-- `wait` hands out the next ticket, and places the new entry at its deadline: us / 1000 ticks from
-- now, at least one. No other entry's deadline moves, and of equal deadlines the new one is first.
pub wait_lem :
    (us func arg : ℕ) (repeat : Bool) (t : Timer)
    → let (ticket, t') = wait us func arg repeat t in
      (ticket ≡ (t.conductor + 1) % 2 ^ 64)
      × (contains t'.live ticket ≡ true)
      × (deadlines 0 t'.delta_queue
          ≡ place
              (record {
                ticket = ticket;
                diff_tick = max (us / heartbeat_us) 1;
                func = func;
                arg = arg;
                interval = if repeat then max (us / heartbeat_us) 1 else 0;
              })
              (deadlines 0 t.delta_queue))
unfolding wait
wait_lem us func arg repeat t = (
  refl,
  ground arith,
  rw zero-add at (
      deadlines-enqueue 0 (new_entry ((t.conductor + 1) % 2 ^ 64) us func arg repeat)
        t.delta_queue),
)

-- `step count` on a queue whose tickets are distinct. It calls the live entries due within `count`
-- ticks, in the order of their deadlines, and only those. After it the queue holds, at unchanged
-- deadlines, what is due later, and the periodic entries among those called, at their next
-- deadlines.
pub step_lem :
    (count : ℕ) (t : Timer)
    → Distinct t.delta_queue
    → let (calls, t') = step count t in
      let s = deadlines 0 t.delta_queue in
      (calls ≡ map call_of (keep (due count t.live) s))
      × (deadlines count t'.delta_queue
          ≡ place_all
              (renewals count [] (keep (λ x. due count t.live x && is_periodic x) s))
              (keep (λ x. ltb count x.diff_tick) s))
unfolding step
step_lem count t d = (
  rw zero-add at (calls-drain 0 count t.live [] t.delta_queue d),
  deadlines-requeue count gone.periodic gone.queue
      ∙ ap₂ place_all (rw zero-add at (periodic-drain 0 count t.live [] t.delta_queue d))
          (rw zero-add at (deadlines-drain 0 count t.live [] t.delta_queue)),
)
  where
    gone : Drained
    gone = drain count t.live [] t.delta_queue
