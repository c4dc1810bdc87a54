-- ===== src/Dev/Timer/Cancel.antt =====
-- Tickets of the timer: cancelled callbacks stay silent, and the queue's tickets stay distinct.
use cofuos.Prelude.{
  ℕ, ◌+◌, ◌-◌, ◌^◌, ◌≤◌, ◌<◌, false, List, [], ◌∷◌, ◌++◌, ◌≡◌, refl, ◌≢◌, arith, All, length,
  Bool-cases, inl, inr,
}
use cofuos.Prelude.Tickets.{contains, erase, contains-erase_self, contains-erase-false}
use cofuos.Dev.Timer.{
  Entry, Call, Timer, Op, waits, cancels, ticks, seconds, perform, run, renew, wait, cancel, drain,
  step, on_timer, on_second, beaten, adjust_tick, adjusted,
}

abbrev pub Silent : ℕ → List Call → Type 0
Silent u cs = All (λ (c : Call). c.ticket ≢ u) cs

Silent-append : (u : ℕ) (xs ys : List Call) → Silent u xs → Silent u ys → Silent u (xs ++ ys)
Silent-append u [] ys hx hy = hy
Silent-append u (x ∷ xs) ys hx hy = (hx.0, Silent-append u xs ys hx.1 hy)

-- Neither the ticket `u` is called, nor does it come to life again.
record Dead (u : ℕ) (calls : List Call) (live : List ℕ) : Type 0 where
  silent : Silent u calls
  dead : contains live u ≡ false

drain-Dead :
    (u count : ℕ) (live : List ℕ) (periodic q : List Entry)
    → contains live u ≡ false
    → Dead u (drain count live periodic q).calls (drain count live periodic q).live
unfolding drain
drain-Dead u count live periodic [] h = record { silent = tt; dead = h }
drain-Dead u count live periodic (x ∷ xs) h = ground (
  arith,
  contains-erase-false x.ticket u live,
  drain-Dead u (count - x.diff_tick) live periodic xs,
  drain-Dead u (count - x.diff_tick) (erase x.ticket live) periodic xs,
  drain-Dead u (count - x.diff_tick) live (renew (count - x.diff_tick) x ∷ periodic) xs,
)

step-Dead :
    (u count : ℕ) (t : Timer)
    → contains t.live u ≡ false
    → Dead u (step count t).0 (step count t).1.live
unfolding step
step-Dead u count t h = drain-Dead u count t.live [] t.delta_queue h

conductor-step : (count : ℕ) (t : Timer) → (step count t).1.conductor ≡ t.conductor
unfolding step
conductor-step count t = refl

-- One operation advances the ticket counter by one at most, and does not revive an old ticket.
perform-Dead :
    (u : ℕ) (op : Op) (t : Timer)
    → u ≤ t.conductor
    → t.conductor + 1 < 2 ^ 64
    → contains t.live u ≡ false
    → Dead u (perform op t).0 (perform op t).1.live
      × (u ≤ (perform op t).1.conductor)
      × ((perform op t).1.conductor ≤ t.conductor + 1)
unfolding perform wait cancel on_timer on_second
perform-Dead u (waits us func arg repeat) t low room h = ground arith
perform-Dead u (cancels ticket) t low room h = ground (arith, contains-erase-false ticket u t.live)
perform-Dead u ticks t low room h =
    ground (arith, step-Dead u 1 (beaten t) h, conductor-step 1 (beaten t))
perform-Dead u seconds t low room h =
    ground (
      arith,
      step-Dead u (adjust_tick t) (adjusted t) h,
      conductor-step (adjust_tick t) (adjusted t),
    )

run-Silent :
    (u : ℕ) (ops : List Op) (t : Timer)
    → u ≤ t.conductor
    → t.conductor + length ops < 2 ^ 64
    → contains t.live u ≡ false
    → Silent u (run ops t).0
unfolding run
run-Silent u [] t low room h = tt
run-Silent u (op ∷ ops) t low room h =
    Silent-append u (perform op t).0 (run ops (perform op t).1).0 now.0.silent
      (run-Silent u ops (perform op t).1 now.1 (omega (arith, now.2)) now.0.dead)
  where
    now :
        Dead u (perform op t).0 (perform op t).1.live
        × (u ≤ (perform op t).1.conductor)
        × ((perform op t).1.conductor ≤ t.conductor + 1)
    now = perform-Dead u op t low (omega arith) h

-- Once `cancel` has returned, the callback of the ticket is never called: not by any sequence of
-- waits, cancellations, ticks and seconds that does not wrap the 64-bit ticket counter.
pub cancel-Silent :
    (u : ℕ) (ops : List Op) (t : Timer)
    → u ≤ t.conductor
    → t.conductor + length ops < 2 ^ 64
    → Silent u (run ops (cancel u t).1).0
unfolding cancel
cancel-Silent u ops t low room = elim (Bool-cases (contains t.live u)) [
  | inl e ↦ rw e (
      run-Silent u ops (record t { live = erase u t.live }) low room (contains-erase_self u t.live))
  | inr e ↦ rw e (run-Silent u ops t low room e)
]
