-- ===== src/Dev/Timer/Unique.antt =====
-- The tickets in the delta queue are distinct, and none is above the counter, after any operations.
use cofuos.Prelude.{
  ℕ, ◌+◌, ◌-◌, ◌^◌, ◌≤◌, ◌<◌, List, [], ◌∷◌, ◌≡◌, refl, ◌≢◌, arith, length, sym, ◌∙◌,
}
use native.Mathlib.Nat.{mod-eq_of_lt}
use cofuos.Prelude.Tickets.{erase}
use cofuos.Dev.Timer.{
  Entry, Timer, Op, waits, cancels, ticks, seconds, perform, run, renew, new_entry, Drained,
  enqueue, wait, cancel, drain, requeue, step, on_timer, on_second, beaten, adjust_tick, adjusted,
}
use cofuos.Dev.Timer.Deadlines.{Fresh, Distinct}

abbrev Below : ℕ → List Entry → Type 0
Below n [] = Unit
Below n (x ∷ xs) = (x.ticket ≤ n) × Below n xs

abbrev Apart : List Entry → List Entry → Type 0
Apart [] q = Unit
Apart (e ∷ es) q = Fresh e.ticket q × Apart es q

-- Two lists whose tickets are distinct within each and between them, and not above `n`.
record IsSplit (n : ℕ) (es q : List Entry) : Type 0 where
  left : Distinct es
  right : Distinct q
  apart : Apart es q
  low_left : Below n es
  low_right : Below n q

Fresh-enqueue :
    (t : ℕ) (e : Entry) (q : List Entry) → e.ticket ≢ t → Fresh t q → Fresh t (enqueue e q)
unfolding enqueue
Fresh-enqueue t e [] h f = (h, tt)
Fresh-enqueue t e (x ∷ xs) h f =
    ground (arith, Fresh-enqueue t (record e { diff_tick = e.diff_tick - x.diff_tick }) xs h f.1)

Distinct-enqueue :
    (e : Entry) (q : List Entry) → Fresh e.ticket q → Distinct q → Distinct (enqueue e q)
unfolding enqueue
Distinct-enqueue e [] f d = (tt, tt)
Distinct-enqueue e (x ∷ xs) f d = ground (
  arith,
  Distinct-enqueue (record e { diff_tick = e.diff_tick - x.diff_tick }) xs f.1 d.1,
  Fresh-enqueue x.ticket (record e { diff_tick = e.diff_tick - x.diff_tick }) xs (λ p. f.0 (sym p))
      d.0,
)

Below-enqueue :
    (n : ℕ) (e : Entry) (q : List Entry) → e.ticket ≤ n → Below n q → Below n (enqueue e q)
unfolding enqueue
Below-enqueue n e [] h b = (h, tt)
Below-enqueue n e (x ∷ xs) h b =
    ground (arith, Below-enqueue n (record e { diff_tick = e.diff_tick - x.diff_tick }) xs h b.1)

Apart-enqueue :
    (e : Entry) (es q : List Entry) → Fresh e.ticket es → Apart es q → Apart es (enqueue e q)
Apart-enqueue e [] q f a = tt
Apart-enqueue e (x ∷ es) q f a =
    (Fresh-enqueue x.ticket e q (λ p. f.0 (sym p)) a.0, Apart-enqueue e es q f.1 a.1)

requeue-Distinct :
    (n : ℕ) (es q : List Entry) → IsSplit n es q → Distinct (requeue es q) × Below n (requeue es q)
unfolding requeue
requeue-Distinct n [] q s = (s.right, s.low_right)
requeue-Distinct n (e ∷ es) q s = requeue-Distinct n es (enqueue e q) (record {
  left = s.left.1;
  right = Distinct-enqueue e q s.apart.0 s.right;
  apart = Apart-enqueue e es q s.left.0 s.apart.1;
  low_left = s.low_left.1;
  low_right = Below-enqueue n e q s.low_left.0 s.low_right;
})

Apart-tail : (x : Entry) (es q : List Entry) → Apart es (x ∷ q) → Apart es q
Apart-tail x [] q a = tt
Apart-tail x (e ∷ es) q a = (a.0.1, Apart-tail x es q a.1)

Apart-head : (x : Entry) (es q : List Entry) → Apart es (x ∷ q) → Fresh x.ticket es
Apart-head x [] q a = tt
Apart-head x (e ∷ es) q a = (λ p. a.0.0 (sym p), Apart-head x es q a.1)

Apart-swap :
    (x y : Entry) (es q : List Entry) → x.ticket ≡ y.ticket → Apart es (x ∷ q) → Apart es (y ∷ q)
Apart-swap x y [] q e a = tt
Apart-swap x y (z ∷ es) q e a = ((λ p. a.0.0 (e ∙ p), a.0.1), Apart-swap x y es q e a.1)

drain-IsSplit :
    (n count : ℕ) (live : List ℕ) (es q : List Entry)
    → IsSplit n es q
    → IsSplit n (drain count live es q).periodic (drain count live es q).queue
unfolding drain
drain-IsSplit n count live es [] s = s
drain-IsSplit n count live es (x ∷ xs) s = ground (
  arith,
  Apart-swap x (record x { diff_tick = x.diff_tick - count }) es xs refl s.apart,
  drain-IsSplit n (count - x.diff_tick) live es xs gone,
  drain-IsSplit n (count - x.diff_tick) (erase x.ticket live) es xs gone,
  drain-IsSplit n (count - x.diff_tick) live (renew (count - x.diff_tick) x ∷ es) xs again,
)
  where
    gone : IsSplit n es xs
    gone = record {
      left = s.left;
      right = s.right.1;
      apart = Apart-tail x es xs s.apart;
      low_left = s.low_left;
      low_right = s.low_right.1;
    }

    again : IsSplit n (renew (count - x.diff_tick) x ∷ es) xs
    again = record {
      left = (Apart-head x es xs s.apart, s.left);
      right = s.right.1;
      apart = (s.right.0, Apart-tail x es xs s.apart);
      low_left = (s.low_right.0, s.low_left);
      low_right = s.low_right.1;
    }

pub record IsValid (t : Timer) : Type 0 where
  pub distinct : Distinct t.delta_queue
  pub below : Below t.conductor t.delta_queue

step-IsValid : (count : ℕ) (t : Timer) → IsValid t → IsValid (step count t).1
unfolding step
step-IsValid count t v = record { distinct = out.0; below = out.1 }
  where
    d : Drained
    d = drain count t.live [] t.delta_queue

    out : Distinct (requeue d.periodic d.queue) × Below t.conductor (requeue d.periodic d.queue)
    out = requeue-Distinct t.conductor d.periodic d.queue (
        drain-IsSplit t.conductor count t.live [] t.delta_queue (record {
          left = tt;
          right = v.distinct;
          apart = tt;
          low_left = tt;
          low_right = v.below;
        }))

Below-Fresh : (n : ℕ) (q : List Entry) → Below n q → Fresh (n + 1) q
Below-Fresh n [] b = tt
Below-Fresh n (x ∷ xs) b = (omega arith, Below-Fresh n xs b.1)

Below-suc : (n : ℕ) (q : List Entry) → Below n q → Below (n + 1) q
Below-suc n [] b = tt
Below-suc n (x ∷ xs) b = (omega arith, Below-suc n xs b.1)

-- Every operation keeps the tickets of the queue distinct, until the ticket counter wraps.
pub perform-IsValid :
    (op : Op) (t : Timer) → t.conductor + 1 < 2 ^ 64 → IsValid t → IsValid (perform op t).1
unfolding perform wait cancel on_timer on_second
perform-IsValid (waits us func arg repeat) t room v = rw (mod-eq_of_lt room) (record {
  distinct =
      Distinct-enqueue e t.delta_queue (Below-Fresh t.conductor t.delta_queue v.below) v.distinct;
  below =
      Below-enqueue (t.conductor + 1) e t.delta_queue (omega arith)
        (Below-suc t.conductor t.delta_queue v.below);
})
  where
    e : Entry
    e = new_entry (t.conductor + 1) us func arg repeat
perform-IsValid (cancels ticket) t room v = ground arith
perform-IsValid ticks t room v =
    step-IsValid 1 (beaten t) (record { distinct = v.distinct; below = v.below })
perform-IsValid seconds t room v = ground (
  arith,
  step-IsValid (adjust_tick t) (adjusted t) (record { distinct = v.distinct; below = v.below }),
)

abbrev pub init : Timer
init = record { conductor = 0; live = []; delta_queue = []; beat_counter = 0; running_us = 0 }

conductor-perform :
    (op : Op) (t : Timer) → t.conductor + 1 < 2 ^ 64 → (perform op t).1.conductor ≤ t.conductor + 1
unfolding perform wait cancel on_timer on_second step
conductor-perform (waits us func arg repeat) t room = omega arith
conductor-perform (cancels ticket) t room = ground arith
conductor-perform ticks t room = omega arith
conductor-perform seconds t room = ground arith

run-IsValid :
    (ops : List Op) (t : Timer)
    → t.conductor + length ops < 2 ^ 64
    → IsValid t
    → IsValid (run ops t).1
unfolding run
run-IsValid [] t room v = v
run-IsValid (op ∷ ops) t room v =
    run-IsValid ops (perform op t).1 (omega (arith, conductor-perform op t (omega arith)))
      (perform-IsValid op t (omega arith) v)

-- After any operations on a new timer, fewer than 2 ^ 64, the tickets of the queue are distinct,
-- and none is above the ticket counter.
pub run-init-IsValid : (ops : List Op) → length ops < 2 ^ 64 → IsValid (run ops init).1
run-init-IsValid ops h = run-IsValid ops init (omega arith) (record { distinct = tt; below = tt })
