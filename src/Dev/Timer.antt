-- ===== src/Dev/Timer.antt =====
-- kernel/dev/timer.cpp and timer.hpp: the delta queue of `basic_timer`.
-- `record`, a hash_set of tickets, is the list of its elements; a callback is a number `func`,
-- and calling it is an event in the trace that `step` returns. The assertion of `step` that its
-- count is not 0 is left out.
pub mod Deadlines
pub mod Step
pub mod Cancel
pub mod Unique
mod Tests
use cofuos.Prelude.{
  ℕ, zero, suc, ◌+◌, ◌-◌, ◌*◌, ◌/◌, ◌%◌, ◌^◌, Bool, true, false, List, [], ◌∷◌, ◌++◌, ltb, leb,
  ◌==◌, max, if◌then◌else◌,
}
use cofuos.Prelude.Tickets.{contains, erase}

-- `queue_type`
pub record Entry : Type 0 where
  pub ticket : ℕ
  pub diff_tick : ℕ
  pub func : ℕ
  pub arg : ℕ
  pub interval : ℕ

-- A call `cur.func(cur.ticket,cur.arg)`.
pub record Call : Type 0 where
  pub func : ℕ
  pub ticket : ℕ
  pub arg : ℕ

pub record Timer : Type 0 where
  pub conductor : ℕ
  pub live : List ℕ
  pub delta_queue : List Entry
  pub beat_counter : ℕ
  pub running_us : ℕ

abbrev pub heartbeat_us : ℕ
heartbeat_us = 1000

abbrev pub heartbeat_hz : ℕ
heartbeat_hz = 1000 * 1000 / heartbeat_us

-- The walk along the queue that `wait` and the second loop of `step` make.
pub enqueue : Entry → List Entry → List Entry
enqueue e [] = e ∷ []
enqueue e (x ∷ xs) =
    if leb e.diff_tick x.diff_tick
    then e ∷ record x { diff_tick = x.diff_tick - e.diff_tick } ∷ xs
    else x ∷ enqueue (record e { diff_tick = e.diff_tick - x.diff_tick }) xs

-- The entry that `wait` makes, due in `us / 1000` ticks and at least one.
abbrev pub new_entry : ℕ → ℕ → ℕ → ℕ → Bool → Entry
new_entry ticket us func arg repeat =
    let total_tick = max (us / heartbeat_us) 1 in
    record {
      ticket = ticket;
      diff_tick = total_tick;
      func = func;
      arg = arg;
      interval = if repeat then total_tick else 0;
    }

pub wait : ℕ → ℕ → ℕ → Bool → Timer → ℕ × Timer
wait us func arg repeat t =
    let ticket = (t.conductor + 1) % 2 ^ 64 in
    (
      ticket,
      record t {
        conductor = ticket;
        live = ticket ∷ t.live;
        delta_queue = enqueue (new_entry ticket us func arg repeat) t.delta_queue;
      },
    )

pub cancel : ℕ → Timer → Bool × Timer
cancel ticket t =
    if contains t.live ticket then (true, record t { live = erase ticket t.live }) else (false, t)

-- What the first loop of `step` leaves: the calls made, the queue, the tickets, `periodic_list`.
pub record Drained : Type 0 where
  pub calls : List Call
  pub queue : List Entry
  pub live : List ℕ
  pub periodic : List Entry

abbrev pub call_of : Entry → Call
call_of e = record { func = e.func; ticket = e.ticket; arg = e.arg }

-- A periodic entry, to be queued again when `left` ticks of the step are left.
abbrev pub renew : ℕ → Entry → Entry
renew left x = record x { diff_tick = if ltb left x.interval then x.interval - left else 0 }

-- The first loop of `step`; `count` is what is left of its argument.
pub drain : ℕ → List ℕ → List Entry → List Entry → Drained
drain count live periodic [] = record { calls = []; queue = []; live = live; periodic = periodic }
drain count live periodic (x ∷ xs) =
    let left = count - x.diff_tick in
    let found = contains live x.ticket in
    let once = x.interval == 0 in
    let gone = drain left live periodic xs in
    let fired_once = drain left (erase x.ticket live) periodic xs in
    let fired_again = drain left live (renew left x ∷ periodic) xs in
    if ltb count x.diff_tick
    then record {
      calls = [];
      queue = record x { diff_tick = x.diff_tick - count } ∷ xs;
      live = live;
      periodic = periodic;
    }
    else if found
    then (if once
        then record fired_once { calls = call_of x ∷ fired_once.calls }
        else record fired_again { calls = call_of x ∷ fired_again.calls })
    else gone

-- The second loop of `step`.
pub requeue : List Entry → List Entry → List Entry
requeue [] queue = queue
requeue (e ∷ es) queue = requeue es (enqueue e queue)

pub step : ℕ → Timer → List Call × Timer
step count t =
    let d = drain count t.live [] t.delta_queue in
    (d.calls, record t { live = d.live; delta_queue = requeue d.periodic d.queue })

-- The timer as `on_timer` hands it to `step`.
abbrev pub beaten : Timer → Timer
beaten t = record t {
  beat_counter = (t.beat_counter + 1) % 2 ^ 32;
  running_us = (t.running_us + heartbeat_us) % 2 ^ 64;
}

pub on_timer : Timer → List Call × Timer
on_timer t = step 1 (beaten t)

abbrev pub adjust_tick : Timer → ℕ
adjust_tick t = if ltb t.beat_counter heartbeat_hz then heartbeat_hz - t.beat_counter else 0

-- The timer as `on_second` hands it to `step`.
abbrev pub adjusted : Timer → Timer
adjusted t = record t {
  beat_counter = 0;
  running_us = (t.running_us + heartbeat_us * adjust_tick t) % 2 ^ 64;
}

pub on_second : Timer → List Call × Timer
on_second t = if adjust_tick t == 0 then ([], adjusted t) else step (adjust_tick t) (adjusted t)

-- Every call in the interface of the timer, and the interrupt handlers that drive it.
pub data Op : Type 0 where
  waits : ℕ → ℕ → ℕ → Bool → Op
  cancels : ℕ → Op
  ticks : Op
  seconds : Op

pub perform : Op → Timer → List Call × Timer
perform (waits us func arg repeat) t = ([], (wait us func arg repeat t).1)
perform (cancels ticket) t = ([], (cancel ticket t).1)
perform ticks t = on_timer t
perform seconds t = on_second t

pub run : List Op → Timer → List Call × Timer
run [] t = ([], t)
run (op ∷ ops) t =
    let (calls, t') = perform op t in let (more, t'') = run ops t' in (calls ++ more, t'')
