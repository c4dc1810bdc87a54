-- ===== src/Sync/SpinLock.antt =====
-- kernel/sync/spin_lock.cpp. `state` is shared between processors: each read of it and each atomic
-- exchange is a step of its own, and what a function read before stands in an argument, `cur`.
pub mod Exclusion
mod Tests
use cofuos.Prelude.{ℕ, ◌+◌, ◌-◌, ◌^◌, Bool, true, false, ltb, ◌==◌, if◌then◌else◌}

abbrev pub x_value : ℕ
x_value = 2 ^ 31

pub data Mode : Type 0 where
  exclusive shared : Mode

-- `halt` is a bugcheck.
pub data Outcome : Type 0 where
  done : Bool → Outcome
  halt : Outcome

-- `cmpxchg(&state,value,expected)`: the new content, and whether it was exchanged.
abbrev pub cmpxchg : ℕ → ℕ → ℕ → Bool × ℕ
cmpxchg state value expected = if state == expected then (true, value) else (false, state)

-- `try_lock`, which has read `cur` (in shared mode) and meets `state` at its exchange.
pub try_lock : ℕ → Mode → ℕ → ℕ → Outcome × ℕ
try_lock s_limit exclusive cur state =
    let (got, state') = cmpxchg state x_value 0 in (done got, state')
try_lock s_limit shared cur state =
    let (got, state') = cmpxchg state (cur + 1) cur in
    if ltb cur x_value
    then (if ltb cur s_limit then (done got, state') else (halt, state))
    else (done false, state)

-- A round of `unlock`, which has read `cur`; `done false` goes round again.
pub unlock : ℕ → ℕ → Outcome × ℕ
unlock cur state =
    let (got, state') = cmpxchg state (cur - 1) cur in
    if cur == 0
    then (halt, state)
    else if ltb cur x_value
    then (done got, state')
    else (done true, 0)
