-- ===== src/Process/Queue.antt =====
-- kernel/process/waitable.cpp: `thread_queue`, and `waitable::cancel` on it. A thread is the number of its
-- address, 0 is the null pointer; `next` of every thread is the store. The lock of the owner of the queue
-- makes each operation atomic. The assertions that only restate the shape of the queue are left out.
pub mod Chain
pub mod Refine
mod Tests
use cofuos.Prelude.{
  ℕ, zero, suc, ◌==◌, Bool, true, false, not, if◌then◌else◌, Option, none, some, List, [], ◌∷◌,
}

abbrev pub Next : Type 0
Next = ℕ → ℕ

abbrev pub set_next : Next → ℕ → ℕ → Next
set_next next th v i = if i == th then v else next i

pub record ThreadQueue : Type 0 where
  pub head : ℕ
  pub tail : ℕ

abbrev pub empty : ThreadQueue → Bool
empty q = q.head == 0

pub put : ℕ → Next → ThreadQueue → Next × ThreadQueue
put th next q =
    let next' = set_next next th 0 in
    if q.tail == 0
    then (next', record { head = th; tail = th })
    else (set_next next' q.tail th, record q { tail = th })

-- The thread that is taken, 0 for none.
pub get : Next → ThreadQueue → ℕ × Next × ThreadQueue
get next q = if q.head == 0 then (0, next, q) else (
  q.head,
  set_next next q.head 0,
  record { head = next q.head; tail = if next q.head == 0 then 0 else q.tail },
)

-- The loop of `cancel`: the thread before `th`, 0 for none.
pub find_prev : ℕ → Next → ℕ → ℕ → ℕ
find_prev zero next prev th = prev
find_prev (suc fuel) next prev th =
    let rest = find_prev fuel next (next prev) th in
    if prev == 0 then 0 else (if next prev == th then prev else rest)

-- `none` is the bugcheck of a corrupted queue. `fuel` is the length of the queue or more.
pub cancel : ℕ → ℕ → Next → ThreadQueue → Option (Next × ThreadQueue)
cancel fuel th next q =
    let prev = find_prev fuel next q.head th in
    if q.head == th
    then some ((get next q).1, (get next q).2)
    else (if prev == 0
        then none
        else (if next th == 0
            then some (set_next next prev 0, record q { tail = prev })
            else some (set_next next prev (next th), q)))
