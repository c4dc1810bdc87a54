-- ===== src/Sync/Pipe.antt =====
-- kernel/sync/pipe.cpp: a bounded byte pipe over a ring buffer.
-- The interrupt guard makes each operation atomic, so an operation is a function on the pipe. What
-- `is_owner` finds is an argument, and `notify` is a flag of the result.
pub mod Window
pub mod Fifo
mod Tests
use cofuos.Prelude.{
  ℕ, zero, suc, ◌+◌, ◌-◌, ◌/◌, ◌%◌, ◌^◌, Bool, true, false, List, [], ◌∷◌, get_or, set, length, ltb,
  ◌==◌, not, ◌&&◌, if◌then◌else◌,
}

pub record Pipe : Type 0 where
  pub mode : ℕ
  pub iostate : ℕ
  pub limit : ℕ
  pub buffer : List ℕ
  pub head : ℕ
  pub tail : ℕ

abbrev pub op_failure : ℕ
op_failure = 4

-- `mode & owner_write` and `mode & atomic_write`.
abbrev pub is_owner_write : Pipe → Bool
is_owner_write p = not (p.mode % 2 == 0)

abbrev pub is_atomic_write : Pipe → Bool
is_atomic_write p = not (p.mode / 0x10 % 2 == 0)

abbrev pub same : Bool → Bool → Bool
same true b = b
same false b = not b

unfoldable pub is_full : Pipe → Bool
is_full p = (p.tail + 1) % 2 ^ 32 % p.limit == p.head

unfoldable pub is_empty : Pipe → Bool
is_empty p = p.head == p.tail

-- `check`, which decides whether `wait` passes at once.
pub check : Bool → Pipe → Bool
check owner p = if same owner (is_owner_write p) then not (is_full p) else not (is_empty p)

-- `++head` or `++tail`, and back to 0 at the limit.
abbrev pub advance : ℕ → ℕ → ℕ
advance limit i = if i + 1 == limit then 0 else i + 1

-- The pipe after one round of each loop.
abbrev pub popped : Pipe → Pipe
popped p = record p { head = advance p.limit p.head }

abbrev pub pushed : ℕ → Pipe → Pipe
pushed b p = record p { buffer = set p.buffer p.tail b; tail = advance p.limit p.tail }

-- The loop of `read`, with the number of bytes still wanted.
pub read_loop : ℕ → Pipe → List ℕ × Pipe
read_loop zero p = ([], p)
read_loop (suc k) p =
    let (bytes, q) = read_loop k (popped p) in
    if is_empty p then ([], p) else (get_or p.buffer p.head 0 ∷ bytes, q)

-- The loop of `write`, with the bytes still to write; it returns how many it wrote.
pub write_loop : List ℕ → Pipe → ℕ × Pipe
write_loop [] p = (0, p)
write_loop (b ∷ bs) p =
    let (count, q) = write_loop bs (pushed b p) in if is_full p then (0, p) else (suc count, q)

-- What a transfer returns: the bytes read, or the count written, and whether waiters are notified.
pub record Reading : Type 0 where
  pub bytes : List ℕ
  pub notify : Bool
  pub after : Pipe

pub record Writing : Type 0 where
  pub count : ℕ
  pub notify : Bool
  pub after : Pipe

pub read : Bool → ℕ → Pipe → Reading
read owner wanted p =
    let p' = record p { iostate = 0 } in
    let (bytes, q) = read_loop wanted p' in
    if same owner (is_owner_write p)
    then record { bytes = []; notify = false; after = record p { iostate = op_failure } }
    else record { bytes = bytes; notify = not (length bytes == 0) && is_full p'; after = q }

-- The `available` of an atomic write, in 32-bit arithmetic.
pub available : Pipe → ℕ
available p = (p.head + p.limit + 2 ^ 32 - p.tail - 1) % 2 ^ 32 % p.limit

-- `write` behind its test of the caller; `p` has its `iostate` cleared.
pub write_permitted : List ℕ → Pipe → Writing
write_permitted bytes p =
    let (count, q) = write_loop bytes p in
    if is_atomic_write p && ltb (available p) (length bytes)
    then record { count = 0; notify = false; after = p }
    else record { count = count; notify = not (count == 0) && is_empty p; after = q }

pub write : Bool → List ℕ → Pipe → Writing
write owner bytes p =
    if same owner (is_owner_write p)
    then write_permitted bytes (record p { iostate = 0 })
    else record { count = 0; notify = false; after = record p { iostate = op_failure } }
