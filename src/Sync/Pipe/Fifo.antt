-- ===== src/Sync/Pipe/Fifo.antt =====
-- `pipe::read` and `pipe::write` against a first-in first-out queue of `limit - 1` bytes.
use cofuos.Prelude.{
  ℕ, zero, suc, ◌+◌, ◌-◌, ◌%◌, ◌^◌, ◌≤◌, ◌<◌, min, Bool, true, false, List, [], ◌∷◌, ◌++◌, ◌≡◌,
  refl, sym, ◌≢◌, ap, length, length-set, get_or, take, drop, leb, ltb, ◌==◌, not, ◌&&◌,
  if◌then◌else◌, arith, Bool-cases, inl, inr, ltb→lt, ◌∙◌,
}
use mathlib.Core.List.{append-nil, append_assoc}
use native.Mathlib.Nat.{mod-eq_of_lt, mod-eq-sub-mod}
use cofuos.Sync.Pipe.{
  Pipe, popped, pushed, is_full, is_empty, is_owner_write, is_atomic_write, same, read_loop,
  write_loop, write_permitted, available, read, write, op_failure,
}
use cofuos.Sync.Pipe.Window.{window, length-window, window-set}

pub record IsValid (p : Pipe) : Type 0 where
  pub storage : p.limit ≤ length p.buffer
  pub small : p.limit ≤ 2 ^ 31
  pub head_in : p.head < p.limit
  pub tail_in : p.tail < p.limit

-- How many bytes stand between the head and the tail.
abbrev pub used : Pipe → ℕ
used p = if leb p.head p.tail then p.tail - p.head else p.tail + p.limit - p.head

pub contents : Pipe → List ℕ
contents p = window p.buffer p.limit p.head (used p)

mod_once : (a n : ℕ) → a < n + n → a % n ≡ (if ltb a n then a else a - n)
mod_once a n h = elim (Bool-cases (ltb a n)) [
  | inl e ↦ rw e (mod-eq_of_lt (ltb→lt a n e))
  | inr e ↦
      let low : n ≤ a = ground arith in
      rw e (mod-eq-sub-mod low ∙ mod-eq_of_lt {n = a - n} {m = n} (omega arith))
]

-- A pipe is full when it holds `limit - 1` bytes, and empty when it holds none.
pub is_full_iff : (p : Pipe) → IsValid p → is_full p ≡ (used p + 1 == p.limit)
unfolding is_full
is_full_iff p v =
    let e : (p.tail + 1) % 2 ^ 32 ≡ p.tail + 1 = omega arith in
    rw e (ground (arith, mod_once (p.tail + 1) p.limit (omega arith)))

pub is_empty_iff : (p : Pipe) → IsValid p → is_empty p ≡ (used p == 0)
unfolding is_empty
is_empty_iff p v = ground arith

available_lem : (p : Pipe) → IsValid p → available p ≡ p.limit - 1 - used p
unfolding available
available_lem p v =
    let e : (p.head + p.limit + 2 ^ 32 - p.tail - 1) % 2 ^ 32 ≡ p.head + p.limit - p.tail - 1 =
      omega arith in
    rw e (ground (arith, mod_once (p.head + p.limit - p.tail - 1) p.limit (omega arith)))

popped-IsValid : (p : Pipe) → IsValid p → IsValid (popped p)
popped-IsValid p v = ground arith

contents-popped :
    (p : Pipe)
    → IsValid p
    → is_empty p ≡ false
    → contents p ≡ get_or p.buffer p.head 0 ∷ contents (popped p)
unfolding contents
contents-popped p v e = rw more (ap (λ n. window p.buffer p.limit p.head (suc n)) less)
  where
    busy : used p ≢ 0
    busy = ground (arith, is_empty_iff p v)

    more : used p ≡ suc (used p - 1)
    more = omega (arith, busy)

    less : used p - 1 ≡ used (popped p)
    less = ground (arith, busy)

contents-empty : (p : Pipe) → IsValid p → is_empty p ≡ true → contents p ≡ []
unfolding contents
contents-empty p v e = let none_used : used p ≡ 0 = ground (arith, is_empty_iff p v) in rw none_used

pushed-IsValid : (b : ℕ) (p : Pipe) → IsValid p → IsValid (pushed b p)
pushed-IsValid b p v = ground (arith, length-set p.buffer p.tail b)

used-pushed : (b : ℕ) (p : Pipe) → IsValid p → is_full p ≡ false → used (pushed b p) ≡ suc (used p)
used-pushed b p v e = ground (arith, is_full_iff p v)

contents-pushed :
    (b : ℕ) (p : Pipe)
    → IsValid p
    → is_full p ≡ false
    → contents (pushed b p) ≡ contents p ++ (b ∷ [])
unfolding contents
contents-pushed b p v e = rw (used-pushed b p v e) (
    window-set p.buffer p.limit b (used p) p.head p.tail v.storage v.head_in (ground arith)
      (ground arith))

-- The loop of `read` takes bytes from the front, as many as are wanted and there.
read_loop_lem :
    (k : ℕ) (p : Pipe)
    → IsValid p
    → let (bytes, q) = read_loop k p in
      (bytes ≡ take k (contents p)) × (contents q ≡ drop k (contents p)) × IsValid q
unfolding read_loop
read_loop_lem zero p v = (refl, refl, v)
read_loop_lem (suc k) p v = elim (Bool-cases (is_empty p)) [
  | inl e ↦ rw (e, contents-empty p v e) (refl, refl, v)
  | inr e ↦
      let (bytes, rest, valid) = read_loop_lem k (popped p) (popped-IsValid p v) in
      rw (e, contents-popped p v e) (rw bytes, rest, valid)
]

-- The loop of `write` appends bytes at the back, as many as there is room for.
write_loop_lem :
    (bytes : List ℕ) (p : Pipe)
    → IsValid p
    → let (count, q) = write_loop bytes p in
      (count ≡ min (length bytes) (p.limit - 1 - used p))
      × (contents q ≡ contents p ++ take count bytes)
      × IsValid q
unfolding write_loop
write_loop_lem [] p v = (omega arith, rw append-nil, v)
write_loop_lem (b ∷ bytes) p v = elim (Bool-cases (is_full p)) [
  | inl e ↦ rw e (ground (arith, is_full_iff p v), rw append-nil, v)
  | inr e ↦
      let (count, all, valid) = write_loop_lem bytes (pushed b p) (pushed-IsValid b p v) in
      rw e (
        ground (arith, count, used-pushed b p v e, is_full_iff p v),
        all ∙ rw (contents-pushed b p v e) (append_assoc (contents p) (b ∷ []) _),
        valid,
      )
]

length-contents : (p : Pipe) → length (contents p) ≡ used p
unfolding contents
length-contents p = length-window p.buffer p.limit p.head (used p)

abbrev cleared : Pipe → ℕ → Pipe
cleared p state = record p { iostate = state }

cleared-IsValid : (p : Pipe) (state : ℕ) → IsValid p → IsValid (cleared p state)
cleared-IsValid p state v = omega arith

contents-cleared : (p : Pipe) (state : ℕ) → contents (cleared p state) ≡ contents p
unfolding contents
contents-cleared p state = refl

iostate-read_loop : (k : ℕ) (p : Pipe) → (read_loop k p).1.iostate ≡ p.iostate
unfolding read_loop
iostate-read_loop zero p = refl
iostate-read_loop (suc k) p = ground (arith, iostate-read_loop k (popped p))

iostate-write_loop : (bytes : List ℕ) (p : Pipe) → (write_loop bytes p).1.iostate ≡ p.iostate
unfolding write_loop
iostate-write_loop [] p = refl
iostate-write_loop (b ∷ bytes) p = ground (arith, iostate-write_loop bytes (pushed b p))

-- A read from the reading end of a valid pipe takes the oldest bytes, as many as are wanted and
-- there, and leaves the others in order. It notifies exactly if it took a byte from a full pipe.
-- From the writing end it takes nothing and reports the failure.
pub read_lem :
    (owner : Bool) (wanted : ℕ) (p : Pipe)
    → IsValid p
    → let r = read owner wanted p in
      let allowed = not (same owner (is_owner_write p)) in
      (r.bytes ≡ (if allowed then take wanted (contents p) else []))
      × (contents r.after ≡ (if allowed then drop wanted (contents p) else contents p))
      × (r.notify ≡ (not (length r.bytes == 0) && (length (contents p) + 1 == p.limit)))
      × (r.after.iostate ≡ (if allowed then 0 else op_failure))
      × IsValid r.after
unfolding read
read_lem owner wanted p v = elim (Bool-cases (same owner (is_owner_write p))) [
  | inl e ↦ rw e (refl, contents-cleared p op_failure, refl, refl, cleared-IsValid p op_failure v)
  | inr e ↦
      let (bytes, rest, valid) = read_loop_lem wanted (cleared p 0) (cleared-IsValid p 0 v) in
      let old = contents-cleared p 0 in
      rw e (
        rw old at bytes,
        rw old at rest,
        ground (arith, is_full_iff (cleared p 0) (cleared-IsValid p 0 v), length-contents p),
        iostate-read_loop wanted (cleared p 0),
        valid,
      )
]

-- How many of `n` bytes a write takes: none without permission, none if an atomic write does not
-- fit whole, and else as many as fit.
abbrev pub accepted : Bool → ℕ → Pipe → ℕ
accepted owner n p =
    let room = p.limit - 1 - length (contents p) in
    if same owner (is_owner_write p)
    then (if is_atomic_write p && ltb room n then 0 else min n room)
    else 0

write_permitted_lem :
    (bytes : List ℕ) (p : Pipe)
    → IsValid p
    → let w = write_permitted bytes p in
      let room = p.limit - 1 - length (contents p) in
      (w.count
        ≡ (if is_atomic_write p && ltb room (length bytes) then 0 else min (length bytes) room))
      × (contents w.after ≡ contents p ++ take w.count bytes)
      × (w.notify ≡ (not (w.count == 0) && (length (contents p) == 0)))
      × (w.after.iostate ≡ p.iostate)
      × IsValid w.after
unfolding write_permitted
write_permitted_lem bytes p v =
    let (count, all, valid) = write_loop_lem bytes p v in
    let room = available_lem p v in
    let n = length-contents p in
    let m = is_empty_iff p v in
    elim (Bool-cases (is_atomic_write p && ltb (available p) (length bytes))) [
      | inl f ↦ rw f (rw (n, ← room, f), sym (append-nil (contents p)), refl, refl, v)
      | inr f ↦
          rw f (rw (n, ← room, f, room) count, all, rw (n, m), iostate-write_loop bytes p, valid)
    ]

-- A write to a valid pipe appends the first of its bytes in order, as many as it accepts, which is
-- all or none for an atomic pipe. It notifies exactly if it put a byte in an empty pipe. From the
-- reading end it reports the failure.
pub write_lem :
    (owner : Bool) (bytes : List ℕ) (p : Pipe)
    → IsValid p
    → let w = write owner bytes p in
      (w.count ≡ accepted owner (length bytes) p)
      × (contents w.after ≡ contents p ++ take w.count bytes)
      × (w.notify ≡ (not (w.count == 0) && (length (contents p) == 0)))
      × (w.after.iostate ≡ (if same owner (is_owner_write p) then 0 else op_failure))
      × IsValid w.after
unfolding write
write_lem owner bytes p v =
    let (count, all, bell, state, valid) =
      write_permitted_lem bytes (cleared p 0) (cleared-IsValid p 0 v) in
    let old = contents-cleared p 0 in
    elim (Bool-cases (same owner (is_owner_write p))) [
      | inr e ↦ rw e (
        refl,
        contents-cleared p op_failure ∙ sym (append-nil (contents p)),
        refl,
        refl,
        cleared-IsValid p op_failure v,
      )
      | inl e ↦ rw e (rw old at count, rw old at all, rw old at bell, state, valid)
    ]
