-- ===== src/Container/LinkedList.antt =====
-- util/include/linked_list.hpp: `linked_list`. A node is the number of its address, 0 is the null pointer; the
-- links of all nodes are one store, which the lists share, and payloads are left out. `none` is a `THROW`.
-- Assertions that only restate the shape of the list are left out.
pub mod Segment
pub mod Relink
pub mod Runs
pub mod Refine
pub mod Insert
pub mod Operations
pub mod Ends
pub mod Frame
mod Tests
use cofuos.Prelude.{
  ℕ, zero, suc, ◌+◌, ◌-◌, ◌==◌, Bool, true, false, not, ◌&&◌, ◌||◌, if◌then◌else◌, Option, none,
  some, List, [], ◌∷◌,
}

pub record Links : Type 0 where
  pub next : ℕ → ℕ
  pub prev : ℕ → ℕ

-- `self` is the address of the list.
pub record LinkedList : Type 0 where
  pub self : ℕ
  pub head : ℕ
  pub tail : ℕ
  pub count : ℕ

pub record Iterator : Type 0 where
  pub owner : ℕ
  pub ptr : ℕ

pub record State : Type 0 where
  pub links : Links
  pub list : LinkedList

abbrev pub write : (ℕ → ℕ) → ℕ → ℕ → ℕ → ℕ
write f a v i = if i == a then v else f i

abbrev pub set_next : ℕ → ℕ → State → State
set_next a v s = record s { links = record s.links { next = write s.links.next a v } }

abbrev pub set_prev : ℕ → ℕ → State → State
set_prev a v s = record s { links = record s.links { prev = write s.links.prev a v } }

abbrev pub set_head : ℕ → State → State
set_head v s = record s { list = record s.list { head = v } }

abbrev pub set_tail : ℕ → State → State
set_tail v s = record s { list = record s.list { tail = v } }

abbrev pub set_count : ℕ → State → State
set_count n s = record s { list = record s.list { count = n } }

-- `if (a) a->next = v; else head = v;`
abbrev pub link_next : ℕ → ℕ → State → State
link_next a v s = if a == 0 then set_head v s else set_next a v s

-- `if (a) a->prev = v; else tail = v;`
abbrev pub link_prev : ℕ → ℕ → State → State
link_prev a v s = if a == 0 then set_tail v s else set_prev a v s

abbrev pub begin : State → Iterator
begin s = record { owner = s.list.self; ptr = s.list.head }

abbrev pub end : State → Iterator
end s = record { owner = s.list.self; ptr = 0 }

abbrev pub unlink : ℕ → State → State
unlink pos s =
    let before = s.links.prev pos in
    let after = s.links.next pos in
    set_count (s.list.count - 1) (link_prev after before (link_next before after s))

pub get_node : Iterator → State → Option (ℕ × State)
get_node it s =
    if not (it.owner == s.list.self) || (it.ptr == 0) then none else some (it.ptr, unlink it.ptr s)

abbrev pub put_before : ℕ → ℕ → State → State
put_before pos cur s =
    let before = s.links.prev pos in
    set_prev pos cur (link_next before cur (set_next cur pos (set_prev cur before s)))

abbrev pub put_last : ℕ → State → State
put_last cur s =
    let ended = set_next cur 0 s in
    if s.list.count == 0
    then set_tail cur (set_head cur (set_prev cur 0 ended))
    else set_tail cur (set_prev cur s.list.tail (set_next s.list.tail cur ended))

abbrev pub put_at : ℕ → ℕ → State → State
put_at pos cur s =
    set_count (s.list.count + 1) (if pos == 0 then put_last cur s else put_before pos cur s)

pub put_node : Iterator → ℕ → State → Option State
put_node it cur s = if it.owner == s.list.self then some (put_at it.ptr cur s) else none

-- `cur` is the node that `new` gives.
abbrev pub push_back : ℕ → State → Option State
push_back cur s = put_node (end s) cur s

abbrev pub push_front : ℕ → State → Option State
push_front cur s = put_node (begin s) cur s

pub pop_back : State → Option State
pop_back s =
    let before = s.links.prev s.list.tail in
    let popped =
      if before == 0 then set_tail 0 (set_head 0 s) else set_next before 0 (set_tail before s) in
    if s.list.count == 0 then none else some (set_count (s.list.count - 1) popped)

pub pop_front : State → Option State
pop_front s =
    let after = s.links.next s.list.head in
    let popped =
      if after == 0 then set_tail 0 (set_head 0 s) else set_prev after 0 (set_head after s) in
    if s.list.count == 0 then none else some (set_count (s.list.count - 1) popped)

abbrev pub turn : Option State → (State → Option State) → Option State
turn none rest = none
turn (some s) rest = rest s

-- `++` of an iterator.
pub step : Iterator → State → Option Iterator
step it s = if it.ptr == 0 then none else some (record it { ptr = s.links.next it.ptr })

-- `--` of an iterator of the list. At the first node it goes to the last one.
unfoldable pub step_back : Iterator → State → Option Iterator
step_back it s =
    let wrapped = if s.list.count == 0 then none else some (record it { ptr = s.list.tail }) in
    if not (it.ptr == 0) && not (s.links.prev it.ptr == 0)
    then some (record it { ptr = s.links.prev it.ptr })
    else wrapped

-- `while(count) pop_back();`, with at most so many turns.
abbrev pub clear : ℕ → State → Option State
clear zero s = if s.list.count == 0 then some s else none
clear (suc fuel) s = if s.list.count == 0 then some s else turn (pop_back s) (clear fuel)

-- The iterator to the next node, and the state without the node.
abbrev pub erased : ℕ → Option (ℕ × State) → Option (Iterator × State)
erased after none = none
erased after (some (cur, s)) = some (record { owner = s.list.self; ptr = after }, s)

pub erase : Iterator → State → Option (Iterator × State)
erase it s = erased (s.links.next it.ptr) (get_node it s)

-- `splice` of a node of `other` into `this`: the links are shared, the two lists are not the same one.
abbrev pub both : LinkedList → Option State → Option (LinkedList × State)
both other none = none
both other (some s) = some (other, s)

abbrev pub spliced : Iterator → LinkedList → Option (ℕ × State) → Option (LinkedList × State)
spliced pos this none = none
spliced pos this (some (cur, t)) =
    both t.list (put_node pos cur (record { links = t.links; list = this }))

pub splice : Iterator → Iterator → LinkedList → State → Option (LinkedList × State)
splice pos it other s =
    if not (pos.owner == s.list.self) || (not (it.owner == other.self) || (it.ptr == 0))
    then none
    else spliced pos s.list (get_node it (record { links = s.links; list = other }))
