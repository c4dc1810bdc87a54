-- ===== src/Memory/Vm/Insert.antt =====
-- kernel/memory/vm.cpp: `virtual_space::insert`. A block of size 0 stands for none, as in the source; what the
-- source leaves unwritten in it is 0 here.
use cofuos.Prelude.{ℕ, zero, suc, ◌%◌, ◌^◌, ltb, ◌==◌, true, false, not, ◌&&◌, if◌then◌else◌}
use cofuos.Memory.Vm.{Block, Table, Space, get, put, get_max_size, put_max_size}

abbrev pub none_block : Block
none_block = record {
  self = 0;
  next = 0;
  prev = 0;
  size = 0;
  next_valid = false;
  prev_valid = false;
}

-- `prev_block` and `next_block`
pub record Place : Type 0 where
  pub before : Block
  pub after : Block

-- The loop with the first lambda, "shift left".
abbrev pub shift_left : ℕ → Table → ℕ → Place → Place
shift_left zero t n p = p
shift_left (suc fuel) t n p =
    let rest = shift_left fuel t n (record { before = get t p.before.prev; after = p.before }) in
    if not (p.before.size == 0) && ltb n p.before.size
    then (if p.before.prev_valid
        then rest
        else record { before = record p.before { size = 0 }; after = p.before })
    else p

-- The loop with the second lambda, "shift right".
abbrev pub shift_right : ℕ → Table → ℕ → Place → Place
shift_right zero t n p = p
shift_right (suc fuel) t n p =
    let rest = shift_right fuel t n (record { before = p.after; after = get t p.after.next }) in
    if not (p.after.size == 0) && ltb p.after.size n
    then (if p.after.next_valid
        then rest
        else record { before = p.after; after = record p.after { size = 0 } })
    else p

-- Without a hint the search starts at the head.
abbrev pub hinted : Block → Space → Block
hinted b s =
    if (not b.prev_valid && not b.next_valid) && not (get_max_size s.pdt == 0)
    then record b { next = s.pdt.head; next_valid = true }
    else b

abbrev pub place_at : Block → Space → Place
place_at b s = record {
  before = if b.prev_valid then get s.table b.prev else none_block;
  after = if b.next_valid then get s.table b.next else none_block;
}

abbrev pub find_place : ℕ → Table → ℕ → Place → Place
find_place fuel t n p =
    let left = shift_left fuel t n p in
    let right = shift_right fuel t n p in
    if not (p.before.size == 0) && ltb n p.before.size then left else right

-- The links of the block and of its neighbours, after the place is found.
abbrev pub join_after : Block → Place → Space → Space
join_after b p s =
    if p.after.size == 0
    then record s { pdt = put_max_size b.size s.pdt }
    else record s { table = put (record p.after { prev = b.self; prev_valid = true }) s.table }

abbrev pub join_before : Block → Place → Space → Space
join_before b p s =
    if p.before.size == 0
    then record s { pdt = record s.pdt { head = b.self % 2 ^ 9 } }
    else record s { table = put (record p.before { next = b.self; next_valid = true }) s.table }

abbrev pub linked : Block → Place → Block
linked b p = record b {
  next = if p.after.size == 0 then b.next else p.after.self;
  next_valid = not (p.after.size == 0);
  prev = if p.before.size == 0 then b.prev else p.before.self;
  prev_valid = not (p.before.size == 0);
}

abbrev pub insert_at : Block → Place → Space → Space
insert_at b p s =
    let joined = join_before b p (join_after b p s) in
    record joined { table = put (linked b p) joined.table }

unfoldable pub insert : ℕ → Block → Space → Space
insert fuel b s =
    let h = hinted b s in
    let p = find_place fuel s.table b.size (place_at h s) in
    if b.size == 0 then s else insert_at h p s
