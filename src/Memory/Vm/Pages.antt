-- ===== src/Memory/Vm/Pages.antt =====
-- kernel/memory/vm.cpp: pages are reserved in one page table.
use cofuos.Prelude.{
  ℕ, zero, suc, ◌+◌, ◌-◌, ◌*◌, ◌^◌, ltb, leb, Bool, true, false, if◌then◌else◌, Option, none, some,
}
use cofuos.Memory.Vm.{Table, Block, Space, is_used, write, get, get_max_size, resolve_prior, erase}
use cofuos.Memory.Vm.Insert.{none_block, insert}

abbrev pub preserve_run : ℕ → ℕ → Table → Table
preserve_run zero i t = t
preserve_run (suc n) i t = preserve_run n (i + 1) (write t i (record (t i) { preserve = true }))

abbrev pub with_table : (Table → Table) → Space → Space
with_table f s = record s { table = f s.table }

-- `erase` of a block whose prior block is looked up first.
abbrev pub erased : Option Block → Space → Option (Block × Space)
erased none s = none
erased (some b) s = some (b, erase b s)

abbrev pub take_block : ℕ → Space → Block → Option (Block × Space)
take_block fuel s b = erased (resolve_prior fuel s b) s

-- The end of the block is taken.
abbrev pub taken : ℕ → ℕ → ℕ → Option (Block × Space) → Option (ℕ × Space)
taken fuel base n none = none
taken fuel base n (some (b, s)) =
    let first = b.self + b.size - n in
    some (
      base + first * 2 ^ 12,
      insert fuel (record b { size = b.size - n }) (with_table (preserve_run n first) s),
    )

-- The loop of `imp_reserve_any`, from the block at `cur` on.
abbrev pub reserve_from : ℕ → ℕ → ℕ → ℕ → ℕ → Space → Option (ℕ × Space)
reserve_from zero links base n cur s = none
reserve_from (suc fuel) links base n cur s =
    let b = get s.table cur in
    let rest = reserve_from fuel links base n b.next s in
    if leb n b.size
    then taken links base n (take_block links s b)
    else (if b.next_valid then rest else none)

-- `imp_reserve_any`: 0 for no room.
unfoldable pub imp_reserve_any : ℕ → ℕ → ℕ → Space → Option (ℕ × Space)
imp_reserve_any fuel base n s =
    if ltb (get_max_size s.pdt) n then some (0, s) else reserve_from fuel fuel base n s.pdt.head s

-- The two ends that are left of a block, the longer one first.
abbrev pub split : ℕ → ℕ → ℕ → Block → Space → Space
split fuel i n b s =
    let low = i - b.self in
    let high = b.size + b.self - (i + n) in
    let one : Block =
      if ltb low high then record b { self = i + n; size = high } else record b { size = low } in
    let two : Block = record none_block {
      self = if ltb low high then b.self else i + n;
      size = if ltb low high then low else high;
    } in
    insert fuel two (insert fuel one s)

abbrev pub fixed : ℕ → ℕ → ℕ → Option (Block × Space) → Option (Bool × Space)
fixed fuel i n none = none
fixed fuel i n (some (b, s)) = some (true, split fuel i n b (with_table (preserve_run n i) s))

unfoldable pub imp_reserve_fixed : ℕ → ℕ → ℕ → Space → Option (Bool × Space)
imp_reserve_fixed fuel i n s =
    let b = get s.table i in
    if is_used (s.table i)
    then some (false, s)
    else (if ltb (b.self + b.size) (i + n)
        then some (false, s)
        else fixed fuel i n (take_block fuel s b))
