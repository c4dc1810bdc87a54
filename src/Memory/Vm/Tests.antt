-- ===== src/Memory/Vm/Tests.antt =====
-- Witnesses and tests.
use cofuos.Prelude.{
  ◌≡◌, ◌≤◌, ◌<◌, ◌*◌, ◌+◌, ◌^◌, ◌↔◌, refl, true, false, ◌==◌, ◌||◌, if◌then◌else◌, [], ◌∷◌, arith,
  inl, inr, length,
}
use cofuos.Memory.Vm.{Table, Block, Space, get, put, put_max_size, get_max_size, erase}
use cofuos.Memory.Vm.Insert.{insert, none_block}
use cofuos.Memory.Vm.Pages.{imp_reserve_any}
use cofuos.Memory.Vm.Sizes.{get_max_size-put_max_size}
use cofuos.Memory.Vm.Blocks.{IsRun, stored, get-put, put-IsRun}
use cofuos.Memory.Vm.Chain.{Extent, IsApart, put-IsBlock, last_or}
use cofuos.Memory.Vm.Erase.{IsBetween}
use cofuos.Memory.Vm.FreeList.{IsFreeList, erase-IsFreeList}
use cofuos.Memory.Vm.Ordered.{Inserted, extent_of}
use cofuos.Memory.Vm.Hint.{IsHint, insert-IsFreeList}
use cofuos.Memory.Vm.Search.{Reserved, imp_reserve_any-Reserved}
use cofuos.Memory.Vm.Directory.{
  zero_entry, zero_table, whole_block, zero-IsRun, base_addr, base_addr-exact,
}

-- Entries 5, 6 and 9 are free, 9 is a block of the list.
abbrev sparse : Table
sparse i = record zero_entry {
  preserve = if (i == 5) || ((i == 6) || (i == 9)) then false else true;
}

abbrev single : Block
single = record none_block { self = 9; size = 1 }

abbrev two : Block
two = record none_block { self = 5; size = 2 }

abbrev listed : Space
listed = record {
  pdt = record { present = true; remain = 1; pt_addr = 8; head = 9; bypass = false };
  table = put single sparse;
}

single-IsRun : IsRun sparse 9 1
single-IsRun =
    (omega arith, omega arith, (λ k h. (let e : k ≡ 0 = omega arith in rw e refl)), inr refl)

two-IsRun : IsRun sparse 5 2
two-IsRun = (omega arith, omega arith, (λ k h. ground arith), inr refl)

two-free : IsRun listed.table 5 2
two-free = put-IsRun single sparse 5 2 two-IsRun

listed-IsFreeList : IsFreeList listed (record { at = 9; size = 1 } ∷ [])
listed-IsFreeList = (
  (
    put-IsRun single sparse 9 1 single-IsRun,
    put-IsBlock single sparse single-IsRun (omega arith) (omega arith),
    tt,
  ),
  (tt, tt),
  tt,
  refl,
  refl,
)

two-IsHint : IsHint two (record { at = 9; size = 1 } ∷ [])
two-IsHint = inr (refl, refl, omega arith, omega arith)

two-IsApart : IsApart (extent_of two) (record { at = 9; size = 1 } ∷ [])
two-IsApart = (inl (omega arith), tt)

one_turn : length {A = Extent} (record { at = 9; size = 1 } ∷ []) ≤ 1
one_turn = omega arith

-- The larger block comes behind the smaller one.
insert-IsFreeList_example :
    Inserted (insert 1 two listed) (extent_of two) (record { at = 9; size = 1 } ∷ [])
insert-IsFreeList_example =
    insert-IsFreeList 1 two listed (record { at = 9; size = 1 } ∷ []) two-IsHint listed-IsFreeList
      two-IsApart two-free one_turn

single-IsBetween : IsBetween single [] []
unfolding last_or
single-IsBetween = (refl, refl, omega arith, omega arith)

erase-IsFreeList_example : IsFreeList (erase single listed) []
erase-IsFreeList_example =
    erase-IsFreeList single listed [] [] (record { at = 9; size = 1 }) single-IsBetween
      listed-IsFreeList

seventh : 7 < 512
seventh = omega arith

no_link : 0 < 512
no_link = omega arith

get-put_example : get (put whole_block zero_table) (0 + 7) ≡ stored whole_block
get-put_example = get-put whole_block zero_table 7 zero-IsRun no_link no_link seventh

hundred : 100 ≤ 512
hundred = omega arith

class_seven : 7 < 16
class_seven = omega arith

get_max_size-put_max_size_example :
    (get_max_size (record listed.pdt { remain = 7 }) ≤ 100)
    ↔ (7 ≤ (put_max_size 100 listed.pdt).remain)
get_max_size-put_max_size_example = get_max_size-put_max_size listed.pdt 100 7 hundred class_seven

one : 1 ≤ 1
one = omega arith

-- One page of the address space that begins at 2 MB.
imp_reserve_any-Reserved_example :
    Reserved
      (imp_reserve_any 1 (2 ^ 21) 1 listed)
      (2 ^ 21)
      1
      listed
      (record { at = 9; size = 1 } ∷ [])
imp_reserve_any-Reserved_example =
    imp_reserve_any-Reserved 1 (2 ^ 21) 1 listed (record { at = 9; size = 1 } ∷ [])
      listed-IsFreeList one one_turn

fifth : 5 < 512
fifth = omega arith

first : 1 < 512
first = omega arith

base_addr-exact_example : (base_addr 5 1 ≡ 5 * 2 ^ 30 + 1 * 2 ^ 21) ↔ (5 < 4)
base_addr-exact_example = base_addr-exact 5 1 fifth first
