-- ===== src/Memory/Vm/Directory.antt =====
-- kernel/memory/vm.cpp: a new page table, `new_pt`, and the address that `reserve_any` and `reserve_big` give to a
-- table of a directory. What `pm.allocate` answers is the argument `phy_addr`, 0 for no page.
use cofuos.Prelude.{
  ℕ, ◌≡◌, refl, ◌≢◌, true, false, ◌==◌, if◌then◌else◌, arith, ◌+◌, ◌*◌, ◌/◌, ◌%◌, ◌^◌, ◌<◌, ◌↔◌,
  inl, List, [], ◌∷◌, Option, none, some,
}
use cofuos.Memory.Vm.{Pte, Table, Block, Space, put, put_max_size, off_type}
use cofuos.Memory.Vm.Insert.{none_block}
use cofuos.Memory.Vm.Blocks.{IsRun, put-IsRun}
use cofuos.Memory.Vm.Chain.{Extent, put-IsBlock}
use cofuos.Memory.Vm.FreeList.{IsFreeList}

-- After `zeromemory`.
abbrev pub zero_entry : Pte
zero_entry = record {
  present = false;
  type = off_type;
  valid = false;
  page_addr = 0;
  content = 0;
  preserve = false;
  bypass = false;
}

abbrev pub zero_table : Table
zero_table i = zero_entry

abbrev pub whole_block : Block
whole_block = record none_block { size = 512 }

unfoldable pub new_pt : ℕ → Option Space
new_pt phy_addr =
    if phy_addr == 0
    then none
    else some (record {
      pdt =
          record (put_max_size 512 (record {
            present = false;
            remain = 0;
            pt_addr = phy_addr / 2 ^ 12;
            head = 0;
            bypass = false;
          })) { present = true };
      table = put whole_block zero_table;
    })

abbrev pub GivesFreeList : Option Space → List Extent → Type 0
GivesFreeList none xs = ⊥
GivesFreeList (some s) xs = IsFreeList s xs

pub zero-IsRun : IsRun zero_table 0 512
zero-IsRun = (omega arith, omega arith, λ k h. refl, inl refl)

-- A new table is one free block.
pub new_pt-IsFreeList :
    (phy_addr : ℕ)
    → phy_addr ≢ 0
    → GivesFreeList (new_pt phy_addr) (record { at = 0; size = 512 } ∷ [])
unfolding new_pt put_max_size
new_pt-IsFreeList phy_addr h =
    let z : (phy_addr == 0) ≡ false = ground arith in
    let block = put-IsBlock whole_block zero_table zero-IsRun (omega arith) (omega arith) in
    rw z ((put-IsRun whole_block zero_table 0 512 zero-IsRun, block, tt), (tt, tt), tt, refl, refl)

-- `pdpt_index*0x40000000 + i*0x200000`, of two operands of the type `unsigned`.
pub base_addr : ℕ → ℕ → ℕ
base_addr pdpt_index i = (pdpt_index * 2 ^ 30 % 2 ^ 32 + i * 2 ^ 21 % 2 ^ 32) % 2 ^ 32

-- The 32-bit sum is the address of the table in the first 4 directories, and in no other one of the 512.
pub base_addr-exact :
    (p i : ℕ) → p < 512 → i < 512 → (base_addr p i ≡ p * 2 ^ 30 + i * 2 ^ 21) ↔ (p < 4)
unfolding base_addr
base_addr-exact p i h g = omega arith
