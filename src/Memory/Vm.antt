-- ===== src/Memory/Vm.antt =====
-- kernel/memory/vm.cpp, vm.hpp: the free blocks of one page table. A table is a function from the index to the
-- entry; a `PTE*` is its index. Of the entries the flags for the processor (user, write and the like) are left
-- out, and so is the count `used_pages`. `none` is a `bugcheck`. Assertions are left out. The loops have fuel. `content` is the field `data`.
pub mod Insert
pub mod Pages
pub mod Release
pub mod Sizes
pub mod Blocks
pub mod Reads
pub mod Chain
pub mod Relink
pub mod Erase
pub mod FreeList
pub mod Place
pub mod Join
pub mod Ordered
pub mod Hint
pub mod Prior
pub mod Preserve
pub mod Used
pub mod Reserve
pub mod Search
pub mod Directory
mod Tests
use cofuos.Prelude.{
  ℕ, zero, suc, ◌+◌, ◌-◌, ◌*◌, ◌/◌, ◌%◌, ◌^◌, max, ltb, leb, ◌==◌, Bool, true, false, not, ◌&&◌,
  ◌||◌, if◌then◌else◌, Option, none, some,
}

-- The 2 bits `type` of a free entry.
pub data PteType : Type 0 where
  off_type : PteType
  size_type : PteType
  prev_type : PteType
  next_type : PteType

pub record Pte : Type 0 where
  pub present : Bool
  pub type : PteType
  pub valid : Bool
  pub page_addr : ℕ
  pub content : ℕ
  pub preserve : Bool
  pub bypass : Bool

pub record Pdte : Type 0 where
  pub present : Bool
  pub remain : ℕ
  pub pt_addr : ℕ
  pub head : ℕ
  pub bypass : Bool

abbrev pub Table : Type 0
Table = ℕ → Pte

pub record Block : Type 0 where
  pub self : ℕ
  pub next : ℕ
  pub prev : ℕ
  pub size : ℕ
  pub next_valid : Bool
  pub prev_valid : Bool

-- A page directory entry with its table.
pub record Space : Type 0 where
  pub pdt : Pdte
  pub table : Table

abbrev pub entries : ℕ
entries = 512

abbrev pub is_used : Pte → Bool
is_used e = e.present || e.preserve

abbrev pub write : Table → ℕ → Pte → Table
write t i e j = if j == i then e else t j

-- Steps back from an entry to the first of its block.
abbrev pub steps_back : PteType → ℕ → ℕ
steps_back off_type n = n
steps_back size_type n = 2
steps_back prev_type n = 1
steps_back next_type n = 0

-- `BLOCK::get` from the first entry on: an entry past the end or in use ends the block. What it leaves
-- unwritten is 0 here.
abbrev pub read_block : Table → ℕ → Block
read_block t i =
    let one : Block = record {
      self = i;
      next = (t i).content;
      prev = 0;
      size = 1;
      next_valid = (t i).valid;
      prev_valid = false;
    } in
    let two : Block = record one {
      prev = (t (i + 1)).content;
      prev_valid = (t (i + 1)).valid;
      size = 2;
    } in
    if (i + 1 == entries) || is_used (t (i + 1))
    then one
    else (if (i + 2 == entries) || is_used (t (i + 2))
        then two
        else record two { size = (t (i + 2)).content + 1 })

-- `BLOCK::get`
pub get : Table → ℕ → Block
get t i = read_block t (i - steps_back (t i).type (t i).content)

-- The field `data` has 9 bits.
abbrev pub marked : PteType → Bool → ℕ → Pte → Pte
marked y v n e = record e { type = y; valid = v; content = n % 2 ^ 9 }

-- The loop of `BLOCK::put` over the entries from `i` on, `n` of them.
abbrev pub put_rest : ℕ → ℕ → ℕ → Table → Table
put_rest zero i at_block t = t
put_rest (suc n) i at_block t =
    put_rest n (suc i) at_block (write t (at_block + i) (marked off_type true i (t (at_block + i))))

-- `BLOCK::put` of a block with its entries.
pub put : Block → Table → Table
put b t =
    let t1 = write t b.self (marked next_type b.next_valid b.next (t b.self)) in
    let t2 = write t1 (b.self + 1) (marked prev_type b.prev_valid b.prev (t1 (b.self + 1))) in
    let t3 = write t2 (b.self + 2) (marked size_type true (b.size - 1) (t2 (b.self + 2))) in
    if b.size == 1 then t1 else (if b.size == 2 then t2 else put_rest (b.size - 3) 3 b.self t3)

pub get_max_size : Pdte → ℕ
get_max_size p =
    if ltb p.remain 8
    then (if p.remain == 0 then 0 else 2 ^ (p.remain - 1))
    else 64 + 56 * (p.remain - 7)

-- `while (max_size) { max_size >>= 1; ++remain; }`
abbrev pub bit_length : ℕ → ℕ → ℕ
bit_length zero n = 0
bit_length (suc fuel) n = let rest = bit_length fuel (n / 2) in if n == 0 then 0 else suc rest

-- The bits of a number below 64 + 56 are at most 7; `remain` has 4 bits.
pub put_max_size : ℕ → Pdte → Pdte
put_max_size n p = record p {
  remain = (if leb (64 + 56) n then 7 + (n - 64) / 56 else bit_length 7 n) % 2 ^ 4;
}

-- The loop of `resolve_prior`, from the block at `cur` on.
abbrev pub find_prior : ℕ → ℕ → Table → Block → Option Block
find_prior zero cur t b = none
find_prior (suc fuel) cur t b =
    let p = get t cur in
    let rest = find_prior fuel p.next t b in
    if p.next_valid && (p.next == b.self)
    then some (record b { prev = p.self; prev_valid = true })
    else (if p.next_valid then rest else none)

pub resolve_prior : ℕ → Space → Block → Option Block
resolve_prior fuel s b =
    if (s.pdt.head == b.self) || ltb 1 b.size then some b else find_prior fuel s.pdt.head s.table b

-- `virtual_space::erase`
pub erase : Block → Space → Space
erase b s =
    let p = get s.table b.prev in
    let before =
      if b.prev_valid
      then record s { table = put (record p { next = b.next; next_valid = b.next_valid }) s.table }
      else record s { pdt = record s.pdt { head = b.next % 2 ^ 9 } } in
    let n = get before.table b.next in
    let after =
      if ltb 1 n.size
      then put (record n { prev = b.prev; prev_valid = b.prev_valid }) before.table
      else before.table in
    let lower = if b.prev_valid then p.size else 0 in
    if b.next_valid
    then record {
      pdt = put_max_size (max n.size (get_max_size before.pdt)) before.pdt;
      table = after;
    }
    else record before { pdt = put_max_size lower before.pdt }
