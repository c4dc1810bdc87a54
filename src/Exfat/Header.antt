-- ===== src/Exfat/Header.antt =====
-- kernel/filesystem/exfat.cpp: `parse_header`, `lba_of_fat`, `lba_of_cluster` and the checksum of the boot area. A
-- header is the fields that the code reads; the sums of 64-bit sector numbers are taken not to wrap.
pub mod Bounds
mod Tests
use cofuos.Prelude.{
  ℕ, zero, suc, ◌+◌, ◌-◌, ◌*◌, ◌/◌, ◌%◌, ◌^◌, Bool, true, false, ltb, leb, ◌==◌, not, ◌&&◌, ◌||◌,
  if◌then◌else◌, Option, none, some, List, [], ◌∷◌,
}

pub record Header : Type 0 where
  pub signature : ℕ
  pub fs_name_ok : Bool
  pub zero_ok : Bool
  pub fs_version : ℕ
  pub sector_shift : ℕ
  pub base : ℕ
  pub limit : ℕ
  pub fat_offset : ℕ
  pub fat_length : ℕ
  pub cluster_offset : ℕ
  pub cluster_count : ℕ
  pub cluster_shift : ℕ
  pub fat_count : ℕ
  pub flags : ℕ
  pub root_dir : ℕ

-- The fields of `exfat` that `parse_header` reads or sets.
pub record Volume : Type 0 where
  pub base : ℕ
  pub top : ℕ
  pub table : ℕ
  pub heap : ℕ
  pub cluster_count : ℕ
  pub cluster_shift : ℕ

abbrev pub element_per_sector : ℕ
element_per_sector = 128

abbrev pub align_up : ℕ → ℕ → ℕ
align_up value size = (value + (size - 1)) / size * size

-- The checks up to the one of `top`.
abbrev pub is_recognized : Header → Volume → Bool
is_recognized h v =
    (h.signature == 43605)
    && h.fs_name_ok
    && h.zero_ok
    && (h.fs_version == 256)
    && (h.sector_shift == 9)
    && (h.base == v.base)
    && ((v.top == 0) || leb (h.base + h.limit) v.top)

abbrev pub has_areas : Header → Bool
has_areas h =
    leb 24 h.fat_offset
    && not (h.fat_length == 0)
    && not (h.cluster_offset == 0)
    && not (h.cluster_count == 0)

-- The first sector of the FAT in use, `none` for another number of FATs.
abbrev pub active_table : Header → Volume → Option ℕ
active_table h v =
    if h.fat_count == 2
    then some (v.base + h.fat_offset + (if h.flags % 2 == 1 then h.fat_length else 0))
    else (if (h.fat_count == 1) && (h.flags % 2 == 0) then some (v.base + h.fat_offset) else none)

abbrev pub with_areas : Header → Volume → ℕ → Volume
with_areas h v table = record {
  base = v.base;
  top = h.base + h.limit;
  table = table;
  heap = v.base + h.cluster_offset;
  cluster_count = h.cluster_count;
  cluster_shift = 9 + h.cluster_shift;
}

-- The last checks; the number of elements and the product of the FATs are 32-bit numbers.
abbrev pub has_room : Header → Volume → Bool
has_room h v =
    leb (align_up ((2 + v.cluster_count) % 2 ^ 32 * 4) 512 / 512) h.fat_length
    && leb (v.table + h.fat_length * h.fat_count % 2 ^ 32) v.heap
    && leb (v.heap + v.cluster_count * 2 ^ h.cluster_shift) v.top
    && leb 2 h.root_dir

-- `none` for the result 0. The result is the first cluster of the root with the top bit for the second FAT.
abbrev pub finish : Header → Volume → Option ℕ → Option (ℕ × Volume)
finish h v none = none
finish h v (some table) =
    if has_room h (with_areas h v table)
    then some ((if h.flags % 2 == 1 then 2 ^ 31 else 0) + h.root_dir, with_areas h v table)
    else none

abbrev pub parse_header : Header → Volume → Option (ℕ × Volume)
parse_header h v = if is_recognized h v && has_areas h then finish h v (active_table h v) else none

-- `align_up` of a 32-bit number of elements.
abbrev pub lba_of_fat : Volume → ℕ → ℕ
lba_of_fat v sector =
    if ltb sector ((v.cluster_count + 2 + (element_per_sector - 1)) % 2 ^ 32 / element_per_sector)
    then v.table + sector
    else 0

abbrev pub cluster_size : Volume → ℕ
cluster_size v = 2 ^ v.cluster_shift % 2 ^ 32

abbrev pub lba_of_cluster : Volume → ℕ → ℕ
lba_of_cluster v cluster =
    if leb v.cluster_count (cluster - 2) then 0 else v.heap + (cluster - 2) * (cluster_size v / 512)

-- The checksum of the boot area: the bytes that are not counted are those of `flags` and `use_percent`.
abbrev pub checksum_byte : ℕ → ℕ → ℕ
checksum_byte sum b = ((if sum % 2 == 1 then 2 ^ 31 else 0) + sum / 2 + b) % 2 ^ 32

pub checksum_sector : Bool → ℕ → ℕ → List ℕ → ℕ
checksum_sector first i sum [] = sum
checksum_sector first i sum (b ∷ bs) =
    let skipped = checksum_sector first (i + 1) sum bs in
    let added = checksum_sector first (i + 1) (checksum_byte sum b) bs in
    if first && ((i == 106) || (i == 107) || (i == 112)) then skipped else added
