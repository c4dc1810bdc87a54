-- ===== src/Exfat/Bitmap.antt =====
-- kernel/filesystem/exfat.cpp: `exfat::allocator`, over the allocation bitmap of the volume. Cluster
-- `p + 2` is bit `p`. `readable` tells which sectors of the bitmap `dm.get` gives; the sector that the
-- allocator holds is one of these. `bmp_lock` is held while an allocator lives.
pub mod Sector
pub mod Search
mod Tests
use cofuos.Prelude.{
  ℕ, zero, suc, ◌+◌, ◌-◌, ◌*◌, ◌/◌, ◌%◌, Bool, true, false, ltb, leb, ◌==◌, not, if◌then◌else◌,
}

abbrev pub bit_per_sector : ℕ
bit_per_sector = 4096

abbrev pub Bits : Type 0
Bits = ℕ → Bool

abbrev pub set_bit : Bits → ℕ → Bool → Bits
set_bit m p v i = if i == p then v else m i

pub record Bitmap : Type 0 where
  pub used : Bits
  pub cluster_count : ℕ
  pub last_index : ℕ

pub data Scan : Type 0 where
  free_at : ℕ → Scan
  stopped : ℕ → Scan

-- The inner loop of `get`, in one sector.
pub scan : ℕ → Bits → ℕ → ℕ → Scan
scan zero m cluster_count pos = stopped pos
scan (suc fuel) m cluster_count pos =
    let rest = scan fuel m cluster_count (pos + 1) in
    if leb cluster_count pos
    then stopped pos
    else (if not (m pos)
        then free_at pos
        else (if (pos + 1) % bit_per_sector == 0 then stopped (pos + 1) else rest))

pub data Found : Type 0 where
  found : ℕ → Found
  full : Found
  unreadable : Found
  out_of_fuel : Found

-- What follows the inner loop, with the search from the next position as `rest`.
abbrev pub after_scan : ℕ → ℕ → (ℕ → Found) → Scan → Found
after_scan cluster_count initial rest (free_at p) = found p
after_scan cluster_count initial rest (stopped p) =
    let next = if leb cluster_count p then 0 else p in
    let more = rest next in if next == initial then full else more

-- The outer loop of `get`, over the sectors.
pub search : ℕ → (ℕ → Bool) → Bits → ℕ → ℕ → ℕ → Found
search zero readable m cluster_count initial pos = out_of_fuel
search (suc fuel) readable m cluster_count initial pos =
    let rest =
      after_scan cluster_count initial (search fuel readable m cluster_count initial)
        (scan bit_per_sector m cluster_count pos) in
    if readable (pos / bit_per_sector) then rest else unreadable

abbrev pub initial_of : Bitmap → ℕ
initial_of b = b.last_index / bit_per_sector * bit_per_sector

-- Rounds enough for every sector of the bitmap, and one more.
abbrev pub rounds : Bitmap → ℕ
rounds b = b.cluster_count / bit_per_sector + 3

abbrev pub taken : Found → Bitmap → ℕ × Bitmap
taken (found p) b = (p + 2, record b { used = set_bit b.used p true; last_index = p })
taken full b = (0, b)
taken unreadable b = (0, b)
taken out_of_fuel b = (0, b)

abbrev pub find : (ℕ → Bool) → Bitmap → Found
find readable b = search (rounds b) readable b.used b.cluster_count (initial_of b) b.last_index

-- `get`: the cluster, or 0.
pub get : (ℕ → Bool) → Bitmap → ℕ × Bitmap
get readable b = taken (find readable b) b

pub put : (ℕ → Bool) → ℕ → Bitmap → Bool × Bitmap
put readable cluster b =
    let p = cluster - 2 in
    if not (readable (p / bit_per_sector))
    then (false, b)
    else (if b.used p then (true, record b { used = set_bit b.used p false }) else (false, b))
