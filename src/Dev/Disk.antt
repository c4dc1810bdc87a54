-- ===== src/Dev/Disk.antt =====
-- kernel/dev/disk_interface.cpp: a slot of the disk cache. A sector's content is a number, a disk is a
-- function from the LBA, the page of a slot one from the sector's place in it, and `valid` and `dirty`
-- are functions from the place to their bit. `ide.command` is the parameter `ide`, and `now` is what
-- `timer.running_time` returns. The caller holds the lock of the slot.
pub mod Flush
pub mod Cache
mod Tests
use cofuos.Prelude.{
  ℕ, zero, suc, ◌+◌, ◌-◌, ◌/◌, ◌*◌, ◌%◌, ◌==◌, Bool, true, false, ltb, leb, not, ◌&&◌, ◌||◌,
  if◌then◌else◌,
}

abbrev pub Disk : Type 0
Disk = ℕ → ℕ

abbrev pub Page : Type 0
Page = ℕ → ℕ

abbrev pub Bits : Type 0
Bits = ℕ → Bool

abbrev pub sectors : ℕ
sectors = 8

-- The commands WRITE, of a number of sectors of a page from a place on, and READ, of a page.
pub record Ide : Type 0 where
  pub write : ℕ → ℕ → Page → Disk → Bool × Disk
  pub read : ℕ → Disk → Bool × Page

pub record Slot : Type 0 where
  pub lba_base : ℕ
  pub page : Page
  pub valid : Bits
  pub dirty : Bits
  pub timestamp : ℕ

-- `val & (1 << i)` for a byte.
abbrev pub bit : Bits → ℕ → Bool
bit b i = ltb i sectors && b i

abbrev pub is_zero : Bits → Bool
is_zero b = not (b 0 || b 1 || b 2 || b 3 || b 4 || b 5 || b 6 || b 7)

abbrev pub is_ones : Bits → Bool
is_ones b = b 0 && b 1 && b 2 && b 3 && b 4 && b 5 && b 6 && b 7

abbrev pub page_lba : ℕ → ℕ
page_lba lba = lba / sectors * sectors

pub matches : ℕ → Slot → Bool
matches aligned_lba s = not (is_zero s.valid) && (s.lba_base == aligned_lba)

-- The loop of `flush` over `n` more places from `i`, with a run of dirty sectors from `head` on.
pub flush_loop : Ide → Slot → ℕ → ℕ → ℕ → Disk → Bool × Disk
flush_loop ide s zero i head d = (true, d)
flush_loop ide s (suc n) i head d =
    let written = ide.write (s.lba_base + head) (i - head) (λ j. s.page (head + j)) d in
    let on = flush_loop ide s n (i + 1) head d in
    let past = flush_loop ide s n (i + 1) (i + 1) d in
    let after = flush_loop ide s n (i + 1) (i + 1) written.1 in
    if bit s.dirty i
    then on
    else (if head == i then past else (if written.0 then after else (false, written.1)))

-- The outcome of an operation, the slot and the disk after it.
pub record Done : Type 0 where
  pub ok : Bool
  pub slot : Slot
  pub disk : Disk

pub flush : Ide → Slot → Disk → Done
flush ide s d =
    let (ok, d') = flush_loop ide s 9 0 0 d in
    if is_zero s.dirty
    then record { ok = true; slot = s; disk = d }
    else (if ok
        then record { ok = true; slot = record s { dirty = λ i. false }; disk = d' }
        else record { ok = false; slot = s; disk = d' })

-- The slot without its page, for another place on the disk.
abbrev pub moved : ℕ → Slot → Slot
moved aligned_lba s = record s { valid = λ i. false; lba_base = aligned_lba }

pub reload : Ide → ℕ → ℕ → Slot → Disk → Done
reload ide now aligned_lba s d =
    let f = flush ide s d in
    let (ok, page) = ide.read aligned_lba f.disk in
    if not f.ok then f else record {
      ok = ok;
      slot =
          if ok
          then record (moved aligned_lba f.slot) { page = page; valid = λ i. true; timestamp = now }
          else record (moved aligned_lba f.slot) { page = page };
      disk = f.disk;
    }

pub load : Ide → ℕ → Slot → Disk → Done
load ide now s d =
    if is_ones s.valid
    then record { ok = true; slot = s; disk = d }
    else reload ide now s.lba_base s d

abbrev pub in_run : ℕ → ℕ → ℕ → Bool
in_run off count i = leb off i && ltb i (off + count)

-- The slot with `count` sectors from `off` on made dirty and filled with zeroes.
abbrev pub zeroed : ℕ → ℕ → ℕ → Slot → Slot
zeroed now off count s = record s {
  dirty = λ i. s.dirty i || in_run off count i;
  page = λ i. if in_run off count i then 0 else s.page i;
  valid = λ i. s.valid i || (s.dirty i || in_run off count i);
  timestamp = now;
}

pub store : Ide → ℕ → ℕ → ℕ → Slot → Disk → Done
store ide now lba count s d =
    let f = flush ide s d in
    if page_lba lba == s.lba_base
    then record { ok = true; slot = zeroed now (lba - page_lba lba) count s; disk = d }
    else (if not f.ok then f else record {
      ok = true;
      slot = zeroed now (lba - page_lba lba) count (moved (page_lba lba) f.slot);
      disk = f.disk;
    })

-- What `upgrade` does behind its checks: sectors that the caller has written become dirty.
pub upgrade : ℕ → ℕ → Slot → Slot
upgrade lba count s = record s { dirty = λ i. s.dirty i || in_run (lba - s.lba_base) count i }
