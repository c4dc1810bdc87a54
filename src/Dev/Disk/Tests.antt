-- ===== src/Dev/Disk/Tests.antt =====
-- Witnesses and tests.
use cofuos.Prelude.{
  ℕ, ◌+◌, ◌-◌, ◌==◌, ◌≡◌, refl, true, false, ltb, leb, ◌&&◌, if◌then◌else◌, arith, ◌⊎◌, ◌||◌,
}
use cofuos.Dev.Disk.{Disk, Ide, Slot, is_zero, flush, flush_loop}
use cofuos.Dev.Disk.Flush.{IsIde, view, flush_lem}
use cofuos.Dev.Disk.Cache.{IsCoherent}

-- A device on which every command succeeds.
abbrev device : Ide
device = record {
  write = λ lba n p d. (true, λ j. if leb lba j && ltb j (lba + n) then p (j - lba) else d j);
  read = λ lba d. (true, λ i. d (lba + i));
}

device-IsIde : IsIde device
device-IsIde = record { written = λ lba n p d o j. refl; reads = λ lba d o i l. refl }

abbrev blank : Disk
blank j = 7

-- A slot for the sectors from 16 on; 17 and 18 were written, and 20.
abbrev written : Slot
written = record {
  lba_base = 16;
  page = λ i. i;
  valid = λ i. (i == 1) || ((i == 2) || (i == 4));
  dirty = λ i. (i == 1) || ((i == 2) || (i == 4));
  timestamp = 0;
}

flushed : (flush device written blank).disk 18 ≡ 2
unfolding flush flush_loop
flushed = refl

kept : (flush device written blank).disk 19 ≡ 7
unfolding flush flush_loop
kept = refl

written-IsCoherent : IsCoherent written blank
written-IsCoherent = record {
  dirty_valid = λ i l e. e;
  clean = λ i l a b. absurd (ground (arith, a, b));
}

flush_lem_example :
    (((flush device written blank).ok ≡ true)
      × (((flush device written blank).slot ≡ written)
          ⊎ ((flush device written blank).slot ≡ record written { dirty = λ i. false }))
      × (is_zero (flush device written blank).slot.dirty ≡ true)
      × ((j : ℕ) → (flush device written blank).disk j ≡ view written blank j))
    ⊎ (((flush device written blank).ok ≡ false) × ((flush device written blank).slot ≡ written))
flush_lem_example = flush_lem device written blank device-IsIde
