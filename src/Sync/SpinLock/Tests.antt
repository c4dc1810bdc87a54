-- ===== src/Sync/SpinLock/Tests.antt =====
-- Witnesses and tests.
use cofuos.Prelude.{◌≤◌, ◌≡◌, refl, ◌⊎◌, arith}
use cofuos.Sync.SpinLock.{try_lock}
use cofuos.Sync.SpinLock.Exclusion.{System, take_shared, Reach, start, next, Reach-exclusion}

abbrev one_reader : System
one_reader = record { state = 1; writers = 0; readers = 1 }

one_reader-Reach : Reach 64 one_reader
unfolding try_lock
one_reader-Reach =
    next start (take_shared (record { state = 0; writers = 0; readers = 0 }) 0 1 refl)

Reach-exclusion_example :
    ((one_reader.writers ≡ 0) ⊎ ((one_reader.writers ≡ 1) × (one_reader.readers ≡ 0)))
    × (one_reader.readers ≤ 64)
Reach-exclusion_example = Reach-exclusion 64 (omega arith) one_reader-Reach
