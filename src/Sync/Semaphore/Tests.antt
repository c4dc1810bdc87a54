-- ===== src/Sync/Semaphore/Tests.antt =====
-- Witnesses and tests.
use cofuos.Prelude.{ℕ, ◌==◌, refl, Bool, true, [], ◌∷◌}
use cofuos.Sync.Semaphore.{Semaphore, create, check}
use cofuos.Sync.Semaphore.Permits.{System, checks, Reach, start, next}

abbrev taken : System
taken = record { sem = record { total = 2; count = 1; wait_queue = [] }; woken = 0 }

taken-Reach : Reach 2 taken
unfolding create check
taken-Reach = next start (checks (record { sem = create 2; woken = 0 }) true taken.sem refl)

-- Thread 4 has stopped, thread 7 waits behind it.
abbrev alive : ℕ → Bool
alive th = th == 7

abbrev waited : Semaphore
waited = record { total = 2; count = 0; wait_queue = 4 ∷ 7 ∷ 9 ∷ [] }
