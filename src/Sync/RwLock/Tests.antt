-- ===== src/Sync/RwLock/Tests.antt =====
-- Witnesses and tests.
use cofuos.Prelude.{true, refl, none, some, [], ◌∷◌, arith}
use cofuos.Sync.RwLock.{exclusive, shared, lock, unlock, downgrade}
use cofuos.Sync.RwLock.Exclusion.{System, enter, sleep, Reach, start, next, IsValid, rwlock-IsValid}
use cofuos.Sync.RwLock.Wakeup.{Blocked, IsRelease, rwlock-Blocked}

abbrev idle : System
idle = record {
  rw = record { owner = none; share_count = 0; wait_queue = [] };
  writer = none;
  readers = 0;
}

abbrev written : System
written = record {
  rw = record { owner = some 5; share_count = 0; wait_queue = [] };
  writer = some 5;
  readers = 0;
}

-- Thread 5 holds the lock, and thread 6 waits to share it.
abbrev contended : System
contended = record {
  rw = record {
    owner = some 5;
    share_count = 0;
    wait_queue = record { thread = 6; mode = shared } ∷ [];
  };
  writer = some 5;
  readers = 0;
}

contended-Reach : Reach contended
unfolding lock
contended-Reach =
    next (next start (enter idle exclusive 5 written.rw (omega arith) refl))
      (sleep written shared 6 contended.rw refl)

rwlock-IsValid_example : IsValid contended
rwlock-IsValid_example = rwlock-IsValid contended-Reach

rwlock-Blocked_example :
    Blocked contended.rw contended.rw.wait_queue
    × IsRelease true contended.rw (unlock 5 contended.rw).0 (unlock 5 contended.rw).1
    × IsRelease true contended.rw (downgrade contended.rw).0 (downgrade contended.rw).1
rwlock-Blocked_example = rwlock-Blocked 5 contended-Reach
