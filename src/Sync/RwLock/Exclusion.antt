-- ===== src/Sync/RwLock/Exclusion.antt =====
-- Readers and writers of the lock, over every sequence of operations of its users.
use cofuos.Prelude.{
  ℕ, ◌+◌, ◌-◌, ◌<◌, ◌^◌, ◌≡◌, refl, ◌⊎◌, inl, true, false, Option, none, some, List, [], arith,
}
use cofuos.Sync.RwLock.{
  RwLock, Mode, exclusive, shared, Waiter, returned, asleep, woke, try_lock, lock, downgrade,
  unlock,
}

-- The lock with who holds it: the thread that holds it exclusively, and the number of shares.
pub record System : Type 0 where
  pub rw : RwLock
  pub writer : Option ℕ
  pub readers : ℕ

abbrev pub took : Mode → ℕ → System → RwLock → System
took exclusive th s l = record s { rw = l; writer = some th }
took shared th s l = record s { rw = l; readers = s.readers + 1 }

-- A user takes the lock, waits for it, downgrades the exclusive lock that it holds, or gives back
-- what it holds. A lock is not shared more than 2 ^ 32 - 1 times.
pub data Step : System → System → Type 0 where
  try :
      (s : System) (m : Mode) (th : ℕ) (l : RwLock)
      → s.readers + 1 < 2 ^ 32
      → try_lock m th s.rw ≡ (true, l)
      → Step s (took m th s l)
  try_fail :
      (s : System) (m : Mode) (th : ℕ) (l : RwLock)
      → try_lock m th s.rw ≡ (false, l)
      → Step s (record s { rw = l })
  enter :
      (s : System) (m : Mode) (th : ℕ) (l : RwLock)
      → s.readers + 1 < 2 ^ 32
      → lock m th s.rw ≡ (returned, l)
      → Step s (took m th s l)
  sleep :
      (s : System) (m : Mode) (th : ℕ) (l : RwLock)
      → lock m th s.rw ≡ (asleep, l)
      → Step s (record s { rw = l })
  share :
      (s : System) (th : ℕ) (ws : List Waiter) (l : RwLock)
      → s.writer ≡ some th
      → downgrade s.rw ≡ (woke ws, l)
      → Step s (record { rw = l; writer = none; readers = 1 })
  leave_exclusive :
      (s : System) (th : ℕ) (ws : List Waiter) (l : RwLock)
      → s.writer ≡ some th
      → unlock th s.rw ≡ (woke ws, l)
      → Step s (record s { rw = l; writer = none })
  leave_shared :
      (s : System) (th : ℕ) (ws : List Waiter) (l : RwLock)
      → 0 < s.readers
      → unlock th s.rw ≡ (woke ws, l)
      → Step s (record s { rw = l; readers = s.readers - 1 })

pub data Reach : System → Type 0 where
  start : Reach (record {
    rw = record { owner = none; share_count = 0; wait_queue = [] };
    writer = none;
    readers = 0;
  })
  next : {s t : System} → Reach s → Step s t → Reach t

-- The fields of the lock tell who holds it, and a writer is alone.
pub record IsValid (s : System) : Type 0 where
  pub owned : s.rw.owner ≡ s.writer
  pub counted : s.rw.share_count ≡ s.readers
  pub alone : (s.writer ≡ none) ⊎ (s.readers ≡ 0)
  pub small : s.readers < 2 ^ 32

Step-IsValid : {s t : System} → Step s t → IsValid s → IsValid t
unfolding try_lock lock downgrade unlock
Step-IsValid (try s exclusive th l room e) v = ground arith
Step-IsValid (try s shared th l room e) v = ground arith
Step-IsValid (try_fail s exclusive th l e) v = ground arith
Step-IsValid (try_fail s shared th l e) v = ground arith
Step-IsValid (enter s exclusive th l room e) v = ground arith
Step-IsValid (enter s shared th l room e) v = ground arith
Step-IsValid (sleep s exclusive th l e) v = ground arith
Step-IsValid (sleep s shared th l e) v = ground arith
Step-IsValid (share s th ws l w e) v = ground arith
Step-IsValid (leave_exclusive s th ws l w e) v = ground arith
Step-IsValid (leave_shared s th ws l w e) v = ground arith

-- In every reachable state the owner of the lock is its writer, the count is that of its readers,
-- and there is no reader beside a writer.
pub rwlock-IsValid : {s : System} → Reach s → IsValid s
rwlock-IsValid start = record {
  owned = refl;
  counted = refl;
  alone = inl refl;
  small = omega arith;
}
rwlock-IsValid (next r st) = Step-IsValid st (rwlock-IsValid r)
