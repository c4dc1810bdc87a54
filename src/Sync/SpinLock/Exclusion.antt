-- ===== src/Sync/SpinLock/Exclusion.antt =====
-- Mutual exclusion of the spin lock, for every interleaving of reads and exchanges.
use cofuos.Prelude.{ℕ, ◌+◌, ◌-◌, ◌≤◌, ◌<◌, ◌≡◌, refl, ◌⊎◌, inr, true, false, arith}
use cofuos.Sync.SpinLock.{x_value, Mode, exclusive, shared, done, try_lock, unlock}

-- The lock word, and how many holders there are of each kind.
pub record System : Type 0 where
  pub state : ℕ
  pub writers : ℕ
  pub readers : ℕ

module _ (s_limit : ℕ) where
  -- A processor takes the lock, or one that holds it lets go of it, by an exchange that meets the
  -- lock word as it is, after a read at any time before; or an exchange fails and changes nothing.
  pub data Step : System → System → Type 0 where
    take_exclusive :
        (s : System) (cur : ℕ) (n : ℕ)
        → try_lock s_limit exclusive cur s.state ≡ (done true, n)
        → Step s (record s { state = n; writers = s.writers + 1 })
    take_shared :
        (s : System) (cur : ℕ) (n : ℕ)
        → try_lock s_limit shared cur s.state ≡ (done true, n)
        → Step s (record s { state = n; readers = s.readers + 1 })
    fail :
        (s : System) (m : Mode) (cur : ℕ) (n : ℕ)
        → try_lock s_limit m cur s.state ≡ (done false, n)
        → Step s (record s { state = n })
    drop_exclusive :
        (s : System) (n : ℕ)
        → 0 < s.writers
        → unlock s.state s.state ≡ (done true, n)
        → Step s (record s { state = n; writers = s.writers - 1 })
    drop_shared :
        (s : System) (cur n : ℕ)
        → 0 < s.readers
        → cur < x_value
        → unlock cur s.state ≡ (done true, n)
        → Step s (record s { state = n; readers = s.readers - 1 })

  pub data Reach : System → Type 0 where
    start : Reach (record { state = 0; writers = 0; readers = 0 })
    next : {s t : System} → Reach s → Step s t → Reach t

  -- The word is that of one writer and no reader, or counts the readers while there is no writer.
  abbrev pub IsValid : System → Type 0
  IsValid s =
      ((s.state ≡ x_value) × (s.writers ≡ 1) × (s.readers ≡ 0))
      ⊎ ((s.state ≡ s.readers) × (s.writers ≡ 0) × (s.readers ≤ s_limit))

  Step-IsValid : {s t : System} → s_limit < x_value → Step s t → IsValid s → IsValid t
  unfolding try_lock unlock
  Step-IsValid low (take_exclusive s cur n e) v = ground arith
  Step-IsValid low (take_shared s cur n e) v = ground arith
  Step-IsValid low (fail s exclusive cur n e) v = ground arith
  Step-IsValid low (fail s shared cur n e) v = ground arith
  Step-IsValid low (drop_exclusive s n h e) v = ground arith
  Step-IsValid low (drop_shared s cur n h l e) v = ground arith

  Reach-IsValid : {s : System} → s_limit < x_value → Reach s → IsValid s
  Reach-IsValid low start = inr (refl, refl, omega arith)
  Reach-IsValid low (next r st) = Step-IsValid low st (Reach-IsValid low r)

  -- However the processors interleave, there is at most one writer, there are no readers beside
  -- it, and there are never more readers than the limit.
  pub Reach-exclusion :
      {s : System}
      → s_limit < x_value
      → Reach s
      → ((s.writers ≡ 0) ⊎ ((s.writers ≡ 1) × (s.readers ≡ 0))) × (s.readers ≤ s_limit)
  Reach-exclusion low r = ground (arith, Reach-IsValid low r)
