-- ===== src/Sync/RwLock.antt =====
-- kernel/sync/rwlock.cpp. `objlock` makes each operation, and each round of `lock`, atomic: a round
-- that finds the lock taken hands `objlock` on to `imp_wait`, which queues the thread before it
-- lets go of it. So the lock and its wait queue are one state, and an operation is a step of it.
pub mod Wakeup
pub mod Exclusion
mod Tests
use cofuos.Prelude.{
  ℕ, suc, ◌+◌, ◌-◌, ◌%◌, ◌^◌, Bool, true, false, Option, none, some, List, [], ◌∷◌, ◌++◌, ◌==◌, not,
  ◌&&◌, ◌||◌, if◌then◌else◌,
}

pub data Mode : Type 0 where
  exclusive shared : Mode

pub record Waiter : Type 0 where
  pub thread : ℕ
  pub mode : Mode

pub record RwLock : Type 0 where
  pub owner : Option ℕ
  pub share_count : ℕ
  pub wait_queue : List Waiter

abbrev pub is_null : Option ℕ → Bool
is_null none = true
is_null (some th) = false

-- The test that `try_lock` and `lock` make, and the acquisition.
abbrev pub free_for : Mode → RwLock → Bool
free_for exclusive l = is_null l.owner && (l.share_count == 0)
free_for shared l = is_null l.owner

abbrev pub take_as : Mode → ℕ → RwLock → RwLock
take_as exclusive th l = record l { owner = some th }
take_as shared th l = record l { share_count = (l.share_count + 1) % 2 ^ 32 }

pub try_lock : Mode → ℕ → RwLock → Bool × RwLock
try_lock m th l = if free_for m l then (true, take_as m th l) else (false, l)

-- A round of `lock`: it returns, or the thread goes to sleep.
pub data Round : Type 0 where
  returned asleep : Round

pub lock : Mode → ℕ → RwLock → Round × RwLock
lock m th l =
    if free_for m l
    then (returned, take_as m th l)
    else (asleep, record l { wait_queue = l.wait_queue ++ record { thread = th; mode = m } ∷ [] })

-- The waiters that an operation wakes, or a bugcheck, which a failed assertion is too.
pub data Release : Type 0 where
  woke : List Waiter → Release
  bugcheck : Release

pub downgrade : RwLock → Release × RwLock
downgrade l =
    if is_null l.owner || not (l.share_count == 0)
    then (bugcheck, l)
    else (woke l.wait_queue, record { owner = none; share_count = 1; wait_queue = [] })

-- The owner is cleared, or the count of shares is, and everybody is woken; a share that is not the
-- last leaves the waiters asleep.
pub unlock_shared : RwLock → Release × RwLock
unlock_shared l =
    if l.share_count == 0
    then (bugcheck, l)
    else if l.share_count - 1 == 0
    then (woke l.wait_queue, record l { share_count = 0; wait_queue = [] })
    else (woke [], record l { share_count = l.share_count - 1 })

pub unlock_owner : Option ℕ → ℕ → RwLock → Release × RwLock
unfolding unlock_shared
unlock_owner none self l = unlock_shared l
unlock_owner (some th) self l =
    if (l.share_count == 0) && (th == self)
    then (woke l.wait_queue, record l { owner = none; wait_queue = [] })
    else (bugcheck, l)

pub unlock : ℕ → RwLock → Release × RwLock
unfolding unlock_owner
unlock self l = unlock_owner l.owner self l

pub is_locked : RwLock → Bool
is_locked l = not (is_null l.owner && (l.share_count == 0))

pub is_exclusive : RwLock → Bool
is_exclusive l = not (is_null l.owner)
