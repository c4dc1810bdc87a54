-- ===== src/Sync.antt =====
-- The synchronisation objects: kernel/sync.
pub mod SpinLock
pub mod RwLock
pub mod Semaphore
pub mod Event
pub mod Pipe
