-- ===== src/Process.antt =====
-- kernel/process: the handle table of a process and the scheduler's queues.
pub mod Handles
pub mod Thread
pub mod Queue
pub mod Scheduler
pub mod Objects
