-- ===== src/Dev.antt =====
-- The devices: kernel/dev.
pub mod Disk
pub mod Timer
pub mod Rtc
