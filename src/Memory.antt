-- ===== src/Memory.antt =====
-- Memory management: kernel/memory.
pub mod Pm
pub mod Heap
pub mod Vm
