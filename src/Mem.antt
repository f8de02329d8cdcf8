-- ===== src/Mem.antt =====
-- kernel/mem: the two allocators.
pub mod PhTree
pub mod Buddy
