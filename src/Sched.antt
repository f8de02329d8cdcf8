-- ===== src/Sched.antt =====
-- kernel/proc/sched.hh, sched.cpp: the scheduler.
pub mod Isqrt
pub mod Weights
pub mod Dfs
pub mod Cycle
