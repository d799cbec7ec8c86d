-- ===== src/Cfs.antt =====
-- The completely fair scheduler: src/fair.c, src/sched.c, include/sched.h.
pub mod Load
pub mod Vruntime
pub mod State
pub mod Queue
pub mod Timeline
pub mod Slice
pub mod Tick
pub mod Schedule
