-- ===== src/Sched.antt =====
-- core/sched: the round-robin scheduler of the vCPUs and its CPU accounting.

pub mod Stats
pub mod Scan
pub mod Switch
pub mod Run
pub mod Samples
pub mod Tests
