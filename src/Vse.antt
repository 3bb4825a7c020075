-- ===== src/Vse.antt =====
-- vse/: the security engine of the hypervisor.

pub mod State
pub mod Samples
pub mod Level
pub mod Failover
pub mod Trust
pub mod Only
pub mod Ids
pub mod FaultDetect
