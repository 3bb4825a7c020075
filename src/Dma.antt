-- ===== src/Dma.antt =====
-- vre/dma: which memory the devices may reach.
pub mod Tests
pub mod Guard
pub mod Smmu
