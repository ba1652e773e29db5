-- ===== src/Ranging.antt =====
-- src/ranging and include/uwb/ranging: from timestamps to a distance that can be trusted.
pub mod Hopping
pub mod Distance
pub mod Consensus
pub mod Nlos
pub mod Stability
pub mod Aoa
