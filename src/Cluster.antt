-- ===== src/Cluster.antt =====
-- The cluster.
pub mod Tests
pub mod Keys
pub mod Site
pub mod Backoff
pub mod QuarantineStore
pub mod SendStallStore
pub mod LeaseStore
pub mod InstanceRegistry
pub mod Epochs
