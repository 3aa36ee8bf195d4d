-- ===== src/Cluster.antt =====
-- src/namespace/distributed_kinetic_namespace.cc: a namespace that is partitioned over drives, each
-- partition replicated on several.
pub mod State
pub mod Drives
pub mod Membership
pub mod Repair
pub mod Quorum
pub mod Operations
pub mod Capacity
pub mod Keys
mod Post
mod Frames
pub mod Evaluating
pub mod Safety
pub mod Ranges
pub mod Retries
pub mod Reading
pub mod Disabling
