-- ===== src/Startup.antt =====
-- The start of the file system: src/main.cc.
pub mod Config
pub mod Arguments
pub mod Partitions
pub mod Described
pub mod Init
