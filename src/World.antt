-- ===== src/World.antt =====
-- The file system's private data, the namespace it runs on, and the calls that move data between
-- them: src/main.h, src/namespace/kinetic_namespace.h and src/namespace/kinetic_helper.cc.
pub mod State
pub mod Post
pub mod Helper
pub mod Util
pub mod Lookup
pub mod Names
pub mod Versions
pub mod Inodes
pub mod Apart
pub mod Uniqueness
