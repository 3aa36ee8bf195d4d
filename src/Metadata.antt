-- ===== src/Metadata.antt =====
-- The metadata of an inode: src/proto/metadata.proto, src/metadata_info.cc, and the permission
-- checks of src/lookup.cc, src/fuseops/file.cc and src/fuseops/permission.cc.
pub mod Defs
pub mod Reachability
