-- ===== src/Ops.antt =====
-- The handlers that the file system registers with FUSE: src/fuseops.
pub mod Sync
pub mod Rw
pub mod Truncate
pub mod Permission
pub mod Xattr
pub mod Create
pub mod Attributes
pub mod Ownership
pub mod Blocks
pub mod Fetching
pub mod Written
pub mod Rereading
pub mod Listing
pub mod Unlink
pub mod Rename
pub mod Stat
pub mod Progress
pub mod Move
pub mod Fsck
pub mod Mount
pub mod Handlers
pub mod Keys
pub mod Readdir
pub mod Merging
pub mod Link
