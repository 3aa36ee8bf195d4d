-- ===== src/Tests.antt =====
-- Runs of the theorems on concrete blocks, caches, path maps, metadata, attributes and clients.
mod Blocks
mod Caches
mod Paths
mod Permissions
mod Calls
mod Versions
mod Clusters
mod Inodes
mod Merging
mod Moves
mod Rereading
mod Startup
mod Readdir
