-- ===== src/PathMap.antt =====
-- `PathMapDB` of src/pathmap_db.h and src/pathmap_db.cc: the mapping of user paths to system paths.
pub mod Defs
pub mod Update
pub mod Log
pub mod Convergence
pub mod Search
pub mod Intercept
pub mod Unmapped
pub mod Components
pub mod Moves
pub mod Redirect
