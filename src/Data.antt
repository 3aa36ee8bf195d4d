-- ===== src/Data.antt =====
-- `DataInfo` of src/data_info.h and src/data_info.cc: one data block of a file, kept in memory with
-- the list of the regions that were changed since it was last flushed.
pub mod Block
pub mod Update
pub mod Merge
