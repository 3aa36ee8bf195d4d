-- ===== src/Lib.antt =====
-- h-flat is a POSIX file system over a flat key-value namespace of network drives. Metadata is
-- stored under the path of its inode, so a lookup needs one request; what a hierarchy would give for
-- free, directory moves, links and the permissions along a path, is kept in a path map that every
-- client holds a snapshot of, and whose history is a log in the namespace.
--
-- The parts, and the files that model them:
--
-- Base, Paths: lists, maps, outcomes and byte strings that the others share. `Exec` is the outcome
--   of a C++ call: a value, a failed assertion, an exception that nothing catches, or undefined
--   behaviour.
-- Data: `DataInfo` of src/data_info.cc, a data block with its recorded updates. Block has the
--   methods, Update is about writes, Merge about `mergeDataChanges`.
-- LruCache: the template `LRUcache` of src/lru_cache.h, which caches metadata and blocks. Defs has
--   the methods, with node numbers for the iterators of the list; Invariant its validity and `get`,
--   Eviction and Adding are about `add`, Blocking about `block` and `invalidate`, Present about what
--   `get` finds, Reach about any sequence of calls.
-- PathMap: `PathMapDB` of src/pathmap_db.cc. Defs has the search and `toSystemPath`, Update the
--   methods that change the snapshot and its serialized form; Components has the predicates on
--   paths, and Search, Unmapped, Log, Convergence, Intercept, Moves and Redirect have the theorems,
--   the last two on directories that are moved.
-- Metadata: `hflat::Metadata` of src/proto/metadata.proto and the path permissions: what
--   `computePathPermissionChildren` of src/metadata_info.cc introduces, what
--   `inherit_path_permissions` of src/fuseops/file.cc passes on, what `check_path_permissions` of
--   src/lookup.cc and `check_access` of src/fuseops/permission.cc decide.
-- World: the state `hflat_priv` of src/main.h with the objects that its caches share, on a heap;
--   State has it and the monad of a call, Helper src/namespace/kinetic_helper.cc, Util src/util.cc,
--   Lookup src/lookup.cc; Names is about the parts of a path, Versions about writes of metadata
--   against a namespace that checks versions, Post about the parts of a call, and Inodes, Apart and
--   Uniqueness are about the inode numbers that several clients generate.
-- Cluster: `DistributedKineticNamespace` of src/namespace/distributed_kinetic_namespace.cc, over the
--   partitions of src/proto/replication.proto: State has the state and the monad of its calls,
--   Drives connections and the updates of a partition, Membership drives that leave and come back,
--   Repair the partition of a key and `readRepair`, Quorum reads and writes on the drives of a
--   partition, Operations what the file system calls and the check at the start, Capacity the
--   estimate of the capacity, how `Put` and `Delete` change it, and the constructor; Keys, Safety
--   with its helper Evaluating, Reading with its helper Retries, Ranges, Disabling and the helpers
--   Post and Frames have theorems.
-- Simple: `SimpleKineticNamespace` of src/namespace/simple_kinetic_namespace.cc, a single drive.
-- PathChange: iointercept/pathchange.cc, by which the interception library rewrites paths; Calls and
--   Linux are the library calls of iointercept/iointercept.cc; Real, Mounts, RoundTrip and Linux
--   have theorems.
-- Ops: the handlers, over World: Rw and Truncate are src/fuseops/data.cc, Sync is
--   src/fuseops/sync.cc, Permission src/fuseops/permission.cc, Xattr src/fuseops/xattr.cc, Create
--   src/fuseops/file.cc and src/fuseops/directory.cc, Unlink the removal of files and directories of
--   the same two, Link src/fuseops/link.cc, Rename src/fuseops/rename.cc, Stat src/fuseops/attr.cc
--   with opening and reading directories, Fsck src/fsck/fsck.cc, Handlers those that only pass a
--   call on and `hflat_statfs`, Mount the end of `hflat_init` in src/main.cc; Blocks, Fetching,
--   Written, Rereading, Attributes, Listing, Ownership, Progress, Move, Merging, Keys and Readdir
--   have theorems about them.
-- Startup: src/main.cc. Config is `parse_configuration`, Arguments the arguments of `main`, Init the
--   first part of `hflat_init`; Described with its helper Partitions, and Arguments, have theorems.
-- Tools: the command of tools/tools.cc.
-- Tests: the theorems at concrete blocks, caches, path maps, metadata, attributes, clients, drives
--   and configurations.
--
-- How they interact: a handler of Ops calls `lookup`, which maps the user path by PathMap, gets the
-- metadata through the first LruCache or from the namespace, and checks the path permissions. It
-- then changes the metadata or a block on the heap and writes it back by a helper, whose version
-- check makes it start again if another client was faster; a block is merged instead. A change of
-- the path map is appended to the log and applied by `update_snapshot`.
--
-- The drives behind `KineticNamespace`, the protobuf encoding, the clocks, the UUIDs, `std::stoll`
-- and the limits of the system's headers are the record `System`, which the definitions take; what a
-- namespace promises about versions is the record `Versioned`, about reads `Readable`, about
-- deletions `Erasing` about the key of the inode numbers, where requests may fail, `Counting`, and
-- about the keys in a range `Listing`, which theorems take. The client library of the drives is the
-- record `Net`, the one that reads the configuration file `LibConfig`, the system calls of the tool
-- `Machine`, and floating point numbers are the record `Floats`; the threads that a write starts run
-- in their order, before the log is written. One call runs at a time, and the thread by which
-- `hflat_unlink` deletes data runs when it is started: a call that would wait for a key which
-- another thread has blocked ends as `waiting`. Error numbers are written out for Linux; ENOATTR is
-- ENODATA, 61.
--
-- Numbers: sizes, offsets and versions are natural numbers; the 32-bit fields of the metadata wrap
-- around where a wider value is stored, the unsigned differences of `std::string` are written out,
-- and blocks are bounded by 1 MiB as the assertions say. Fuel: `search_path_recursive` runs on fuel,
-- and one more than the length of the path is enough; so does `walk`, for which two more than the
-- limit on links is enough in a snapshot of links. A snapshot with moves may map paths in a circle,
-- and there the fuel is a bound only. The retries of `put_metadata_forced`, `put_data`,
-- `grab_inode_generation_token`, `database_operation`, `lookup`, the handlers and those in Cluster
-- run on fuel too: how often they start again depends on the other clients, so an exhausted fuel is
-- a result of its own. For `put_metadata_forced` and `put_data` a fuel of two is enough against one
-- newer version. The loop of `_realpath` needs one more than the length of a clean path.
--
-- Not modelled: the table of the handlers and `hflat_destroy` in src/main.cc; the variants for
-- another platform in iointercept and tools/tools.cc; the locks and the condition variable of the
-- cache, printing and logging. `mergeMD` of src/metadata_info.cc stands in a comment of the source.
pub mod Base
pub mod Data
pub mod LruCache
pub mod Paths
pub mod PathChange
pub mod PathMap
pub mod Metadata
pub mod World
pub mod Cluster
pub mod Simple
pub mod Ops
pub mod Startup
pub mod Tools
pub mod Tests
