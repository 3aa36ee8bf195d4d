-- ===== src/Tests/Versions.antt =====
-- A namespace in memory that checks versions, and two clients of it that hold the same metadata.
use h_flat.Base.{
  ℕ, ◌+◌, ◌≡◌, ◌≢◌, refl, true, [], ◌∷◌, Option, none, some, Str, str, str_eq, str_beq, str_beq_iff,
  ◌==◌, if◌then◌else◌, Dict, lookup, insert, erase, lookup-insert, lookup-erase, ap, arith,
}
use h_flat.LruCache.Defs.{LruCache, new_cache}
use h_flat.LruCache.Invariant.{IsValid, new_cache-IsValid}
use h_flat.Metadata.Defs.{update_ac_time}
use h_flat.World.State.{
  System, World, KineticRecord, Reply, Failure, WriteMode, answer, refused, remote_version_mismatch,
  require_same_version, ignore_version, MetadataInfo, no_metadata, fresh_metadata_info, md_key,
  md_dirty, done,
}
use h_flat.World.Helper.{put_metadata, put_metadata_forced, eagain, eio}
use h_flat.Ops.Sync.{change_md}
use h_flat.Ops.Rename.{rename_regular}
use h_flat.Ops.Progress.{Readable, put_metadata_forced_lem}
use h_flat.Ops.Move.{Erasing, rename_regular_lem}
use h_flat.World.Versions.{version_of, Versioned, put_metadata_race}

-- The records, and a counter for versions.
abbrev pub Memory : Type 0
Memory = Dict Str KineticRecord × ℕ

abbrev put_if : WriteMode → Str → Str → KineticRecord → Memory → Reply (Unit {0}) × Memory
put_if ignore_version k v rec (m, n) = (answer tt, (insert k rec m, n))
put_if require_same_version k v rec (m, n) =
    if version_of (lookup k m) == v
    then (answer tt, (insert k rec m, n))
    else (refused remote_version_mismatch, (m, n))

abbrev found : Option KineticRecord → Reply KineticRecord
found none = refused Failure.remote_not_found
found (some r) = answer r

abbrev pub memory : System Memory
memory = record {
  get = λ k s. (found (lookup k s.0), s);
  put = λ k v mode rec s. put_if mode k v rec s;
  delete = λ k v mode s. (answer tt, (erase k s.0, s.1));
  get_version = λ k s. (refused Failure.remote_not_found, s);
  get_key_range = λ a b n s. ([], s);
  generate_uuid = λ s. (s.1 ∷ [], (s.0, s.1 + 1));
  steady_now = λ s. (0, s);
  time = λ s. (0, s);
  stoll = λ s. none;
  serialize_md = λ md. md.mode ∷ [];
  parse_md = λ s. some no_metadata;
  serialize_entry = λ e. [];
  parse_entry = λ s. none;
  serialize_snapshot = λ e. [];
  parse_snapshot = λ s. none;
  ticks = 1;
  limits = record {
    path_max = 4096;
    name_max = 255;
    max_symlinks = 32;
    enametoolong = 36;
    eloop = 40;
  };
  context = record { uid = 1; gid = 1 };
  block_size = 8;
  posix_full = true;
}

pub memory_current :
    (k v : Str) (rec : KineticRecord) (s : Memory)
    → version_of (lookup k s.0) ≡ v
    → ((put_if require_same_version k v rec s).0 ≡ answer tt)
      × ((j : Str)
          → lookup j (put_if require_same_version k v rec s).1.0
            ≡ (if k == j then some rec else lookup j s.0))
memory_current k v rec (m, n) h = (
  ground (arith, str_beq_iff (version_of (lookup k m)) v),
  λ j. ground (arith, str_beq_iff (version_of (lookup k m)) v, lookup-insert j k rec m),
)

pub memory_stale :
    (k v : Str) (rec : KineticRecord) (s : Memory)
    → version_of (lookup k s.0) ≢ v
    → ((put_if require_same_version k v rec s).0 ≡ refused remote_version_mismatch)
      × ((j : Str) → lookup j (put_if require_same_version k v rec s).1.0 ≡ lookup j s.0)
memory_stale k v rec (m, n) h = (
  ground (arith, str_beq_iff (version_of (lookup k m)) v),
  λ j. ground (arith, str_beq_iff (version_of (lookup k m)) v),
)

abbrev pub versioned_memory : Versioned memory
versioned_memory = record {
  stored = λ k s. lookup k s.0;
  uuid_keeps = λ k s. refl;
  now_keeps = λ k s. refl;
  put_current = memory_current;
  put_stale = memory_stale;
}

-- A client that holds the metadata of one path under version 7.
abbrev held : MetadataInfo
held = record (fresh_metadata_info (str "/a")) { key_version = 7 ∷ [] }

abbrev pub no_cache : LruCache Str ℕ
no_cache = record {
  cache = [];
  lookup_map = [];
  blocked_keys = [];
  expiration_time = 100;
  capacity = 2;
  next_node = 0;
}

abbrev client : ℕ → World Memory
client version = record {
  metadata_infos = held ∷ [];
  data_infos = [];
  lookup_cache = no_cache;
  data_cache = no_cache;
  pmap = record { snapshot_version = 0; snapshot = [] };
  inum_base = 0;
  inum_counter = 0;
  env = ((str "/a", record { value = []; version = version ∷ [] }) ∷ [], 20);
}

no_cache-IsValid : (w : World Memory) → IsValid (md_key w) no_cache
unfolding new_cache
no_cache-IsValid w = new_cache-IsValid (md_key w) (md_dirty w) 1 100 2

put_metadata_race_example :
    (w₁' : World Memory) × (w₂' : World Memory) × (put_metadata memory 0 (client 7) ≡ done (0, w₁'))
    × (put_metadata memory 0 (record (client 7) { env = w₁'.env }) ≡ done (eagain, w₂'))
    × ((k : Str)
        → lookup k w₂'.env.0 ≡ (
            if str "/a" == k
            then some (record { value = memory.serialize_md held.md; version = 20 ∷ [] })
            else lookup k (client 7).env.0))
unfolding lookup str_beq
put_metadata_race_example =
    put_metadata_race memory versioned_memory 0 0 held held (client 7) (client 7) refl refl
      (no_cache-IsValid (client 7)) (no_cache-IsValid (client 7)) refl refl refl (ground arith)

pub Readable-memory : Readable memory versioned_memory
Readable-memory = record { get_stored = λ k rec s h. ap found h; get_keeps = λ k j s. refl }

Erasing-memory : Erasing memory versioned_memory
Erasing-memory = record {
  time_keeps = λ k s. refl;
  delete_stored = λ k rec s h. (refl, λ j. lookup-erase j k s.0);
}

put_metadata_forced_lem_example :
    (w' : World Memory) × (version : Str) × (put_metadata_forced memory 2 0
        (change_md memory 0 (λ md. record md { uid = 3 }))
        (client 8)
      ≡ done (0, w'))
    × ((k : Str)
        → lookup k w'.env.0 ≡ (
            if str "/a" == k
            then some (record { value = 0 ∷ []; version = version })
            else lookup k (client 8).env.0))
unfolding lookup str_beq
put_metadata_forced_lem_example =
    put_metadata_forced_lem memory versioned_memory Readable-memory 0 0
      (λ md. record md { uid = 3 }) held (record { value = []; version = 8 ∷ [] }) no_metadata
      (client 8) refl (no_cache-IsValid (client 8)) refl (ground arith) refl

-- A client that also holds the metadata of a free path.
abbrev renaming : World Memory
renaming = record (client 7) { metadata_infos = held ∷ fresh_metadata_info (str "/b") ∷ [] }

rename_regular_lem_example :
    (w' : World Memory) × (rename_regular memory 1 0 renaming
      ≡ done (if version_of (lookup (str "/b") renaming.env.0) == [] then 0 else eio, w'))
    × ((k : Str)
        → lookup k w'.env.0 ≡ (
            if version_of (lookup (str "/b") renaming.env.0) == []
            then (if str "/a" == k
                then none
                else if str "/b" == k
                then some (record { value = 0 ∷ []; version = str "0" })
                else lookup k renaming.env.0)
            else lookup k renaming.env.0))
unfolding lookup str_beq update_ac_time
rename_regular_lem_example =
    rename_regular_lem memory versioned_memory Erasing-memory 1 0 (fresh_metadata_info (str "/b"))
      held (record { value = []; version = 7 ∷ [] }) renaming refl refl (ground arith)
      (ground arith) refl
