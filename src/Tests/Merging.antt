-- ===== src/Tests/Merging.antt =====
-- Two clients that write to one block of a namespace in memory.
use h_flat.Base.{
  ◌≡◌, refl, [], ◌∷◌, some, Str, str, str_eq, str_beq, ◌==◌, if◌then◌else◌, lookup, arith,
}
use h_flat.Data.Block.{DataInfo}
use h_flat.LruCache.Defs.{new_cache}
use h_flat.LruCache.Invariant.{IsValid, new_cache-IsValid}
use h_flat.World.State.{World, KineticRecord, di_key, di_dirty, done}
use h_flat.World.Helper.{put_data}
use h_flat.Ops.Merging.{IsMerged, put_data_lem, put_data_race}
use h_flat.Tests.Versions.{Memory, memory, versioned_memory, Readable-memory, no_cache}

-- The block was 1, 2, 3 under version 7; this client wrote 8 to its second byte.
abbrev block : DataInfo
block = record { key = str "b"; key_version = 7 ∷ []; d = 1 ∷ 8 ∷ 3 ∷ []; updates = (1, 1) ∷ [] }

-- Another client wrote 9 to the third one.
abbrev other_block : DataInfo
other_block = record block { d = 1 ∷ 2 ∷ 9 ∷ []; updates = (2, 1) ∷ [] }

abbrev writer : DataInfo → KineticRecord → World Memory
writer di rec = record {
  metadata_infos = [];
  data_infos = di ∷ [];
  lookup_cache = no_cache;
  data_cache = no_cache;
  pmap = record { snapshot_version = 0; snapshot = [] };
  inum_base = 0;
  inum_counter = 0;
  env = ((str "b", rec) ∷ [], 20);
}

abbrev old_record : KineticRecord
old_record = record { value = 1 ∷ 2 ∷ 3 ∷ []; version = 7 ∷ [] }

abbrev newer_record : KineticRecord
newer_record = record { value = 1 ∷ 2 ∷ 9 ∷ []; version = 8 ∷ [] }

no_data-IsValid : (w : World Memory) → IsValid (di_key w) no_cache
unfolding new_cache
no_data-IsValid w = new_cache-IsValid (di_key w) (di_dirty w) 1 100 2

put_data_lem_example :
    (w' : World Memory) × (merged : Str) × (version : Str) × (put_data memory 2 0
        (writer block newer_record)
      ≡ done (0, w'))
    × IsMerged block (1 ∷ 2 ∷ 9 ∷ []) merged
    × ((k : Str)
        → lookup k w'.env.0 ≡ (
            if str "b" == k
            then some (record { value = merged; version = version })
            else lookup k (writer block newer_record).env.0))
unfolding lookup str_beq
put_data_lem_example =
    put_data_lem memory versioned_memory Readable-memory 0 0 block newer_record
      (writer block newer_record) refl (no_data-IsValid (writer block newer_record)) refl
      (ground arith) ((omega arith, omega arith), tt) (omega arith) (omega arith)

put_data_race_example :
    (w₁' : World Memory) × (w₂' : World Memory) × (merged : Str) × (version : Str) × (put_data
        memory 1 0
        (writer other_block old_record)
      ≡ done (0, w₁'))
    × (put_data memory 2 0 (record (writer block old_record) { env = w₁'.env }) ≡ done (0, w₂'))
    × IsMerged block (1 ∷ 2 ∷ 9 ∷ []) merged
    × ((k : Str)
        → lookup k w₂'.env.0 ≡ (
            if str "b" == k
            then some (record { value = merged; version = version })
            else lookup k (writer other_block old_record).env.0))
unfolding lookup str_beq
put_data_race_example =
    put_data_race memory versioned_memory Readable-memory 0 0 0 other_block block
      (writer other_block old_record) (writer block old_record) refl refl
      (no_data-IsValid (writer other_block old_record)) (no_data-IsValid (writer block old_record))
      refl refl refl (ground arith) ((omega arith, omega arith), tt) (omega arith) (omega arith)
