-- ===== src/Tests/Rereading.antt =====
-- A client that writes behind the end of a file of three bytes, and reads the file before it flushes.
use h_flat.Base.{
  ℕ, ◌+◌, ◌-◌, ◌*◌, min, ◌/◌, str_beq, ◌≤◌, ◌<◌, ◌≡◌, ◌⊎◌, refl, [], ◌∷◌, some, str, length, str_eq,
  lookup, insert, arith,
}
use h_flat.Data.Update.{byte}
use h_flat.LruCache.Defs.{misses, erase_key}
use h_flat.Metadata.Defs.{Metadata}
use h_flat.World.State.{World, no_metadata, done}
use h_flat.Ops.Rw.{Transfer, do_rw, reading, writing, data_cache_get, block_key}
use h_flat.Ops.Rereading.{do_rw-do_rw, do_rw_growing}
use h_flat.Tests.Versions.{Memory, memory, no_cache}

abbrev three_bytes : Metadata
three_bytes = record no_metadata { inode_number = 5; size = 3 }

-- The namespace holds 1, 2, 3; the cache is empty.
abbrev before : World Memory
before = record {
  metadata_infos = [];
  data_infos = [];
  lookup_cache = no_cache;
  data_cache = no_cache;
  pmap = record { snapshot_version = 0; snapshot = [] };
  inum_base = 0;
  inum_counter = 0;
  env = ((str "5_0", record { value = 1 ∷ 2 ∷ 3 ∷ []; version = 7 ∷ [] }) ∷ [], 20);
}

abbrev answered : Transfer memory
answered = record { err = 0; count = 2; di = some 0; buf = 8 ∷ 9 ∷ [] }

abbrev after : World Memory
after = record before {
  data_infos =
      record {
        key = str "5_0";
        key_version = [];
        d = 0 ∷ 0 ∷ 0 ∷ 8 ∷ 9 ∷ [];
        updates = (3, 2) ∷ [];
      }
      ∷ [];
  data_cache = record no_cache {
    cache = (0, record { item = 0; time = 0 }) ∷ [];
    lookup_map = (str "5_0", 0) ∷ [];
    next_node = 1;
  };
}

before-after : do_rw memory (8 ∷ 9 ∷ []) 2 3 three_bytes writing before ≡ done (answered, after)
unfolding do_rw lookup insert str_beq erase_key
before-after = refl

do_rw-do_rw_example :
    (t' : Transfer memory) × (w'' : World Memory) × (do_rw memory [] 5 0 three_bytes reading after
      ≡ done (t', w''))
    × (t'.err ≡ 0)
    × (answered.count ≡ min 2 (8 - (3 - 3 / 8 * 8)))
    × (t'.count ≡ min 5 (8 - (0 - 0 / 8 * 8)))
    × (length t'.buf ≡ 5)
    × ((i : ℕ)
        → i < t'.count
        → 3 ≤ 0 + i
        → 0 + i < 3 + answered.count
        → byte t'.buf i ≡ byte (8 ∷ 9 ∷ []) (0 + i - 3))
do_rw-do_rw_example =
    do_rw-do_rw memory (8 ∷ 9 ∷ []) [] 2 5 3 0 three_bytes three_bytes before after answered
      before-after refl refl refl

missed :
    data_cache_get memory (block_key memory three_bytes.inode_number (3 / memory.block_size)) before
    ≡ done (misses, before)
unfolding data_cache_get block_key lookup str_beq
missed = refl

do_rw_growing_example :
    (t' : Transfer memory) × (w'' : World Memory) × (do_rw memory [] 5 0 three_bytes reading after
      ≡ done (t', w''))
    × (t'.err ≡ 0)
    × (t'.count ≡ min 5 (8 - (0 - 0 / 8 * 8)))
    × (length t'.buf ≡ 5)
    × ((i : ℕ) → i < t'.count → (0 + i < 3) ⊎ (3 + answered.count ≤ 0 + i) → byte t'.buf i ≡ 0)
do_rw_growing_example =
    do_rw_growing memory (8 ∷ 9 ∷ []) [] 2 5 3 0 three_bytes three_bytes before before after
      answered missed (omega arith) before-after refl refl refl
