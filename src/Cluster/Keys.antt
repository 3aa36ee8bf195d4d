-- ===== src/Cluster/Keys.antt =====
-- Where the keys of a directory's entries are, and the order in which `GetKeyRange` returns keys.
use h_flat.Base.{
  ℕ, ◌+◌, ◌%◌, ◌^◌, ◌<◌, ◌≤◌, ◌≡◌, ◌≢◌, refl, true, false, [], ◌∷◌, ◌++◌, none, Str, take-length,
  length-append, arith,
}
use native.Mathlib.Nat.{mod-lt, mod-add-mod, mod-eq_of_lt}
use h_flat.Paths.{find_first, find_first-append}
use h_flat.Cluster.Repair.{directory_part, names_entry, partition_index}

-- The key of a directory's entry, and with no name the key that all of them follow.
abbrev pub entry_key : Str → Str → Str
entry_key ino name = ino ++ (b'|' ∷ name)

directory_part-entry_key :
    (ino name : Str) → find_first b'|' ino ≡ none → directory_part (entry_key ino name) ≡ ino
unfolding directory_part
directory_part-entry_key ino name h =
    rw (directory_part, find_first-append b'|' ino name h) (take-length ino (b'|' ∷ name))

names_entry-entry_key :
    (ino name : Str)
    → find_first b'|' ino ≡ none
    → name ≢ []
    → names_entry (entry_key ino name) ≡ true
unfolding names_entry
names_entry-entry_key ino [] h named = absurd (named refl)
names_entry-entry_key ino (c ∷ name) h named =
    ground (arith, find_first-append b'|' ino (c ∷ name) h, length-append ino (b'|' ∷ c ∷ name))

names_entry-entry_key_nil :
    (ino : Str) → find_first b'|' ino ≡ none → names_entry (entry_key ino []) ≡ false
unfolding names_entry
names_entry-entry_key_nil ino h =
    ground (arith, find_first-append b'|' ino [] h, length-append ino (b'|' ∷ []))

-- The entries of a directory lie in the partitions that follow, around the cluster map, the one that
-- the key of the directory with no name belongs to: fewer than the configured number after it. The
-- hash of the directory leaves room for that number below 2^64.
pub partition_index-entry_key :
    (hash : Str → ℕ) (clustersize partitions : ℕ) (ino name : Str)
    → 0 < clustersize
    → hash ino + clustersize ≤ 2 ^ 64
    → find_first b'|' ino ≡ none
    → name ≢ []
    → (j : ℕ) × (j < clustersize)
      × (partition_index hash clustersize partitions (entry_key ino name)
          ≡ (partition_index hash clustersize partitions (entry_key ino []) + j) % partitions)
unfolding partition_index
partition_index-entry_key hash clustersize partitions ino name some_partition room plain named =
    let j = hash (entry_key ino name) % clustersize in
    let j-lt = mod-lt (hash (entry_key ino name)) some_partition in
    (
      j,
      j-lt,
      rw
          (
            partition_index,
            names_entry-entry_key ino name plain named,
            names_entry-entry_key_nil ino plain,
            directory_part-entry_key ino name plain,
            directory_part-entry_key ino [] plain,
            mod-add-mod (hash ino) partitions j,
            mod-eq_of_lt {n = hash ino + j} {m = 2 ^ 64} (omega (arith, j-lt)),
          )
          refl,
    )
