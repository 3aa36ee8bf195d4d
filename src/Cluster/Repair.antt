-- ===== src/Cluster/Repair.antt =====
-- Which partition holds a key, and `readRepair`, which makes its drives agree on a key.
use h_flat.Base.{
  ℕ, ◌+◌, ◌-◌, ◌%◌, ◌^◌, Bool, true, false, not, ◌&&◌, ◌||◌, List, [], ◌∷◌, Option, none, some, Str,
  str_eq, ◌==◌, eqb, if◌then◌else◌, length, take, Fault,
}
use h_flat.Paths.{find_first}
use h_flat.World.State.{KineticRecord, require_same_version, done, dies}
use h_flat.Cluster.State.{
  Net, N, ◌>>=◌, pure, from_env, Partition, PartitionRef, mapped, Drive, Status, Code, ok_code,
  status_of, is_green, is_red, is_ok, is_not_found, is_version_mismatch, load_partition,
}
use h_flat.Cluster.Drives.{drive_to_connection}

-- What stands in front of the bar in a directory entry's key; another key is whole.
unfoldable pub directory_part : Str → Str
unfolding find_first
directory_part key = elim (find_first b'|' key) [ none ↦ key | some i ↦ take i key ]

-- A bar that is not the last byte: the key names an entry of a directory.
unfoldable pub names_entry : Str → Bool
unfolding find_first
names_entry key = elim (find_first b'|' key) [
  | none ↦ false
  | some i ↦ not (eqb i (length key - 1))
]

-- The index of a key's partition; the sum of the hashes is an unsigned 64-bit number.
unfoldable pub partition_index : (Str → ℕ) → ℕ → ℕ → Str → ℕ
unfolding directory_part names_entry
partition_index hash clustersize partitions key =
    let base = hash (directory_part key) in
    if names_entry key
    then (base + hash key % clustersize) % 2 ^ 64 % partitions
    else base % partitions

-- A null connection that the code calls a method of.
abbrev pub deref_connection : {S : Type 0} → Option ℕ → N S ℕ
deref_connection none w = dies Fault.undefined
deref_connection (some c) w = done (c, w)

abbrev pub or_left : {A : Type 0} → Option A → Option A → Option A
or_left none old = old
or_left (some a) old = some a

abbrev pub or_empty : Option Str → Str
or_empty none = []
or_empty (some v) = v

-- The first green drive, from index `i` on.
unfoldable pub first_green : ℕ → List Drive → Option ℕ
first_green i [] = none
first_green i (d ∷ ds) =
    let rest = first_green (i + 1) ds in if is_green d.status then some i else rest

module _ {S : Type 0} (net : Net S) where
  -- A modulus of 0 is undefined.
  unfoldable pub key_to_partition : Str → N S PartitionRef
  unfolding partition_index names_entry
  key_to_partition key w =
      if eqb (length w.cluster_map) 0 || (names_entry key && eqb w.direntry_clustersize 0)
      then dies Fault.undefined
      else done
          (mapped (partition_index net.hash w.direntry_clustersize (length w.cluster_map) key), w)

  -- The reference record enforced on one drive, which holds the key under a version or not at all;
  -- `none` if the drive is in order already.
  unfoldable pub enforce_on : ℕ → Str → Option KineticRecord → Bool → Str → N S (Option Status)
  enforce_on c key none true version = do
    s ← from_env (net.delete c key version require_same_version)
    pure (some s)
  enforce_on c key none false version = pure (some (status_of Code.not_found))
  enforce_on c key (some r) holds version =
      if holds && (version == r.version)
      then pure none
      else (do s ← from_env (net.put c key version require_same_version r); pure (some s))

  -- The loop of `readRepair` from drive `i` on; `reference` is the first green drive.
  unfoldable pub enforce : Partition → ℕ → Str → Option KineticRecord → ℕ → List Drive → N S Status
  unfolding drive_to_connection enforce_on
  enforce p reference key rec i [] = pure (status_of ok_code)
  enforce p reference key rec i (d ∷ ds) =
      let rest = enforce p reference key rec (i + 1) ds in
      if is_red d.status then rest else (do
        con ← drive_to_connection net p i
        c ← deref_connection con
        (status, got) ← from_env (net.get_version c key)
        if not (is_ok status.code) && not (is_not_found status.code) then pure status else (do
          enforced ← enforce_on c key rec (is_ok status.code) (or_empty got)
          elim enforced [
            | none ↦ rest
            | some s ↦
                if not (is_ok s.code)
                  && (not (is_not_found s.code) && not (is_version_mismatch s.code))
                then pure s
                else if is_version_mismatch s.code && eqb reference i
                then pure (status_of ok_code)
                else rest
          ]))

  -- The record is what the pointer that the caller passes holds; a `Get` that does not find the key
  -- leaves it as it is.
  unfoldable pub read_repair : Str → Option KineticRecord → N S (Status × Option KineticRecord)
  unfolding key_to_partition load_partition first_green drive_to_connection enforce
  read_repair key rec = do
    ref ← key_to_partition key
    p ← load_partition ref
    elim (first_green 0 p.drives) [
      | none ↦ λ w. dies Fault.assertion
      | some g ↦ do
        con ← drive_to_connection net p g
        c ← deref_connection con
        (status, got) ← from_env (net.get c key)
        let rec' = or_left got rec
        if not (is_ok status.code) && not (is_not_found status.code)
            then pure (status, rec')
            else (do result ← enforce p g key rec' 0 p.drives; pure (result, rec'))
    ]
