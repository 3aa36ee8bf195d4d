-- ===== src/Cluster/Operations.antt =====
-- The operations of the distributed namespace that the file system calls, and its check at the start.
use h_flat.Base.{
  ℕ, zero, suc, ◌+◌, ◌%◌, Bool, true, false, not, List, [], ◌∷◌, ◌++◌, Option, none, some, Str,
  str_eq, ◌==◌, ltb, eqb, if◌then◌else◌, length, take, get_elem?, Fault,
}
use h_flat.World.State.{KineticRecord, WriteMode, done, dies, no_fuel}
use h_flat.Cluster.State.{
  Net, N, ◌>>=◌, ◌>>◌, pure, from_env, Partition, PartitionRef, mapped, logging, copied, Status,
  ok_code, version_mismatch, status_of, is_red, is_ok, is_other_error, is_cluster_version_mismatch,
  load_partition, store_partition,
}
use h_flat.Cluster.Drives.{get_partition_update, test_partition}
use h_flat.Cluster.Repair.{key_to_partition, read_repair}
use h_flat.Cluster.Membership.{enable_drive}
use h_flat.Cluster.Quorum.{write_operation, read_operation}

-- What `Put` makes of the record that `readRepair` left: the write took effect if it has its version.
unfoldable pub put_outcome : Str → Option KineticRecord → Status
put_outcome version none = status_of version_mismatch
put_outcome version (some r) =
    if version == r.version then status_of ok_code else status_of version_mismatch

-- What `Delete` makes of it.
unfoldable pub delete_outcome : Option KineticRecord → Status
delete_outcome none = status_of ok_code
delete_outcome (some r) = status_of version_mismatch

-- `std::operator<` on strings of bytes.
unfoldable pub str_lt : Str → Str → Bool
str_lt [] [] = false
str_lt [] (b ∷ t) = true
str_lt (a ∷ s) [] = false
str_lt (a ∷ s) (b ∷ t) =
    let rest = str_lt s t in if ltb a b then true else if eqb a b then rest else false

unfoldable pub insert_key : Str → List Str → List Str
unfolding str_lt
insert_key k [] = k ∷ []
insert_key k (l ∷ ls) = let rest = insert_key k ls in if str_lt l k then l ∷ rest else k ∷ l ∷ ls

-- `std::sort` of keys; equal keys are the same bytes.
unfoldable pub sort_keys : List Str → List Str
unfolding insert_key
sort_keys [] = []
sort_keys (k ∷ ks) = insert_key k (sort_keys ks)

module _ {S : Type 0} (net : Net S) where
  -- `readRepair`, and once more after an update of the partition.
  unfoldable pub repair_write : ℕ → Str → N S (Status × Option KineticRecord)
  unfolding key_to_partition read_repair get_partition_update
  repair_write fuel key = do
    (s, rec) ← read_repair net key none
    if not (is_cluster_version_mismatch s.code) then pure (s, rec) else (do
      ref ← key_to_partition net key
      updated ← get_partition_update net fuel ref
      if updated then read_repair net key rec else pure (s, rec))

  unfoldable pub put : ℕ → Str → Str → WriteMode → KineticRecord → N S Status
  unfolding key_to_partition write_operation repair_write put_outcome
  put fuel key current_version mode r = do
    ref ← key_to_partition net key
    result ← write_operation net fuel ref key (λ c. from_env (net.put c key current_version mode r))
    if not (is_other_error result.code) then pure result else (do
      (s, rec) ← repair_write fuel key
      pure (if is_ok s.code then put_outcome r.version rec else s))

  unfoldable pub delete : ℕ → Str → Str → WriteMode → N S Status
  unfolding key_to_partition write_operation repair_write delete_outcome
  delete fuel key version mode = do
    ref ← key_to_partition net key
    result ← write_operation net fuel ref key (λ c. from_env (net.delete c key version mode))
    if not (is_other_error result.code) then pure result else (do
      (s, rec) ← repair_write fuel key
      pure (if is_ok s.code then delete_outcome rec else s))

  unfoldable pub get : ℕ → Str → Option KineticRecord → N S (Status × Option KineticRecord)
  unfolding key_to_partition read_operation
  get fuel key rec = do
    ref ← key_to_partition net key
    read_operation net fuel ref (λ c. from_env (net.get c key)) rec

  unfoldable pub get_version : ℕ → Str → Option Str → N S (Status × Option Str)
  unfolding key_to_partition read_operation
  get_version fuel key version = do
    ref ← key_to_partition net key
    read_operation net fuel ref (λ c. from_env (net.get_version c key)) version

  abbrev pub keys_of : Option (List Str) → List Str
  keys_of none = []
  keys_of (some ks) = ks

  unfoldable pub range_on : Str → Str → ℕ → ℕ → N S (Status × Option (List Str))
  range_on start end max c = do
    (s, ks) ← from_env (net.get_key_range c start false end false max)
    pure (s, some ks)

  -- The partition after one in the cluster map.
  unfoldable pub following : Partition → N S PartitionRef
  following p w =
      if eqb (length w.cluster_map) 0
      then dies Fault.undefined
      else done
          (mapped ((elim p.partition_id [ none ↦ 0 | some id ↦ id ] + 1) % length w.cluster_map), w)

  unfoldable pub next_partition : N S (Unit {0})
  unfolding load_partition store_partition following
  next_partition = do
    p ← load_partition copied
    ref ← following p
    q ← load_partition ref
    store_partition copied q

  -- The loop of `GetKeyRange`, for the partitions that are left.
  unfoldable pub collect_keys : ℕ → ℕ → Str → Str → ℕ → List Str → N S (Status × List Str)
  unfolding read_operation range_on next_partition
  collect_keys fuel zero start end max keys = pure (status_of ok_code, keys)
  collect_keys fuel (suc n) start end max keys =
      let rest = λ (ks : List Str). collect_keys fuel n start end max ks in
      do
        (s, got) ← read_operation net fuel copied (range_on start end max) none
        if not (is_ok s.code)
            then pure (s, keys)
            else (do next_partition; rest (keys ++ keys_of got))

  -- The keys are appended to those that the caller passes, and sorted with them.
  unfoldable pub get_key_range : ℕ → Str → Str → ℕ → List Str → N S (Status × List Str)
  unfolding key_to_partition load_partition store_partition collect_keys sort_keys
  get_key_range fuel start end max keys = do
    ref ← key_to_partition net start
    p ← load_partition ref
    store_partition copied p
    (s, found) ← λ w. collect_keys fuel w.direntry_clustersize start end max keys w
    pure (if is_ok s.code then (s, take max (sort_keys found)) else (s, found))

  -- Each red drive of the partition, from drive `i` on, is tried again. The loop counts the drives
  -- that the partition has at the time.
  unfoldable pub enable_drives : ℕ → PartitionRef → ℕ → N S (Unit {0})
  unfolding load_partition enable_drive
  enable_drives zero ref i = λ w. no_fuel
  enable_drives (suc fuel) ref i =
      let rest = enable_drives fuel ref (i + 1) in
      do
        p ← load_partition ref
        elim (get_elem? p.drives i) [
          | none ↦ pure tt
          | some d ↦ if is_red d.status then (do _ ← enable_drive net fuel ref i; rest) else rest
        ]

  unfoldable pub check_partition : ℕ → PartitionRef → N S Bool
  unfolding enable_drives load_partition test_partition get_partition_update
  check_partition fuel ref = do
    enable_drives fuel ref 0
    p ← load_partition ref
    tested ← test_partition net p
    if tested then pure true else (do
      updated ← get_partition_update net fuel ref
      if not updated then pure false else (do q ← load_partition ref; test_partition net q))

  unfoldable pub check_mapped : ℕ → ℕ → List Partition → N S Bool
  unfolding check_partition
  check_mapped fuel i [] = check_partition fuel logging
  check_mapped fuel i (p ∷ ps) =
      let rest = check_mapped fuel (i + 1) ps in
      do good ← check_partition fuel (mapped i); if good then rest else pure false

  -- The check of the constructor, which throws if it fails.
  unfoldable pub self_check : ℕ → N S Bool
  unfolding check_mapped
  self_check fuel w = check_mapped fuel 0 w.cluster_map w
