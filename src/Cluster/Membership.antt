-- ===== src/Cluster/Membership.antt =====
-- Drives that leave a partition and come back: `disableDrive`, `enableDrive`, `synchronizeDrive`.
use h_flat.Base.{
  ℕ, zero, suc, ◌+◌, Bool, true, false, not, ◌&&◌, List, [], ◌∷◌, ◌++◌, Option, none, some, Str,
  str, eqb, if◌then◌else◌, length, drop, erase, reverse,
}
use h_flat.Paths.{to_string}
use h_flat.World.State.{KineticRecord, ignore_version, done, no_fuel}
use h_flat.Cluster.State.{
  Net, N, ◌>>=◌, ◌>>◌, pure, from_env, in_env, Partition, PartitionRef, logging, Drive, DriveStatus,
  Status, green, yellow, red, is_green, is_red, is_ok, is_cluster_version_mismatch, version_up,
  version_down, set_drive_status, load_partition, store_partition, drive_of,
}
use h_flat.Cluster.Drives.{
  drive_eq, drive_to_connection, test_partition, get_partition_update, put_partition_update,
}
use h_flat.Cluster.Repair.{read_repair}

abbrev pub all_drives : (DriveStatus → Bool) → List Drive → Bool
all_drives f [] = true
all_drives f (d ∷ ds) = f d.status && all_drives f ds

abbrev pub not_red : DriveStatus → Bool
not_red s = not (is_red s)

abbrev pub any_not_red : List Drive → Bool
any_not_red ds = not (all_drives is_red ds)

abbrev pub is_unset : Option ℕ → Bool
is_unset none = true
is_unset (some l) = false

-- The prefix of the keys in the log of a partition.
unfoldable pub log_prefix : Partition → Str
unfolding to_string
log_prefix p = to_string (elim p.partition_id [ none ↦ 0 | some id ↦ id ]) ++ str "log_"

-- The partition with a drive that failed, at its next version.
unfoldable pub without_drive : ℕ → Partition → Partition
unfolding set_drive_status
without_drive i p =
    let q = set_drive_status i red p in record q { cluster_version = version_up q.cluster_version }

-- The partition with a drive that is synchronized: the log goes once every drive is green.
unfoldable pub with_synchronized : ℕ → Partition → Partition
unfolding set_drive_status
with_synchronized i p =
    let q = set_drive_status i green p in
    record q {
      cluster_version = version_up q.cluster_version;
      log_id = if all_drives is_green q.drives then none else q.log_id;
    }

module _ {S : Type 0} (net : Net S) where
  -- A random drive of a kind: draws until one is found.
  unfoldable pub pick_drive : ℕ → (DriveStatus → Bool) → Partition → N S ℕ
  unfolding drive_of
  pick_drive zero f p = λ w. no_fuel
  pick_drive (suc fuel) f p =
      let again = pick_drive fuel f p in
      do
        i ← from_env (net.uniform (length p.drives))
        d ← drive_of p i
        if f d.status then pure i else again

  -- Only a partition without a log, all of whose drives are green, is given a drive that logs.
  unfoldable pub add_log_drive : ℕ → Partition → N S Partition
  unfolding load_partition pick_drive
  add_log_drive fuel p = do
    logs ← load_partition logging
    if is_unset p.log_id && (all_drives is_green p.drives && any_not_red logs.drives)
        then (do l ← pick_drive fuel not_red logs; pure (record p { log_id = some l }))
        else pure p

  unfoldable pub disconnect : Drive → N S (Unit {0})
  disconnect d w = done (tt, record w { connection_map = erase (d.host, d.port) w.connection_map })

  unfoldable pub disable_drive : ℕ → PartitionRef → ℕ → N S Bool
  unfolding load_partition drive_of add_log_drive without_drive store_partition test_partition
      put_partition_update get_partition_update disconnect
  disable_drive zero ref i = λ w. no_fuel
  disable_drive (suc fuel) ref i =
      let again = disable_drive fuel ref i in
      do
        p ← load_partition ref
        d ← drive_of p i
        if is_red d.status then pure true else (do
          q ← add_log_drive fuel p
          store_partition ref (without_drive i q)
          tested ← test_partition net (without_drive i q)
          if not tested then pure false else (do
            written ← put_partition_update net (without_drive i q)
            if written then (do disconnect d; pure true) else (do
              updated ← get_partition_update net fuel ref
              if updated then again else pure false)))

  -- The keys of one page, repaired one by one. The pointer to the record is the same for all keys.
  unfoldable pub repair_keys :
      ℕ
      → Option ℕ
      → Str
      → Bool
      → List Str
      → Option KineticRecord
      → N S (Bool × Option KineticRecord)
  unfolding read_repair
  repair_keys c log_id prefix complete [] rec = pure (true, rec)
  repair_keys c log_id prefix complete (k ∷ ks) rec =
      let rest = λ (r : Option KineticRecord). repair_keys c log_id prefix complete ks r in
      do
        (status, rec') ←
            read_repair net (elim log_id [ none ↦ k | some l ↦ drop (length prefix) k ]) rec
        if not (is_ok status.code) then pure (false, rec') else (do
          (if complete && not (is_unset log_id)
              then (do _ ← from_env (net.delete c k [] ignore_version); pure tt)
              else pure tt)
          rest rec')

  abbrev pub last_or : Str → List Str → Str
  last_or k ks = elim (reverse ks) [ [] ↦ k | l ∷ ls ↦ l ]

  -- Page after page of at most 100 keys, each from the last key of the one before.
  unfoldable pub repair_pages :
      ℕ → ℕ → Option ℕ → Str → Bool → Str → Str → Option KineticRecord → N S Bool
  unfolding repair_keys
  repair_pages zero c log_id prefix complete start end rec = λ w. no_fuel
  repair_pages (suc fuel) c log_id prefix complete start end rec =
      let next = λ (k : Str) (r : Option KineticRecord).
        repair_pages fuel c log_id prefix complete k end r in
      do
        (status, keys) ← from_env (net.get_key_range c start true end true 100)
        if not (is_ok status.code) then pure false else (do
          (repaired, rec') ← repair_keys c log_id prefix complete keys rec
          if not repaired
              then pure false
              else if eqb (length keys) 100
              then next (last_or start keys) rec'
              else pure true)

  -- The drive that tells which keys to repair: the one that logs, or else a green one.
  unfoldable pub source_of_keys : ℕ → Partition → N S (Option ℕ)
  unfolding load_partition drive_to_connection pick_drive
  source_of_keys fuel p = elim p.log_id [
    | some l ↦ do logs ← load_partition logging; drive_to_connection net logs l
    | none ↦ do i ← pick_drive fuel is_green p; drive_to_connection net p i
  ]

  -- The end of `synchronizeDrive`: the log that was cleared is not set again if the update fails.
  unfoldable pub mark_synchronized : PartitionRef → ℕ → N S Bool
  unfolding load_partition store_partition with_synchronized put_partition_update set_drive_status
  mark_synchronized ref i = do
    p ← load_partition ref
    let q = with_synchronized i p
    store_partition ref q
    written ← put_partition_update net q
    if written then pure true else (do
      let back = set_drive_status i yellow q
      store_partition ref (record back { cluster_version = version_down back.cluster_version })
      pure false)

  abbrev pub is_yellow : DriveStatus → Bool
  is_yellow green = false
  is_yellow yellow = true
  is_yellow red = false

  unfoldable pub synchronize_drive : ℕ → PartitionRef → ℕ → N S Bool
  unfolding load_partition drive_of source_of_keys log_prefix repair_pages mark_synchronized
  synchronize_drive fuel ref i = do
    p ← load_partition ref
    d ← drive_of p i
    if not (is_yellow d.status) then pure false else (do
      con ← source_of_keys fuel p
      let prefix = if is_unset p.log_id then [] else log_prefix p
      elim con [
        | none ↦ pure false
        | some c ↦ do
          repaired ←
              repair_pages fuel c p.log_id (log_prefix p) (all_drives not_red p.drives)
                (prefix ++ str " ") (prefix ++ str "|") none
          if repaired then mark_synchronized ref i else pure false
      ])

  -- The cluster version that a drive expects, found by trying all from 0 on.
  unfoldable pub probe_version : ℕ → ℕ → ℕ → N S Status
  probe_version zero c version = λ w. no_fuel
  probe_version (suc fuel) c version =
      let next = probe_version fuel c (version + 1) in
      do
        in_env (net.set_client_cluster_version c version)
        status ← from_env (net.no_op c)
        if is_cluster_version_mismatch status.code then next else pure status

  unfoldable pub give_up_enabling : PartitionRef → ℕ → N S Bool
  unfolding load_partition set_drive_status store_partition
  give_up_enabling ref i = do
    p ← load_partition ref
    let back = set_drive_status i red p
    store_partition ref (record back { cluster_version = version_down back.cluster_version })
    pure false

  unfoldable pub enable_drive : ℕ → PartitionRef → ℕ → N S Bool
  unfolding load_partition drive_of drive_to_connection probe_version set_drive_status
      store_partition test_partition put_partition_update get_partition_update synchronize_drive
      give_up_enabling
  enable_drive zero ref i = λ w. no_fuel
  enable_drive (suc fuel) ref i =
      let again = enable_drive fuel ref i in
      do
        p ← load_partition ref
        d ← drive_of p i
        if not (is_red d.status) then pure true else (do
          con ← drive_to_connection net p i
          elim con [
            | none ↦ pure false
            | some c ↦ do
              status ← probe_version fuel c 0
              if not (is_ok status.code) then pure false else (do
                let q = set_drive_status i yellow p
                let p' = record q { cluster_version = version_up q.cluster_version }
                store_partition ref p'
                tested ← test_partition net p'
                if not tested then give_up_enabling ref i else (do
                  written ← put_partition_update net p'
                  if written then (do _ ← synchronize_drive fuel ref i; pure true) else (do
                    updated ← get_partition_update net fuel ref
                    if updated then again else give_up_enabling ref i)))
          ])
