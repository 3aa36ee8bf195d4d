-- ===== src/Cluster/Quorum.antt =====
-- `writeOperation`, `evaluateWriteOperation` and `readOperation` of the distributed namespace.
use h_flat.Base.{
  ℕ, zero, suc, ◌+◌, Bool, true, false, ◌&&◌, List, [], ◌∷◌, ◌++◌, Option, none, some, Str, eqb,
  if◌then◌else◌, get_elem?, Fault,
}
use h_flat.World.State.{ignore_version, done, dies, no_fuel}
use h_flat.Cluster.State.{
  Net, N, ◌>>=◌, ◌>>◌, pure, from_env, Partition, PartitionRef, logging, Drive, Status, Code,
  ok_code, not_found, version_mismatch, cluster_version_mismatch, not_authorized, connection_error,
  other_error, further_code, status_of, is_green, is_red, is_ok, is_cluster_version_mismatch,
  version_up, load_partition, store_partition,
}
use h_flat.Cluster.Drives.{drive_to_connection, get_partition_update, put_partition_update}
use h_flat.Cluster.Repair.{deref_connection, first_green, or_left}
use h_flat.Cluster.Membership.{disable_drive, log_prefix, pick_drive, all_drives, not_red}

abbrev pub code_number : Code → ℕ
code_number ok_code = 0
code_number not_found = 1
code_number version_mismatch = 2
code_number cluster_version_mismatch = 3
code_number not_authorized = 4
code_number connection_error = 5
code_number other_error = 6
code_number further_code = 7

abbrev pub same_code : Code → Code → Bool
same_code a b = eqb (code_number a) (code_number b)

-- A status after which a write takes the drive out of its partition.
abbrev pub fails_drive : Code → Bool
fails_drive ok_code = false
fails_drive version_mismatch = false
fails_drive not_authorized = false
fails_drive _ = true

-- A status after which a read takes the drive out of its partition.
abbrev pub fails_reader : Code → Bool
fails_reader ok_code = false
fails_reader not_found = false
fails_reader not_authorized = false
fails_reader _ = true

unfoldable pub first_mismatch : List Status → Option Status
first_mismatch [] = none
first_mismatch (s ∷ ss) =
    let rest = first_mismatch ss in if is_cluster_version_mismatch s.code then some s else rest

module _ {S : Type 0} where
  -- `results.at(i)`, which checks its index.
  unfoldable pub result_at : List Status → ℕ → N S Status
  result_at results i w = elim (get_elem? results i) [
    | none ↦ dies Fault.out_of_range
    | some s ↦ done (s, w)
  ]

  -- Whether all drives but the red ones, from drive `i` on, answered with a code.
  unfoldable pub all_equal : Code → List Status → ℕ → List Drive → N S Bool
  unfolding result_at
  all_equal code results i [] = pure true
  all_equal code results i (d ∷ ds) =
      let rest = all_equal code results (i + 1) ds in
      if is_red d.status
      then rest
      else (do s ← result_at results i; same ← rest; pure (same_code s.code code && same))

  -- The first drive, from `i` on, to take out of the partition, with its status.
  unfoldable pub first_failed : List Status → ℕ → List Drive → N S (Option (ℕ × Status))
  unfolding result_at
  first_failed results i [] = pure none
  first_failed results i (d ∷ ds) =
      let rest = first_failed results (i + 1) ds in
      if is_red d.status
      then rest
      else (do s ← result_at results i; if fails_drive s.code then pure (some (i, s)) else rest)

module _ {S : Type 0} (net : Net S) where
  unfoldable pub evaluate_write : ℕ → PartitionRef → List Status → N S Status
  unfolding load_partition first_green result_at all_equal first_failed disable_drive
  evaluate_write zero ref results = λ w. no_fuel
  evaluate_write (suc fuel) ref results =
      let again = evaluate_write fuel ref results in
      do
        p ← load_partition ref
        elim (first_green 0 p.drives) [
          | none ↦ λ w. dies Fault.assertion
          | some g ↦ do
            s ← result_at results g
            equal ← all_equal s.code results 0 p.drives
            if equal then pure s else (do
              failed ← first_failed results 0 p.drives
              elim failed [
                | none ↦ pure (status_of other_error)
                | some (i, f) ↦ do
                  disabled ← disable_drive net fuel ref i
                  if disabled then again else pure f
              ])
        ]

  -- The operation on each drive of a partition, from drive `i` on.
  unfoldable pub on_drives : (ℕ → N S Status) → Partition → ℕ → List Drive → N S (List Status)
  unfolding drive_to_connection
  on_drives op p i [] = pure []
  on_drives op p i (d ∷ ds) =
      let rest = on_drives op p (i + 1) ds in
      if is_red d.status then (do ss ← rest; pure (status_of connection_error ∷ ss)) else (do
        con ← drive_to_connection net p i
        c ← deref_connection con
        s ← op c
        ss ← rest
        pure (s ∷ ss))

  -- A key that is written while a drive is missing goes to the log, or else the log is given up.
  unfoldable pub log_write : ℕ → PartitionRef → Str → N S (Unit {0})
  unfolding load_partition drive_to_connection log_prefix disable_drive store_partition
      put_partition_update
  log_write fuel ref key = do
    p ← load_partition ref
    elim p.log_id [
      | none ↦ pure tt
      | some l ↦ if all_drives not_red p.drives then pure tt else (do
        logs ← load_partition logging
        con ← drive_to_connection net logs l
        c ← deref_connection con
        status ← from_env (
            net.put c (log_prefix p ++ key) [] ignore_version (record { value = []; version = [] }))
        if is_ok status.code then pure tt else (do
          _ ← disable_drive net fuel logging l
          p' ← load_partition ref
          let q = record p' { log_id = none; cluster_version = version_up p'.cluster_version }
          store_partition ref q
          _ ← put_partition_update net q
          pure tt))
    ]

  unfoldable pub write_operation : ℕ → PartitionRef → Str → (ℕ → N S Status) → N S Status
  unfolding load_partition on_drives log_write first_mismatch get_partition_update evaluate_write
  write_operation zero ref key op = λ w. no_fuel
  write_operation (suc fuel) ref key op =
      let again = write_operation fuel ref key op in
      do
        p ← load_partition ref
        results ← on_drives op p 0 p.drives
        log_write fuel ref key
        elim (first_mismatch results) [
          | none ↦ evaluate_write fuel ref results
          | some r ↦ do
            updated ← get_partition_update net fuel ref
            if updated then again else pure r
        ]

  -- The operation also leaves something in a pointer, which it finds as the attempt before left it.
  unfoldable pub read_operation :
      {A : Type 0}
      → ℕ
      → PartitionRef
      → (ℕ → N S (Status × Option A))
      → Option A
      → N S (Status × Option A)
  unfolding load_partition pick_drive drive_to_connection get_partition_update disable_drive
  read_operation zero ref op held = λ w. no_fuel
  read_operation (suc fuel) ref op held =
      let again = read_operation fuel ref op in
      do
        p ← load_partition ref
        i ← pick_drive net fuel is_green p
        con ← drive_to_connection net p i
        (s, got) ← elim con [ none ↦ pure (status_of connection_error, none) | some c ↦ op c ]
        let held' = or_left got held
        if is_cluster_version_mismatch s.code
            then (do
              updated ← get_partition_update net fuel ref
              if updated then again held' else pure (s, held'))
            else if fails_reader s.code
            then (do
              disabled ← disable_drive net fuel ref i
              if disabled then again held' else pure (s, held'))
            else pure (s, held')
