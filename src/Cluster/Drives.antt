-- ===== src/Cluster/Drives.antt =====
-- Connections to drives, and the updates of a partition that its drives store.
use h_flat.Base.{
  ℕ, zero, suc, ◌+◌, Bool, true, false, not, ◌&&◌, List, [], ◌∷◌, ◌++◌, Option, none, some, Str,
  str, str_eq, nat_eq, ◌==◌, Eq, eqb, ltb, if◌then◌else◌, length, lookup, insert, Fault,
  str_beq_iff, arith, ◌↔◌, ◌≡◌,
}
use h_flat.Paths.{to_string}
use h_flat.World.State.{KineticRecord, require_same_version, done, dies, no_fuel}
use h_flat.Cluster.State.{
  Net, N, ◌>>=◌, ◌>>◌, pure, from_env, in_env, Partition, PartitionRef, logging, Drive, Status,
  DriveStatus, green, yellow, red, is_red, is_ok, is_cluster_version_mismatch, load_partition,
  store_partition, drive_of,
}

-- `equal_to<KineticDrive>`: the host and the port.
abbrev pub same_drive : Str × ℕ → Str × ℕ → Bool
same_drive (h, n) (k, m) = h == k && eqb n m

pub same_drive_iff : (a b : Str × ℕ) → (same_drive a b ≡ true) ↔ (a ≡ b)
same_drive_iff (h, n) (k, m) =
    (λ e. ground (arith, str_beq_iff h k), λ e. ground (arith, str_beq_iff h k))

instance abbrev pub drive_eq : Eq (Str × ℕ)
drive_eq = record { agrees = same_drive; agrees_iff = same_drive_iff }

-- "clusterversion_" with a version behind it.
unfoldable pub version_key : ℕ → Str
unfolding to_string
version_key version = str "clusterversion_" ++ to_string version

module _ {S : Type 0} (net : Net S) where
  unfoldable pub drive_to_connection : Partition → ℕ → N S (Option ℕ)
  unfolding drive_of
  drive_to_connection p i = do
    d ← drive_of p i
    λ w. elim (lookup (d.host, d.port) w.connection_map) [
      | some c ↦ done (some c, w)
      | none ↦
          (do
            opened ← from_env (net.connect d.host d.port)
            elim opened [
              | none ↦ pure none
              | some c ↦ do
                (if eqb p.cluster_version 0
                    then pure tt
                    else in_env (net.set_client_cluster_version c p.cluster_version))
                λ v. done (
                  some c,
                  record v { connection_map = insert (d.host, d.port) c v.connection_map },
                )
            ])
            w
    ]

  unfoldable pub test_connection : Partition → ℕ → N S Bool
  unfolding drive_to_connection
  test_connection p i = do
    con ← drive_to_connection p i
    elim con [
      | none ↦ pure false
      | some c ↦ do status ← from_env (net.no_op c); pure (is_ok status.code)
    ]

  -- The loop of `testPartition` from drive `i` on: whether every drive but the red ones answers.
  unfoldable pub test_drives : Partition → ℕ → List Drive → N S Bool
  unfolding test_connection
  test_drives p i [] = pure true
  test_drives p i (d ∷ ds) =
      let rest = test_drives p (i + 1) ds in
      if is_red d.status
      then rest
      else (do up ← test_connection p i; if up then rest else pure false)

  unfoldable pub count_status : DriveStatus → List Drive → ℕ
  count_status s [] = 0
  count_status s (d ∷ ds) =
      let rest = count_status s ds in
      elim s [
        | green ↦ elim d.status [ green ↦ rest + 1 | yellow ↦ rest | red ↦ rest ]
        | yellow ↦ elim d.status [ green ↦ rest | yellow ↦ rest + 1 | red ↦ rest ]
        | red ↦ elim d.status [ green ↦ rest | yellow ↦ rest | red ↦ rest + 1 ]
      ]

  -- The end of `testPartition`: a drive to read from, and two to tell a failure from a split.
  unfoldable pub has_quorum : Partition → Bool
  unfolding count_status
  has_quorum p =
      let up = count_status green p.drives + count_status yellow p.drives in
      not (eqb (count_status green p.drives) 0)
      && not
          (eqb up 1 && (ltb 1 (length p.drives) && elim p.log_id [ none ↦ true | some l ↦ false ]))

  unfoldable pub test_partition : Partition → N S Bool
  unfolding test_drives test_connection has_quorum load_partition
  test_partition p = elim p.partition_id [
    | none ↦ pure true
    | some id ↦ do
      up ← test_drives p 0 p.drives
      if not up then pure false else (do
        logged ← elim p.log_id [
          | none ↦ pure true
          | some l ↦ do lp ← load_partition logging; test_connection lp l
        ]
        if logged then pure (has_quorum p) else pure false)
  ]

  -- The loop that follows the cluster versions which a drive expects, with the record got last.
  unfoldable pub follow_versions :
      ℕ → ℕ → Status → Option KineticRecord → N S (Status × Option KineticRecord)
  unfolding version_key
  follow_versions zero c status rec = λ w. no_fuel
  follow_versions (suc fuel) c status rec =
      let version = status.expected_cluster_version in
      let next = λ (s : Status) (r : Option KineticRecord). follow_versions fuel c s r in
      if is_cluster_version_mismatch status.code
      then (do
        in_env (net.set_client_cluster_version c version)
        (status', got) ← from_env (net.get c (version_key version))
        next status' (elim got [ none ↦ rec | some r ↦ some r ]))
      else pure (status, rec)

  -- The loop of `getPartitionUpdate` from drive `i` on. A status without an expected version is passed
  -- over, even if it is good.
  unfoldable pub update_from : ℕ → PartitionRef → Partition → ℕ → List Drive → N S Bool
  unfolding drive_to_connection follow_versions store_partition
  update_from fuel ref p i [] = pure false
  update_from fuel ref p i (d ∷ ds) =
      let rest = update_from fuel ref p (i + 1) ds in
      if is_red d.status then rest else (do
        con ← drive_to_connection p i
        elim con [
          | none ↦ rest
          | some c ↦ do
            status ← from_env (net.no_op c)
            (status', rec) ← follow_versions fuel c status none
            if not (eqb status'.expected_cluster_version 0) && is_ok status'.code
                then elim rec [
                  | none ↦ λ w. dies Fault.undefined
                  | some r ↦ do store_partition ref (net.parse_partition r.value); pure true
                ]
                else rest
        ])

  unfoldable pub get_partition_update : ℕ → PartitionRef → N S Bool
  unfolding load_partition update_from
  get_partition_update fuel ref = do
    p ← load_partition ref
    elim p.partition_id [ none ↦ pure false | some id ↦ update_from fuel ref p 0 p.drives ]

  -- The record under a cluster version, which only the first client to write it may put.
  unfoldable pub update_record : Partition → KineticRecord
  update_record p = record { value = net.serialize_partition p; version = str "yes" }

  unfoldable pub put_updates : Partition → ℕ → List Drive → N S Bool
  unfolding drive_to_connection version_key update_record
  put_updates p i [] = pure true
  put_updates p i (d ∷ ds) =
      let rest = put_updates p (i + 1) ds in
      if is_red d.status then rest else (do
        con ← drive_to_connection p i
        elim con [
          | none ↦ pure false
          | some c ↦ do
            status ← from_env (
                net.put c (version_key p.cluster_version) [] require_same_version (update_record p))
            if not (is_ok status.code) then pure false else (do
              in_env (net.set_cluster_version c p.cluster_version)
              in_env (net.set_client_cluster_version c p.cluster_version)
              rest)
        ])

  unfoldable pub put_partition_update : Partition → N S Bool
  unfolding put_updates
  put_partition_update p = elim p.partition_id [
    | none ↦ pure true
    | some id ↦ put_updates p 0 p.drives
  ]
