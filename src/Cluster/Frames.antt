-- ===== src/Cluster/Frames.antt =====
-- Which calls of the distributed namespace leave its partitions as they are.
use h_flat.Base.{
  ℕ, zero, suc, ◌+◌, ◌≡◌, ◌∙◌, Bool, true, false, ◌&&◌, List, [], ◌∷◌, Option, none, some,
  get_elem?, arith, Option-cases, Bool-cases, inl, inr, length,
}
use h_flat.World.State.{require_same_version, done}
use h_flat.Cluster.State.{
  Names, Net, Partition, Drive, DriveStatus, is_green, is_red, is_ok, partition_at, load_partition,
  drive_of,
}
use h_flat.Cluster.Drives.{
  drive_to_connection, test_connection, test_drives, test_partition, put_updates,
  put_partition_update, version_key, update_record, drive_eq,
}
use h_flat.Cluster.Membership.{
  is_unset, all_drives, any_not_red, not_red, pick_drive, add_log_drive,
}
use h_flat.World.Post.{Run-cases}

abbrev pub partitions : {S : Type 0} → Names S → List Partition × Partition × Partition
partitions w = (w.cluster_map, w.log_partition, w.local_copy)

module _ {S : Type 0} (net : Net S) where
  pub drive_to_connection_lem :
      (p : Partition) (i : ℕ) (w v : Names S) (c : Option ℕ)
      → drive_to_connection net p i w ≡ done (c, v)
      → partitions v ≡ partitions w
  unfolding drive_to_connection drive_of
  drive_to_connection_lem p i w v c e = ground arith

  pub test_connection_lem :
      (p : Partition) (i : ℕ) (w v : Names S) (b : Bool)
      → test_connection net p i w ≡ done (b, v)
      → partitions v ≡ partitions w
  unfolding test_connection
  test_connection_lem p i w v b e = elim (Run-cases (drive_to_connection net p i w)) [
    | inl stuck ↦ absurd (ground (arith, stuck))
    | inr (c, u, got) ↦ ground (arith, got, drive_to_connection_lem p i w u c got)
  ]

  pub test_drives_lem :
      (p : Partition) (i : ℕ) (ds : List Drive) (w v : Names S) (b : Bool)
      → test_drives net p i ds w ≡ done (b, v)
      → partitions v ≡ partitions w
  unfolding test_drives
  test_drives_lem p i [] w v b e = ground arith
  test_drives_lem p i (d ∷ ds) w v b e = elim (Bool-cases (is_red d.status)) [
    | inl down ↦ test_drives_lem p (i + 1) ds w v b (ground (arith, down))
    | inr up ↦ elim (Run-cases (test_connection net p i w)) [
      | inl stuck ↦ absurd (ground (arith, up, stuck))
      | inr (true, u, got) ↦
          test_drives_lem p (i + 1) ds u v b (ground (arith, up, got))
          ∙ test_connection_lem p i w u true got
      | inr (false, u, got) ↦ ground (arith, up, got, test_connection_lem p i w u false got)
    ]
  ]

  pub test_partition_lem :
      (p : Partition) (w v : Names S) (b : Bool)
      → test_partition net p w ≡ done (b, v)
      → partitions v ≡ partitions w
  unfolding test_partition load_partition partition_at
  test_partition_lem p w v b e = elim (Option-cases p.partition_id) [
    | inl absent ↦ ground (arith, absent)
    | inr (id, known) ↦ elim (Run-cases (test_drives net p 0 p.drives w)) [
      | inl stuck ↦ absurd (ground (arith, known, stuck))
      | inr (false, u, tested) ↦
          ground (arith, known, tested, test_drives_lem p 0 p.drives w u false tested)
      | inr (true, u, tested) ↦ elim (Option-cases p.log_id) [
        | inl bare ↦
            ground (arith, known, tested, bare, test_drives_lem p 0 p.drives w u true tested)
        | inr (l, logs) ↦ elim (Run-cases (test_connection net u.log_partition l u)) [
          | inl stuck ↦ absurd (ground (arith, known, tested, logs, stuck))
          | inr (c, u', got) ↦ ground (
            arith,
            known,
            tested,
            logs,
            got,
            test_drives_lem p 0 p.drives w u true tested,
            test_connection_lem u.log_partition l u u' c got,
          )
        ]
      ]
    ]
  ]

  pub put_updates_lem :
      (p : Partition) (i : ℕ) (ds : List Drive) (w v : Names S) (b : Bool)
      → put_updates net p i ds w ≡ done (b, v)
      → partitions v ≡ partitions w
  unfolding put_updates
  put_updates_lem p i [] w v b e = ground arith
  put_updates_lem p i (d ∷ ds) w v b e = elim (Bool-cases (is_red d.status)) [
    | inl down ↦ put_updates_lem p (i + 1) ds w v b (ground (arith, down))
    | inr up ↦ elim (Run-cases (drive_to_connection net p i w)) [
      | inl stuck ↦ absurd (ground (arith, up, stuck))
      | inr (none, u, got) ↦ ground (arith, up, got, drive_to_connection_lem p i w u none got)
      | inr (some c, u, got) ↦
          let (status, s₁) =
            net.put c (version_key p.cluster_version) [] require_same_version (update_record net p)
              u.env in
          elim (Bool-cases (is_ok status.code)) [
            | inl good ↦
                let s₂ = net.set_cluster_version c p.cluster_version s₁ in
                let s₃ = net.set_client_cluster_version c p.cluster_version s₂ in
                put_updates_lem p (i + 1) ds (record u { env = s₃ }) v b
                  (ground (arith, up, got, good))
                ∙ drive_to_connection_lem p i w u (some c) got
            | inr bad ↦ ground (arith, up, got, bad, drive_to_connection_lem p i w u (some c) got)
          ]
    ]
  ]

  pub put_partition_update_lem :
      (p : Partition) (w v : Names S) (b : Bool)
      → put_partition_update net p w ≡ done (b, v)
      → partitions v ≡ partitions w
  unfolding put_partition_update
  put_partition_update_lem p w v b e = elim (Option-cases p.partition_id) [
    | inl absent ↦ ground (arith, absent)
    | inr (id, known) ↦ put_updates_lem p 0 p.drives w v b (ground (arith, known))
  ]

  pub pick_drive_lem :
      (fuel : ℕ) (f : DriveStatus → Bool) (p : Partition) (w v : Names S) (i : ℕ)
      → pick_drive net fuel f p w ≡ done (i, v)
      → partitions v ≡ partitions w
  unfolding pick_drive drive_of
  pick_drive_lem zero f p w v i e = absurd (ground arith)
  pick_drive_lem (suc fuel) f p w v i e =
      let (j, s) = net.uniform (length p.drives) w.env in
      elim (Option-cases (get_elem? p.drives j)) [
        | inl past ↦ absurd (ground (arith, past))
        | inr (d, at) ↦ elim (Bool-cases (f d.status)) [
          | inl fits ↦ ground (arith, at, fits)
          | inr other ↦
              pick_drive_lem fuel f p (record w { env = s }) v i (ground (arith, at, other))
        ]
      ]

  pub add_log_drive_lem :
      (fuel : ℕ) (p q : Partition) (w v : Names S)
      → add_log_drive net fuel p w ≡ done (q, v)
      → (partitions v ≡ partitions w) × (q.drives ≡ p.drives)
  unfolding add_log_drive load_partition partition_at
  add_log_drive_lem fuel p q w v e =
      elim (Bool-cases (
        is_unset p.log_id
        && (all_drives is_green p.drives && any_not_red w.log_partition.drives))) [
          | inl wanted ↦ elim (Run-cases (pick_drive net fuel not_red w.log_partition w)) [
            | inl stuck ↦ absurd (ground (arith, wanted, stuck))
            | inr (l, u, picked) ↦
                let same = pick_drive_lem fuel not_red w.log_partition w u l picked in
                (ground (arith, wanted, picked, same), ground (arith, wanted, picked))
          ]
          | inr kept ↦ (ground (arith, kept), ground (arith, kept))
        ]
