-- ===== src/Cluster/Disabling.antt =====
-- `disableDrive` takes a drive out of its partition.
use h_flat.Base.{
  ℕ, zero, suc, ◌≡◌, refl, ap, ◌∙◌, true, false, List, some, get_elem?, get_elem?-set, arith,
  Bool-cases, inl, inr,
}
use h_flat.World.State.{done}
use h_flat.Cluster.State.{
  Names, Net, Partition, PartitionRef, Drive, DriveStatus, is_red, mapped, logging, copied,
  partition_at, load_partition, store_partition, drive_of, set_drive_status, red,
}
use h_flat.Cluster.Drives.{test_partition, put_partition_update, drive_eq, get_partition_update}
use h_flat.Cluster.Membership.{disable_drive, disconnect, add_log_drive, without_drive}
use h_flat.Cluster.Post.{load_partition_lem, drive_of_lem}
use h_flat.World.Post.{Run-cases}
use h_flat.Cluster.Frames.{
  partitions, test_partition_lem, put_partition_update_lem, add_log_drive_lem,
}

module _ {S : Type 0} where
  partition_at-partitions :
      (ref : PartitionRef) (w v : Names S)
      → partitions v ≡ partitions w
      → partition_at ref v ≡ partition_at ref w
  unfolding partition_at
  partition_at-partitions (mapped i) w v e = ap (λ m. get_elem? m i) (ap (λ t. t.0) e)
  partition_at-partitions logging w v e = ap (λ t. some t.1) e
  partition_at-partitions copied w v e = ap (λ t. some t.2) e

  store_partition_lem :
      (ref : PartitionRef) (p q : Partition) (w v : Names S)
      → partition_at ref w ≡ some q
      → store_partition ref p w ≡ done (tt, v)
      → partition_at ref v ≡ some p
  unfolding partition_at store_partition
  store_partition_lem (mapped i) p q w v there e =
      ground (arith, get_elem?-set w.cluster_map i q p there)
  store_partition_lem logging p q w v there e = ground arith
  store_partition_lem copied p q w v there e = ground arith

without_drive_lem :
    (i : ℕ) (p : Partition) (d : Drive)
    → get_elem? p.drives i ≡ some d
    → get_elem? (without_drive i p).drives i ≡ some (record d { status = red })
unfolding without_drive set_drive_status
without_drive_lem i p d at =
    ground (arith, at, get_elem?-set p.drives i d (record d { status = red }) at)

-- A drive that the reference's partition has, and which is red.
pub OutOfService : {S : Type 0} → PartitionRef → ℕ → Names S → Type 0
OutOfService ref i w =
    (p : Partition) × (d : Drive) × (partition_at ref w ≡ some p)
    × (get_elem? p.drives i ≡ some d)
    × (d.status ≡ red)

is_red_lem : (s : DriveStatus) → is_red s ≡ true → s ≡ red
is_red_lem s e = ground arith

module _ {S : Type 0} (net : Net S) where
  -- The drive is out once the partition without it is stored, whatever changes but the partitions.
  taken_out :
      (fuel : ℕ) (ref : PartitionRef) (i : ℕ) (p q : Partition) (d : Drive) (w w₃ w₄ v : Names S)
      → partition_at ref w ≡ some p
      → get_elem? p.drives i ≡ some d
      → add_log_drive net fuel p w ≡ done (q, w₃)
      → store_partition ref (without_drive i q) w₃ ≡ done (tt, w₄)
      → partitions v ≡ partitions w₄
      → OutOfService ref i v
  unfolding OutOfService
  taken_out fuel ref i p q d w w₃ w₄ v found there logs stored same =
      let (kept, drives) = add_log_drive_lem net fuel p q w w₃ logs in
      let loaded = partition_at-partitions ref w w₃ kept ∙ found in
      let here = ap (λ (ds : List Drive). get_elem? ds i) drives ∙ there in
      (
        without_drive i q,
        record d { status = red },
        partition_at-partitions ref w₄ v same
            ∙ store_partition_lem ref (without_drive i q) p w₃ w₄ loaded stored,
        without_drive_lem i q d here,
        refl,
      )

  -- A drive that is disabled is red in its partition, also where the partition was replaced by an
  -- update in between.
  pub disable_drive_lem :
      (fuel : ℕ) (ref : PartitionRef) (i : ℕ) (w w' : Names S)
      → disable_drive net fuel ref i w ≡ done (true, w')
      → OutOfService ref i w'
  unfolding disable_drive disconnect OutOfService
  disable_drive_lem zero ref i w w' e = absurd (ground arith)
  disable_drive_lem (suc fuel) ref i w w' e = elim (Run-cases (load_partition ref w)) [
    | inl stuck ↦ absurd (ground (arith, stuck))
    | inr (p, w₁, loaded) ↦ elim (Run-cases (drive_of p i w₁)) [
      | inl stuck ↦ absurd (ground (arith, loaded, stuck))
      | inr (d, w₂, got) ↦
          let (at, found) = load_partition_lem ref w p w₁ loaded in
          let (at', there) = drive_of_lem p i w₁ d w₂ got in
          elim (Bool-cases (is_red d.status)) [
            | inl down ↦
                let same : w' ≡ w₂ = ground (arith, loaded, got, down) in
                (
                  p,
                  d,
                  ap (partition_at ref) (same ∙ at' ∙ at) ∙ found,
                  there,
                  is_red_lem d.status down,
                )
            | inr up ↦ elim (Run-cases (add_log_drive net fuel p w₂)) [
              | inl stuck ↦ absurd (ground (arith, loaded, got, up, stuck))
              | inr (q, w₃, logs) ↦ elim (Run-cases (store_partition ref (without_drive i q) w₃)) [
                | inl stuck ↦ absurd (ground (arith, loaded, got, up, logs, stuck))
                | inr (tt, w₄, stored) ↦
                    elim (Run-cases (test_partition net (without_drive i q) w₄)) [
                      | inl stuck ↦ absurd (ground (arith, loaded, got, up, logs, stored, stuck))
                      | inr (false, w₅, failed) ↦
                          absurd (ground (arith, loaded, got, up, logs, stored, failed))
                      | inr (true, w₅, tested) ↦
                          elim (Run-cases (put_partition_update net (without_drive i q) w₅)) [
                            | inl stuck ↦
                                absurd
                                  (ground (arith, loaded, got, up, logs, stored, tested, stuck))
                            | inr (true, w₆, written) ↦
                                let left : partitions w' ≡ partitions w₆ =
                                  ground (arith, loaded, got, up, logs, stored, tested, written) in
                                taken_out fuel ref i p q d w₂ w₃ w₄ w'
                                  (ap (partition_at ref) (at' ∙ at) ∙ found) there logs stored
                                  (left
                                    ∙ put_partition_update_lem net (without_drive i q) w₅ w₆ true
                                        written
                                    ∙ test_partition_lem net (without_drive i q) w₄ w₅ true tested)
                            | inr (false, w₆, refused) ↦
                                elim (Run-cases (get_partition_update net fuel ref w₆)) [
                                  | inl stuck ↦ absurd (
                                      ground (
                                        arith, loaded, got, up, logs, stored, tested, refused,
                                        stuck,
                                      ))
                                  | inr (true, w₇, updated) ↦ disable_drive_lem fuel ref i w₇ w' (
                                      ground (
                                        arith, loaded, got, up, logs, stored, tested, refused,
                                        updated,
                                      ))
                                  | inr (false, w₇, stale) ↦ absurd (
                                      ground (
                                        arith, loaded, got, up, logs, stored, tested, refused,
                                        stale,
                                      ))
                                ]
                          ]
                    ]
              ]
            ]
          ]
    ]
  ]
