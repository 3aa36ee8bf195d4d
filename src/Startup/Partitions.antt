-- ===== src/Startup/Partitions.antt =====
-- The drives and partitions that the elements of a configuration file describe: `add_drives` and
-- `add_partitions`.
use h_flat.Base.{
  ℕ, ◌+◌, ◌%◌, ◌<◌, ◌≡◌, ◌≢◌, refl, true, false, List, [], ◌∷◌, ◌++◌, Option, none, some,
  Option-cases, Bool-cases, inl, inr, ◌⊎◌, length, append_assoc, append-nil, arith, ltb, eqb,
}
use h_flat.Cluster.State.{Drive, Partition}
use h_flat.Startup.Config.{
  LibConfig, new_partition, status_named, with_log_id, add_drives, cfg_to_hflat, add_partitions,
  elements, described,
}

module _ {Setting : Type 0} (cfg : LibConfig Setting) where
  -- The drives that settings describe, if each of them has a host, a port and one of the three states.
  unfoldable pub read_drives : List Setting → Option (List Drive)
  unfolding status_named
  read_drives [] = some []
  read_drives (setting ∷ settings) = elim (described cfg setting) [
    | none ↦ none
    | some (host, status, port) ↦ elim (status_named status) [
      | none ↦ none
      | some st ↦ elim (read_drives settings) [
        | none ↦ none
        | some drives ↦ some (record { status = st; host = host; port = port } ∷ drives)
      ]
    ]
  ]

  pub add_drives_lem :
      (settings : List Setting) (p : Partition)
      → ((drives : List Drive) × (read_drives settings ≡ some drives)
          × (add_drives cfg settings p ≡ (true, record p { drives = p.drives ++ drives })))
        ⊎ ((read_drives settings ≡ none) × ((add_drives cfg settings p).0 ≡ false))
  unfolding add_drives read_drives
  add_drives_lem [] p = inl ([], refl, rw append-nil refl)
  add_drives_lem (setting ∷ settings) p = elim (Option-cases (described cfg setting)) [
    | inl missing ↦ inr (ground (arith, missing), ground (arith, missing))
    | inr ((host, status, port), there) ↦ elim (Option-cases (status_named status)) [
      | inl unknown ↦ inr (ground (arith, there, unknown), ground (arith, there, unknown))
      | inr (st, known) ↦
          let d : Drive = record { status = st; host = host; port = port } in
          elim (add_drives_lem settings (record p { drives = p.drives ++ (d ∷ []) })) [
            | inl (drives, read, added) ↦ inl (
              d ∷ drives,
              ground (arith, there, known, read),
              ground (arith, there, known, added, append_assoc p.drives (d ∷ []) drives),
            )
            | inr (unread, failed) ↦
                inr (ground (arith, there, known, unread), ground (arith, there, known, failed))
          ]
    ]
  ]

  -- A partition that was made of element `i` of the cluster map, with the drives of that element: two of
  -- them share a drive of the log, if the log has one.
  pub record IsPartition (log : Partition) (i : ℕ) (setting : Setting) (p : Partition)
      : Type 0 where
    pub numbered : p.partition_id ≡ some i
    pub fresh : p.cluster_version ≡ 0
    pub read : read_drives (elements cfg setting) ≡ some p.drives
    pub logged :
        ((length p.drives ≡ 2)
          × (0 < length log.drives)
          × (p.log_id ≡ some (i % length log.drives)))
        ⊎ (((length p.drives ≢ 2) ⊎ (length log.drives ≡ 0)) × (p.log_id ≡ none))

  -- One partition for each element, in their order.
  abbrev pub IsMap : Partition → ℕ → List Setting → List Partition → Type 0
  IsMap log i [] [] = Unit
  IsMap log i [] (p ∷ ps) = ⊥
  IsMap log i (setting ∷ settings) [] = ⊥
  IsMap log i (setting ∷ settings) (p ∷ ps) =
      IsPartition log i setting p × IsMap log (i + 1) settings ps

  abbrev pub IsReadable : List Setting → Type 0
  IsReadable [] = Unit
  IsReadable (setting ∷ settings) =
      ((drives : List Drive) × (read_drives (elements cfg setting) ≡ some drives))
      × IsReadable settings

  made :
      (log : Partition) (i : ℕ) (setting : Setting) (drives : List Drive)
      → read_drives (elements cfg setting) ≡ some drives
      → IsPartition log i setting
          (record (with_log_id i log (record new_partition { drives = drives })) {
            partition_id = some i;
          })
  unfolding with_log_id new_partition
  made log i setting drives read = elim (Bool-cases (eqb (length drives) 2)) [
    | inr other ↦ record {
      numbered = ground (arith, other);
      fresh = ground (arith, other);
      read = ground (arith, other, read);
      logged = ground (arith, other);
    }
    | inl two ↦ elim (Bool-cases (ltb 0 (length log.drives))) [
      | inr alone ↦ record {
        numbered = ground (arith, two, alone);
        fresh = ground (arith, two, alone);
        read = ground (arith, two, alone, read);
        logged = ground (arith, two, alone);
      }
      | inl more ↦ record {
        numbered = ground (arith, two, more);
        fresh = ground (arith, two, more);
        read = ground (arith, two, more, read);
        logged = ground (arith, two, more);
      }
    ]
  ]

  pub add_partitions_lem :
      (i : ℕ) (settings : List Setting) (log : Partition) (clustermap : List Partition)
      → (IsReadable settings
          × ((ps : List Partition) × (add_partitions cfg i settings log clustermap
                ≡ (true, clustermap ++ ps))
              × IsMap log i settings ps))
        ⊎ ((¬ (IsReadable settings)) × ((add_partitions cfg i settings log clustermap).0 ≡ false))
  unfolding add_partitions cfg_to_hflat new_partition
  add_partitions_lem i [] log clustermap = inl (tt, ([], rw append-nil refl, tt))
  add_partitions_lem i (setting ∷ settings) log clustermap =
      elim (add_drives_lem (elements cfg setting) new_partition) [
        | inr (unread, failed) ↦ inr (
          λ readable. let ((drives, read), _) = readable in ground (arith, unread, read),
          ground (arith, failed),
        )
        | inl (drives, read, added) ↦
            let p = record (with_log_id i log (record new_partition { drives = drives })) {
              partition_id = some i;
            } in
            elim (add_partitions_lem (i + 1) settings log (clustermap ++ (p ∷ []))) [
              | inr (unread, failed) ↦
                  inr ((λ readable. unread readable.1), ground (arith, added, failed))
              | inl (readable, (ps, ran, good)) ↦ inl (
                ((drives, read), readable),
                (
                  p ∷ ps,
                  ground (arith, added, append_assoc clustermap (p ∷ []) ps, ran),
                  (made log i setting drives read, good),
                ),
              )
            ]
      ]
