-- ===== src/Startup/Described.antt =====
-- The cluster map that a configuration file describes.
use h_flat.Base.{
  ◌≡◌, refl, ◌∙◌, Bool, true, false, List, [], Option, none, some, str, Bool-cases, inl, inr, ◌⊎◌,
  arith,
}
use h_flat.Cluster.State.{Drive, Partition}
use h_flat.Startup.Config.{
  LibConfig, Configuration, new_partition, cfg_to_hflat, parse_configuration, read_options,
  read_log, read_map, elements,
}
use h_flat.Startup.Partitions.{read_drives, IsReadable, IsMap, add_drives_lem, add_partitions_lem}

module _ {Setting : Type 0} (cfg : LibConfig Setting) where
  abbrev pub IsReadableLog : Option Setting → Type 0
  IsReadableLog none = Unit
  IsReadableLog (some setting) =
      (drives : List Drive) × (read_drives cfg (elements cfg setting) ≡ some drives)

  -- The log has the drives that its setting describes, and none without one.
  abbrev pub IsLog : Option Setting → Partition → Type 0
  IsLog none log = log.drives ≡ []
  IsLog (some setting) log = read_drives cfg (elements cfg setting) ≡ some log.drives

  log_lem :
      (setting : Option Setting)
      → ((log : Partition) × (cfg_to_hflat cfg setting new_partition ≡ (true, log))
          × IsLog setting log)
        ⊎ ((¬ (IsReadableLog setting)) × ((cfg_to_hflat cfg setting new_partition).0 ≡ false))
  unfolding cfg_to_hflat new_partition
  log_lem none = inl (new_partition, refl, refl)
  log_lem (some setting) = elim (add_drives_lem cfg (elements cfg setting) new_partition) [
    | inl (drives, read, added) ↦ inl (record new_partition { drives = drives }, added, read)
    | inr (unread, failed) ↦
        inr (λ readable. let (drives, read) = readable in ground (arith, unread, read), failed)
  ]

  -- What the options leave alone.
  options_lem :
      (options : Option Setting) (c : Configuration)
      → ((read_options cfg options c).cluster_map ≡ c.cluster_map)
        × ((read_options cfg options c).log_partition ≡ c.log_partition)
  unfolding read_options
  options_lem none c = (refl, refl)
  options_lem (some options) c = (refl, refl)

  parsed_lem :
      (c : Configuration) (log : Partition) (rtn : Bool) (clustermap : List Partition)
      → read_log cfg c.log_partition ≡ (true, log)
      → read_map cfg true (cfg.lookup (str "clustermap")) log c.cluster_map ≡ (rtn, clustermap)
      → ((parse_configuration cfg c).0 ≡ rtn)
        × ((parse_configuration cfg c).1.cluster_map ≡ clustermap)
        × ((parse_configuration cfg c).1.log_partition ≡ log)
  unfolding parse_configuration
  parsed_lem c log rtn clustermap logged mapped =
      let options = cfg.lookup (str "options") in
      let (same_map, same_log) =
        options_lem options (record c { cluster_map = clustermap; log_partition = log }) in
      (
        ground (arith, logged, mapped),
        ground (arith, logged, mapped, same_map),
        ground (arith, logged, mapped, same_log),
      )

  abbrev pub IsReadableMap : Option Setting → Type 0
  IsReadableMap none = Unit
  IsReadableMap (some cmap) = IsReadable cfg (elements cfg cmap)

  -- The partitions of the elements of the cluster map, and none without one.
  abbrev pub IsClusterMap : Option Setting → Partition → List Partition → Type 0
  IsClusterMap none log ps = ps ≡ []
  IsClusterMap (some cmap) log ps = IsMap cfg log 0 (elements cfg cmap) ps

  map_lem :
      (cmap : Option Setting) (log : Partition)
      → (IsReadableMap cmap
          × ((ps : List Partition) × (read_map cfg true cmap log [] ≡ (true, ps))
              × IsClusterMap cmap log ps))
        ⊎ ((¬ (IsReadableMap cmap)) × ((read_map cfg true cmap log []).0 ≡ false))
  unfolding read_map
  map_lem none log = inl (tt, ([], refl, refl))
  map_lem (some cmap) log = add_partitions_lem cfg 0 (elements cfg cmap) log []

  unread_map :
      (cmap : Option Setting) (log : Partition) (clustermap : List Partition)
      → (read_map cfg false cmap log clustermap).0 ≡ false
  unfolding read_map
  unread_map none log clustermap = refl
  unread_map (some cmap) log clustermap = refl

  failed_lem :
      (c : Configuration)
      → (read_log cfg c.log_partition).0 ≡ false
      → (parse_configuration cfg c).0 ≡ false
  unfolding parse_configuration
  failed_lem c failed =
      let (rtn, log) = read_log cfg c.log_partition in
      ground (arith, failed, unread_map (cfg.lookup (str "clustermap")) log c.cluster_map)

  -- `parse_configuration` succeeds exactly when the file can be read, the log's drives, if it has a log,
  -- and those of every element of the cluster map, if it has one, each with a host, a port and one of the
  -- three states. Its cluster map then has one partition for each element, in their order, numbered from
  -- 0, with the drives of the element, and is empty if the file has none; a partition of two drives has a
  -- drive of the log, within the log, if the log has one, and no other partition does. At the call the
  -- cluster map is empty and the log's partition a new one.
  pub parse_configuration_lem :
      (c : Configuration)
      → c.cluster_map ≡ []
      → c.log_partition ≡ new_partition
      → (((parse_configuration cfg c).0 ≡ true)
          × (cfg.read_file ≡ true)
          × IsLog (cfg.lookup (str "log")) (parse_configuration cfg c).1.log_partition
          × IsClusterMap
              (cfg.lookup (str "clustermap"))
              (parse_configuration cfg c).1.log_partition
              (parse_configuration cfg c).1.cluster_map)
        ⊎ (((parse_configuration cfg c).0 ≡ false)
            × ((cfg.read_file ≡ false)
                ⊎ (¬ (IsReadableLog (cfg.lookup (str "log"))))
                ⊎ (¬ (IsReadableMap (cfg.lookup (str "clustermap"))))))
  unfolding read_log new_partition
  parse_configuration_lem c empty unlogged =
      let cmap = cfg.lookup (str "clustermap") in
      elim (Bool-cases cfg.read_file) [
        | inr unread ↦ inr (failed_lem c (ground (arith, unread)), inl unread)
        | inl file ↦ elim (log_lem (cfg.lookup (str "log"))) [
          | inr (unreadable, failed) ↦
              inr (failed_lem c (ground (arith, file, unlogged, failed)), inr (inl unreadable))
          | inl (log, ran, described_log) ↦
              let logged : read_log cfg c.log_partition ≡ (true, log) =
                ground (arith, file, unlogged, ran) in
              elim (map_lem cmap log) [
                | inr (unreadable, failed) ↦
                    let (rtn, ps) = read_map cfg true cmap log [] in
                    let (same, _, _) = parsed_lem c log rtn ps logged (ground (arith, empty)) in
                    inr (same ∙ failed, inr (inr unreadable))
                | inl (readable, (ps, read, good)) ↦
                    let (good_result, same_map, same_log) =
                      parsed_lem c log true ps logged (ground (arith, empty, read)) in
                    inl (good_result, file, rw same_log described_log, rw (same_log, same_map) good)
              ]
        ]
      ]
