-- ===== src/Startup/Config.antt =====
-- `parse_configuration` of src/main.cc. The library that reads the file is the parameter `LibConfig`;
-- an `int` of the file is a number here.
use h_flat.Base.{
  ℕ, zero, suc, ◌+◌, ◌%◌, Bool, true, false, ◌&&◌, List, [], ◌∷◌, ◌++◌, Option, none, some, Str,
  str, str_eq, ◌==◌, eqb, ltb, if◌then◌else◌, length,
}
use h_flat.Cluster.State.{DriveStatus, green, yellow, red, Partition}

-- A setting of the file; `lookup` finds one by its path, and is `none` for a null pointer.
pub record LibConfig (Setting : Type 0) : Type 0 where
  pub read_file : Bool
  pub lookup : Str → Option Setting
  pub size : Setting → ℕ
  pub elem : Setting → ℕ → Setting
  pub lookup_string : Setting → Str → Option Str
  pub lookup_int : Setting → Str → Option ℕ

-- What the function leaves in the variables that it takes by reference.
pub record Configuration : Type 0 where
  pub cluster_map : List Partition
  pub log_partition : Partition
  pub cache_expiration_ms : ℕ
  pub direntry_clustersize : ℕ
  pub posix_full : Bool

unfoldable pub new_partition : Partition
new_partition = record { cluster_version = 0; partition_id = none; drives = []; log_id = none }

unfoldable pub status_named : Str → Option DriveStatus
status_named text =
    if text == str "GREEN"
    then some green
    else if text == str "YELLOW"
    then some yellow
    else if text == str "RED"
    then some red
    else none

-- `Add()` to the drives of a partition; a status that is not set reads as the first one.
abbrev pub with_drive : Str → ℕ → Option DriveStatus → Partition → Partition
with_drive host port status p = record p {
  drives =
      p.drives
      ++ (record { status = elim status [ none ↦ green | some st ↦ st ]; host = host; port = port }
          ∷ []);
}

-- The special case of two drives: the network may split, so a drive of the log is added.
unfoldable pub with_log_id : ℕ → Partition → Partition → Partition
with_log_id i log p =
    if eqb (length p.drives) 2 && ltb 0 (length log.drives)
    then record p { log_id = some (i % length log.drives) }
    else p

module _ {Setting : Type 0} (cfg : LibConfig Setting) where
  -- The next `n` elements of a setting, from element `i` on.
  abbrev pub elements_from : ℕ → ℕ → Setting → List Setting
  elements_from zero i setting = []
  elements_from (suc n) i setting = cfg.elem setting i ∷ elements_from n (i + 1) setting

  abbrev pub elements : Setting → List Setting
  elements setting = elements_from (cfg.size setting) 0 setting

  abbrev pub described : Setting → Option (Str × Str × ℕ)
  described drive = elim (cfg.lookup_string drive (str "host")) [
    | none ↦ none
    | some host ↦ elim (cfg.lookup_string drive (str "status")) [
      | none ↦ none
      | some status ↦ elim (cfg.lookup_int drive (str "port")) [
        | none ↦ none
        | some port ↦ some (host, status, port)
      ]
    ]
  ]

  -- The loop of `cfg_to_hflat`, for the drives that are left.
  unfoldable pub add_drives : List Setting → Partition → Bool × Partition
  unfolding status_named
  add_drives [] p = (true, p)
  add_drives (drive ∷ drives) p = elim (described drive) [
    | none ↦ (false, p)
    | some (host, status, port) ↦ elim (status_named status) [
      | none ↦ (false, with_drive host port none p)
      | some st ↦ add_drives drives (with_drive host port (some st) p)
    ]
  ]

  unfoldable pub cfg_to_hflat : Option Setting → Partition → Bool × Partition
  unfolding add_drives
  cfg_to_hflat none p = (true, p)
  cfg_to_hflat (some partition) p = add_drives (elements partition) p

  -- The loop over the cluster map, from its element `i` on: a partition that could not be read is
  -- added all the same, and ends it.
  unfoldable pub add_partitions :
      ℕ → List Setting → Partition → List Partition → Bool × List Partition
  unfolding cfg_to_hflat new_partition with_log_id
  add_partitions i [] log clustermap = (true, clustermap)
  add_partitions i (setting ∷ settings) log clustermap =
      let (rtn, p) = cfg_to_hflat (some setting) new_partition in
      let p' = with_log_id i log p in
      let all = clustermap ++ (record p' { partition_id = some i } ∷ []) in
      elim rtn [ true ↦ add_partitions (i + 1) settings log all | false ↦ (false, all) ]

  abbrev pub or_kept : {A : Type 0} → A → Option A → A
  or_kept a none = a
  or_kept a (some b) = b

  -- A mode other than "RELAXED" leaves the mode as it is.
  unfoldable pub read_options : Option Setting → Configuration → Configuration
  read_options none c = c
  read_options (some options) c = record c {
    cache_expiration_ms =
        or_kept c.cache_expiration_ms (cfg.lookup_int options (str "cache_expiration"));
    direntry_clustersize =
        or_kept c.direntry_clustersize (cfg.lookup_int options (str "direntry_clustersize"));
    posix_full = elim (cfg.lookup_string options (str "posix_mode")) [
      | none ↦ c.posix_full
      | some mode ↦ if mode == str "RELAXED" then false else c.posix_full
    ];
  }

  unfoldable pub read_log : Partition → Bool × Partition
  unfolding cfg_to_hflat
  read_log log = if cfg.read_file then cfg_to_hflat (cfg.lookup (str "log")) log else (false, log)

  unfoldable pub read_map :
      Bool → Option Setting → Partition → List Partition → Bool × List Partition
  unfolding add_partitions
  read_map rtn none log clustermap = (rtn, clustermap)
  read_map false (some cmap) log clustermap = (false, clustermap)
  read_map true (some cmap) log clustermap = add_partitions 0 (elements cmap) log clustermap

  -- The error message is not modelled.
  unfoldable pub parse_configuration : Configuration → Bool × Configuration
  unfolding read_log read_map read_options
  parse_configuration c =
      let (log_read, log) = read_log c.log_partition in
      let (rtn, clustermap) = read_map log_read (cfg.lookup (str "clustermap")) log c.cluster_map in
      let c' = record c { cluster_map = clustermap; log_partition = log } in
      (rtn, read_options (cfg.lookup (str "options")) c')
