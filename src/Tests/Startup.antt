-- ===== src/Tests/Startup.antt =====
-- A configuration file with a log and two partitions, the arguments of a start, and a call that the
-- interception library changes.
use h_flat.Base.{
  ℕ, ◌≡◌, ◌+◌, eqb, refl, true, false, [], ◌∷◌, none, some, str, str_eq, str_beq, ◌==◌,
  if◌then◌else◌, ◌⊎◌, length, arith,
}
use h_flat.PathChange.Real.{is_clean}
use h_flat.PathChange.Calls.{openat}
use h_flat.World.State.{done}
use h_flat.PathChange.Linux.{pc_openat, pc_openat_relative}
use h_flat.PathChange.{starts_with_slash}
use h_flat.Startup.Config.{LibConfig, parse_configuration}
use h_flat.Startup.Described.{
  IsLog, IsClusterMap, IsReadableMap, IsReadableLog, parse_configuration_lem,
}
use h_flat.Startup.Arguments.{
  main_arguments, absolute_name, main_arguments_lem, scan_arguments_adjacent,
}
use h_flat.Startup.Init.{default_configuration}

-- Setting 0 is the log, with one drive; 1 is the cluster map, whose elements are 2 and 3, with two drives
-- and one; 4 and above are drives.
abbrev file : LibConfig ℕ
file = record {
  read_file = true;
  lookup = λ path.
      if path == str "log" then some 0 else if path == str "clustermap" then some 1 else none;
  size = λ s. if eqb s 1 then 2 else if eqb s 2 then 2 else 1;
  elem = λ s i. if eqb s 1 then i + 2 else s + i + 10;
  lookup_string = λ s name. if name == str "host" then some (str "d") else some (str "GREEN");
  lookup_int = λ s name. some s;
}

parse_configuration_lem_example :
    (((parse_configuration file default_configuration).0 ≡ true)
      × (file.read_file ≡ true)
      × IsLog file
          (file.lookup (str "log"))
          (parse_configuration file default_configuration).1.log_partition
      × IsClusterMap file
          (some 1)
          (parse_configuration file default_configuration).1.log_partition
          (parse_configuration file default_configuration).1.cluster_map)
    ⊎ (((parse_configuration file default_configuration).0 ≡ false)
        × ((file.read_file ≡ false)
            ⊎ (¬ (IsReadableLog file (file.lookup (str "log"))))
            ⊎ (¬ (IsReadableMap file (some 1)))))
unfolding default_configuration str_beq
parse_configuration_lem_example = parse_configuration_lem file default_configuration refl refl

parsed : (parse_configuration file default_configuration).0 ≡ true
unfolding parse_configuration default_configuration str_beq
parsed = refl

main_arguments_lem_example :
    main_arguments (str "/home") (str "hflat" ∷ str "-cfg=my.cfg" ∷ str "/mnt" ∷ [])
    ≡ (absolute_name (str "/home") (str "my.cfg"), str "hflat" ∷ str "/mnt" ∷ [])
unfolding h_flat.Startup.Arguments.is_cfg str_beq
main_arguments_lem_example =
    main_arguments_lem (str "/home") (str "hflat" ∷ []) (str "/mnt" ∷ []) (str "-cfg=my.cfg")
      (refl, tt) refl (refl, tt)

scan_arguments_adjacent_example :
    main_arguments (str "/home") (str "hflat" ∷ str "-cfg=/a" ∷ str "-cfg=/b" ∷ str "/mnt" ∷ [])
    ≡ (absolute_name (str "/home") (str "/a"), str "hflat" ∷ str "-cfg=/b" ∷ str "/mnt" ∷ [])
unfolding h_flat.Startup.Arguments.is_cfg str_beq
scan_arguments_adjacent_example =
    scan_arguments_adjacent (str "/home") (str "hflat" ∷ []) (str "/mnt" ∷ []) (str "-cfg=/a")
      (str "-cfg=/b") (refl, tt) refl (refl, tt)

pc_openat_relative_example :
    pc_openat 9 length (str "/home") (str "/m" ∷ []) 5 (str "a") 0 0
    ≡ done (openat 5 (str "/home/a") 0 none)
unfolding starts_with_slash is_clean str_beq
pc_openat_relative_example =
    pc_openat_relative 9 length (str "/home") (str "/m" ∷ []) 5 (str "a") 0 0 refl refl refl
      (omega arith) (refl, tt)
