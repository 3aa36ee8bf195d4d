-- ===== src/Startup/Init.antt =====
-- `hflat_init` of src/main.cc up to the private data: which namespace is opened, and the state that the
-- handlers start from. Ops.Mount has the rest of it.
use h_flat.Base.{ℕ, true, false, [], ◌∷◌, Option, none, some}
use h_flat.LruCache.Defs.{new_cache}
use h_flat.PathMap.Defs.{new_path_map_db}
use h_flat.World.State.{World, Run, done, dies, waiting, no_fuel}
use h_flat.Cluster.State.{Net, Names, Drive}
use h_flat.Cluster.Capacity.{Floats, Estimate, open_distributed}
use h_flat.Simple.{localhost, connect}
use h_flat.Startup.Config.{LibConfig, Configuration, new_partition, parse_configuration}

unfoldable pub default_configuration : Configuration
unfolding new_partition
default_configuration = record {
  cluster_map = [];
  log_partition = new_partition;
  cache_expiration_ms = 1000;
  direntry_clustersize = 1;
  posix_full = true;
}

-- A namespace with its state: a connection and the client library, or the state of a distributed one.
pub data Namespace (S F : Type 0) : Type 0 where
  simple : ℕ → S → Namespace S F
  distributed : Names S → Option (Estimate F) → Namespace S F

-- `none` for the exit after a failure.
unfoldable pub configure : {Setting : Type 0} → Option (LibConfig Setting) → Option Configuration
unfolding default_configuration parse_configuration
configure none = some default_configuration
configure (some cfg) =
    let (cok, c) = parse_configuration cfg default_configuration in
    elim cok [ true ↦ some c | false ↦ none ]

module _ {S F : Type 0} (net : Net S) (floats : Floats S F) where
  unfoldable pub open_simple : Drive → S → Run (Option (Namespace S F))
  unfolding connect
  open_simple d s =
      let (opened, s') = connect net d s in
      elim opened [ none ↦ done none | some con ↦ done (some (simple con s')) ]

  -- `none` if the constructor throws, upon which the process exits.
  unfoldable pub open_names : ℕ → Configuration → S → Run (Option (Namespace S F))
  unfolding new_partition open_distributed
  open_names fuel c s =
      elim (open_distributed net floats fuel (record {
        cluster_map = c.cluster_map;
        log_partition = c.log_partition;
        local_copy = new_partition;
        connection_map = [];
        direntry_clustersize = c.direntry_clustersize;
        env = s;
      })) [
        | done ((true, e), w) ↦ done (some (distributed w e))
        | done ((false, e), w) ↦ done none
        | dies f ↦ dies f
        | waiting ↦ waiting
        | no_fuel ↦ no_fuel
      ]

  -- A single drive needs no partitions.
  unfoldable pub open_namespace : ℕ → Configuration → S → Run (Option (Namespace S F))
  unfolding open_simple open_names
  open_namespace fuel c s = elim c.cluster_map [
    | [] ↦ open_simple localhost s
    | p ∷ ps ↦ elim ps [
      | q ∷ qs ↦ open_names fuel c s
      | [] ↦ elim p.drives [
        | [] ↦ open_names fuel c s
        | d ∷ ds ↦ elim ds [ [] ↦ open_simple d s | e ∷ es ↦ open_names fuel c s ]
      ]
    ]
  ]

-- The constructor of `hflat_priv`: the caches have room for 1000 metadata and 500 blocks. The size of a
-- block, 1 MiB, and the mode are fields of the model's `System`.
unfoldable pub new_priv : {S : Type 0} → ℕ → S → World S
unfolding new_cache new_path_map_db
new_priv cache_expiration_ms s = record {
  metadata_infos = [];
  data_infos = [];
  lookup_cache = new_cache cache_expiration_ms 1000;
  data_cache = new_cache cache_expiration_ms 500;
  pmap = new_path_map_db;
  inum_base = 0;
  inum_counter = 0;
  env = s;
}
