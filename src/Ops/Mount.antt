-- ===== src/Ops/Mount.antt =====
-- The end of `hflat_init` in src/main.cc, once the namespace is connected: the root directory.
use h_flat.Base.{ℕ, str, eqb, if◌then◌else◌}
use h_flat.World.State.{System, M, ◌>>=◌, ◌>>◌, pure, new_metadata_info}
use h_flat.World.Helper.{enoent, get_metadata, create_metadata}
use h_flat.World.Util.{grab_inode_generation_token, database_update}
use h_flat.Ops.Create.{initialize_metadata}

-- `S_IFDIR | S_IRWXU | S_IRWXG | S_IRWXO`.
abbrev pub root_mode : ℕ
root_mode = 0o040777

module _ {S : Type 0} (sys : System S) where
  -- Errors are only logged.
  unfoldable pub mount : ℕ → M S (Unit {0})
  unfolding grab_inode_generation_token new_metadata_info get_metadata initialize_metadata
      create_metadata database_update
  mount fuel = do
    _ ← grab_inode_generation_token sys fuel
    r ← new_metadata_info (str "/")
    err ← get_metadata sys r
    (if eqb err enoent
        then (do initialize_metadata sys fuel r r root_mode; _ ← create_metadata sys r; pure tt)
        else pure tt)
    _ ← database_update sys
    pure tt
