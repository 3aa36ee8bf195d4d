-- ===== src/Ops/Stat.antt =====
-- src/fuseops/attr.cc, and `hflat_open`, `hflat_release` and `hflat_readdir` of src/fuseops/file.cc and
-- src/fuseops/directory.cc.
use h_flat.Base.{
  ℕ, zero, suc, ◌+◌, Bool, false, not, List, [], ◌∷◌, ◌++◌, Option, none, some, Str, str, eqb,
  if◌then◌else◌, length, drop, map, reverse,
}
use h_flat.Paths.{to_string, find_first, c_string}
use h_flat.Data.Block.{has_updates}
use h_flat.Metadata.Defs.{Metadata, u32, check_access, eacces}
use h_flat.World.State.{System, M, ◌>>=◌, ◌>>◌, pure, from_env, no_fuel, load_md, load_di, deref}
use h_flat.World.Helper.{eagain, put_metadata}
use h_flat.World.Lookup.{lookup}
use h_flat.Ops.Sync.{looked_up, hflat_fsync, change_md}

-- `struct stat`.
pub record Stat : Type 0 where
  pub st_ino : ℕ
  pub st_atime : ℕ
  pub st_mtime : ℕ
  pub st_ctime : ℕ
  pub st_uid : ℕ
  pub st_gid : ℕ
  pub st_mode : ℕ
  pub st_nlink : ℕ
  pub st_size : ℕ
  pub st_blocks : ℕ
  pub st_blksize : ℕ

unfoldable pub stat_of : ℕ → Metadata → Stat
stat_of block_size md = record {
  st_ino = md.inode_number;
  st_atime = md.atime;
  st_mtime = md.mtime;
  st_ctime = md.ctime;
  st_uid = md.uid;
  st_gid = md.gid;
  st_mode = md.mode;
  st_nlink = md.link_count;
  st_size = md.size;
  st_blocks = md.blocks;
  st_blksize = block_size;
}

-- `fi->flags & O_ACCMODE`.
unfoldable pub access_mode : ℕ → ℕ
access_mode flags = Prim.Native.Nat.bit_and flags 3

-- The permission that the access mode asks for: O_RDONLY is 0, O_WRONLY 1, O_RDWR 2.
unfoldable pub wanted_access : ℕ → ℕ
wanted_access access =
    if eqb access 0 then 4 else if eqb access 1 then 2 else if eqb access 2 then 6 else 0

-- The name in the key of a directory's entry.
unfoldable pub name_of_key : Str → Str
unfolding find_first
name_of_key key = elim (find_first b'|' key) [ none ↦ key | some i ↦ drop (i + 1) key ]

-- What `filldir` is handed, as a `char *`.
unfoldable pub filled_name : Str → Str
unfolding name_of_key c_string
filled_name key = c_string (name_of_key key)

abbrev pub back_or : Str → List Str → Str
back_or start keys = elim (reverse keys) [ [] ↦ start | k ∷ ks ↦ k ]

module _ {S : Type 0} (sys : System S) where
  -- Changes of the block that was written last are flushed first; that this may fail is not looked at.
  unfoldable pub hflat_getattr : ℕ → Str → M S (ℕ × Option Stat)
  unfolding lookup load_md load_di has_updates hflat_fsync stat_of
  hflat_getattr fuel user_path = do
    (err, found) ← lookup sys fuel user_path
    if not (eqb err 0) then pure (err, none) else (do
      r ← deref found
      mdi ← load_md r
      elim mdi.dirty_data [
        | none ↦ pure tt
        | some d ↦ do
          di ← load_di d
          if has_updates di then (do _ ← hflat_fsync sys fuel user_path false; pure tt) else pure tt
      ]
      mdi' ← load_md r
      pure (0, some (stat_of sys.block_size mdi'.md)))

  unfoldable pub hflat_fgetattr : ℕ → Str → M S (ℕ × Option Stat)
  unfolding hflat_getattr
  hflat_fgetattr fuel user_path = hflat_getattr fuel user_path

  unfoldable pub hflat_utimens : ℕ → Str → ℕ → ℕ → M S ℕ
  unfolding looked_up change_md put_metadata
  hflat_utimens zero user_path atime mtime = λ w. no_fuel
  hflat_utimens (suc fuel) user_path atime mtime =
      let again = hflat_utimens fuel user_path atime mtime in
      looked_up sys fuel user_path λ r. do
        change_md sys r (λ md. record md { atime = u32 atime; mtime = u32 mtime })
        err ← put_metadata sys r
        if eqb err eagain then again else pure err

  unfoldable pub hflat_open : ℕ → Str → ℕ → M S ℕ
  unfolding looked_up load_md check_access wanted_access access_mode
  hflat_open fuel user_path flags = looked_up sys fuel user_path λ r. do
    mdi ← load_md r
    pure (check_access sys.context mdi.md (wanted_access (access_mode flags)))

  unfoldable pub hflat_release : ℕ → Str → Bool → M S ℕ
  unfolding hflat_fsync
  hflat_release fuel user_path append = hflat_fsync sys fuel user_path append

  -- The names in the pages of keys, each page from the last key of the one before.
  unfoldable pub read_names : ℕ → Str → Str → M S (List Str)
  unfolding filled_name
  read_names zero start end = λ w. no_fuel
  read_names (suc fuel) start end =
      let more = λ (k : Str). read_names fuel k end in
      do
        keys ← from_env (sys.get_key_range start end 100)
        if eqb (length keys) 100
            then (do names ← more (back_or start keys); pure (map filled_name keys ++ names))
            else pure (map filled_name keys)

  -- The error, and the names that are handed to the caller's function one by one.
  unfoldable pub hflat_readdir : ℕ → Str → M S (ℕ × List Str)
  unfolding lookup load_md check_access to_string read_names
  hflat_readdir fuel user_path = do
    (err, found) ← lookup sys fuel user_path
    if not (eqb err 0) then pure (err, []) else (do
      r ← deref found
      mdi ← load_md r
      if not (eqb (check_access sys.context mdi.md 4) 0) then pure (eacces, []) else (do
        let start = to_string mdi.md.inode_number ++ str "|"
        names ← read_names fuel start (start ++ (251 ∷ []))
        pure (0, names)))
