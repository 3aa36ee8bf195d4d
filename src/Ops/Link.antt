-- ===== src/Ops/Link.antt =====
-- src/fuseops/link.cc: symbolic and hard links.
use h_flat.Base.{
  ℕ, zero, suc, ◌+◌, ◌-◌, ◌%◌, ◌^◌, ◌≤◌, ◌<◌, ◌≡◌, refl, not, [], ◌∷◌, ◌++◌, Option, none, some,
  Str, str, str_eq, eqb, ltb, if◌then◌else◌, Exec, ok, fault, Fault, undefined, length, take,
  length-append, length-take, arith,
}
use h_flat.PathMap.Update.{DbEntry, EntryType}
use h_flat.PathMap.Defs.{readlink_call}
use h_flat.Metadata.Defs.{posix, hardlink_t, hardlink_s, is_dir, check_access, update_ac_time, u32}
use h_flat.World.State.{
  System, M, ◌>>=◌, ◌>>◌, pure, lift, from_env, dies, no_fuel, load_md, store_md, unless_err, deref,
  req_0, new_metadata_info,
}
use h_flat.World.Helper.{
  eagain, eexist, enoent, put_metadata, create_metadata, lookup_cache_invalidate,
}
use h_flat.World.Util.{database_operation, path_to_filename}
use h_flat.World.Lookup.{lookup, system_path_of, hardlink_key}
use h_flat.Ops.Sync.{looked_up, lookup_parent, change_md}
use h_flat.Ops.Create.{w_ok, create_directory_entry, delete_directory_entry, initialize_metadata}

-- The buffer that a link's destination is copied into, with its zero byte: whole, or cut. With no
-- room at all the code writes in front of the buffer.
unfoldable pub readlink_buffer : ℕ → Str → Exec Str
readlink_buffer size destination =
    if ltb (length destination) size
    then ok (destination ++ (0 ∷ []))
    else if eqb size 0
    then fault undefined
    else ok (take (size - 1) destination ++ (0 ∷ []))

abbrev pub symlink_entry_for : Str → Str → DbEntry
symlink_entry_for origin target = record {
  origin = origin;
  type = EntryType.symlink_entry;
  target = target;
}

-- `S_IFLNK | S_IRWXU | S_IRGRP | S_IXGRP | S_IXOTH`.
abbrev pub symlink_mode : ℕ
symlink_mode = 0o120751

abbrev pub one_more : ℕ → ℕ
one_more n = u32 (n + 1)

module _ {S : Type 0} (sys : System S) where
  -- The time stamp, which may report an error, is not looked at.
  unfoldable pub hflat_readlink : ℕ → Str → ℕ → M S (ℕ × Str)
  unfolding system_path_of readlink_buffer
  hflat_readlink fuel user_path size = do
    (destination, stamp) ← system_path_of sys fuel user_path readlink_call
    buffer ← lift (readlink_buffer size destination)
    pure (0, buffer)

  -- The steps of `hflat_symlink` once the origin is known to be free and its directory is found.
  unfoldable pub symlink_in : ℕ → Str → Str → ℕ → ℕ → M S ℕ
  unfolding load_md check_access create_directory_entry path_to_filename database_operation
      initialize_metadata create_metadata
  symlink_in fuel target origin r dir = do
    parent ← load_md dir
    unless_err (check_access sys.context parent.md w_ok) (do
      err ← create_directory_entry sys fuel dir (path_to_filename origin)
      unless_err err (do
        err' ← database_operation sys fuel (symlink_entry_for origin target)
        unless_err err' (do
          initialize_metadata sys fuel r dir symlink_mode
          req_0 (create_metadata sys r)
          pure 0)))

  unfoldable pub hflat_symlink : ℕ → Str → Str → M S ℕ
  unfolding lookup lookup_parent symlink_in
  hflat_symlink fuel target origin = do
    (err, found) ← lookup sys fuel origin
    if eqb err 0 then pure eexist else if not (eqb err enoent) then pure err else (do
      (err', found_dir) ← lookup_parent sys fuel origin
      unless_err err'
          (do r ← deref found; dir ← deref found_dir; symlink_in fuel target origin r dir))

  -- `toHardlinkT`: the metadata moves to the key of the hard link, and a source takes its place.
  unfoldable pub to_hardlink_t : ℕ → M S ℕ
  unfolding load_md store_md new_metadata_info put_metadata create_metadata
  to_hardlink_t target = do
    mdi ← load_md target
    elim mdi.md.type [
      | posix ↦ do
        source ← new_metadata_info mdi.system_path
        fresh ← load_md source
        store_md source (record fresh {
          key_version = mdi.key_version;
          md = record fresh.md {
            type = hardlink_s;
            inode_number = mdi.md.inode_number;
            link_count = 1;
          };
        })
        store_md target (record mdi {
          system_path = hardlink_key sys mdi.md.inode_number;
          md = record mdi.md { type = hardlink_t };
        })
        err ← put_metadata sys source
        unless_err err (do req_0 (create_metadata sys target); pure 0)
      | _ ↦ λ w. dies Fault.assertion
    ]

  -- The directory entry is taken back, and the call made again if another client was faster.
  unfoldable pub undo_hardlink : ℕ → Str → ℕ → ℕ → M S ℕ → M S ℕ
  unfolding delete_directory_entry path_to_filename
  undo_hardlink fuel origin dir err again = do
    req_0 (delete_directory_entry sys fuel dir (path_to_filename origin))
    if eqb err eagain then again else pure err

  -- The steps of `hflat_hardlink` once the names are checked.
  unfoldable pub hardlink_in : ℕ → Str → ℕ → ℕ → ℕ → M S ℕ → M S ℕ
  unfolding load_md lookup_cache_invalidate create_directory_entry path_to_filename to_hardlink_t
      undo_hardlink change_md put_metadata create_metadata update_ac_time
  hardlink_in fuel origin r target dir again = do
    mdi ← load_md r
    mdi_target ← load_md target
    lookup_cache_invalidate sys mdi.system_path
    lookup_cache_invalidate sys mdi_target.system_path
    err ← create_directory_entry sys fuel dir (path_to_filename origin)
    unless_err err (do
      err' ← elim mdi_target.md.type [ hardlink_t ↦ pure 0 | _ ↦ to_hardlink_t target ]
      if not (eqb err' 0) then undo_hardlink fuel origin dir err' again else (do
        now ← from_env sys.time
        change_md sys target
            (λ md. record (update_ac_time now md) { link_count = one_more md.link_count })
        err'' ← put_metadata sys target
        if not (eqb err'' 0) then undo_hardlink fuel origin dir err'' again else (do
          linked ← load_md target
          change_md sys r (λ md. record md {
            type = hardlink_s;
            inode_number = linked.md.inode_number;
            link_count = 1;
          })
          req_0 (create_metadata sys r)
          pure 0)))

  unfoldable pub hflat_hardlink : ℕ → Str → Str → M S ℕ
  unfolding looked_up lookup lookup_parent load_md check_access is_dir hardlink_in
  hflat_hardlink zero target origin = λ w. no_fuel
  hflat_hardlink (suc fuel) target origin =
      let again = hflat_hardlink fuel target origin in
      looked_up sys fuel target λ t. do
        (err, found_dir) ← lookup_parent sys fuel origin
        unless_err err (do
          (err', found_target_dir) ← lookup_parent sys fuel target
          unless_err err' (do
            dir ← deref found_dir
            target_dir ← deref found_target_dir
            md_dir ← load_md dir
            md_target_dir ← load_md target_dir
            unless_err (check_access sys.context md_dir.md w_ok) (
                unless_err (check_access sys.context md_target_dir.md w_ok) (do
                  (err'', found) ← lookup sys fuel origin
                  if eqb err'' 0
                      then pure eexist
                      else if not (eqb err'' enoent)
                      then pure err''
                      else (do
                        r ← deref found
                        mdi_target ← load_md t
                        if is_dir mdi_target.md.mode
                            then (λ w. dies Fault.assertion)
                            else hardlink_in fuel origin r t dir again)))))

-- A buffer with room for at least one byte receives as much of the destination as fits in front of
-- the zero byte that ends it, and is not written past its end.
readlink_buffer_lem :
    (size : ℕ) (destination : Str)
    → 0 < size
    → (readlink_buffer size destination ≡ ok (take (size - 1) destination ++ (0 ∷ [])))
      × (length (take (size - 1) destination ++ (0 ∷ [])) ≤ size)
unfolding readlink_buffer
readlink_buffer_lem size destination room = (
  ground (arith, take_long (size - 1) destination),
  omega (
    arith,
    length-append (take (size - 1) destination) (0 ∷ []),
    length-take (size - 1) destination,
  ),
)
  where
    take_long : (n : ℕ) (s : Str) → length s ≤ n → take n s ≡ s
    take_long zero [] h = refl
    take_long zero (c ∷ s) h = absurd (omega arith)
    take_long (suc n) [] h = refl
    take_long (suc n) (c ∷ s) h = h_flat.Base.ap (◌∷◌ c) (take_long n s (omega arith))
