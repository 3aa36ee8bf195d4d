-- ===== src/Ops/Rename.antt =====
-- src/fuseops/rename.cc.
use h_flat.Base.{
  ℕ, Bool, true, false, not, ◌&&◌, [], ◌++◌, none, some, Str, str, str_eq, ◌==◌, eqb, ltb,
  if◌then◌else◌, length, take, Fault,
}
use Prim.Native.Nat.{bit_and}
use h_flat.PathMap.Update.{DbEntry, EntryType}
use h_flat.Paths.{c_string}
use h_flat.Metadata.Defs.{
  Metadata, User, InodeType, hardlink_s, hardlink_t, force_update, posix, is_dir, check_access,
  update_ac_time, eacces,
}
use h_flat.World.State.{
  System, M, ◌>>=◌, ◌>>◌, pure, from_env, dies, load_md, new_metadata_info, unless_err, deref,
  req_0, answer, refused, require_same_version, ignore_version,
}
use h_flat.World.Helper.{
  einval, enoent, eio, get_metadata, create_metadata, delete_metadata, put_metadata_forced,
  lookup_cache_invalidate,
}
use h_flat.World.Util.{database_operation, path_to_filename, generate_inode_number}
use h_flat.World.Lookup.{lookup, get_metadata_userpath}
use h_flat.Ops.Sync.{looked_up, lookup_parent, change_md}
use h_flat.Ops.Create.{w_ok, sticky_refuses, create_directory_entry, delete_directory_entry}
use h_flat.Ops.Link.{hflat_readlink, symlink_entry_for}
use h_flat.Ops.Unlink.{hflat_unlink, hflat_rmdir, removed_entry_for, is_target}

-- `strncmp` over the length of the first path: whether the second one starts with it.
unfoldable pub starts_with : Str → Str → Bool
starts_with first path = take (length first) path == first

unfoldable pub is_lnk : ℕ → Bool
is_lnk mode = eqb (bit_and mode 0o170000) 0o120000

abbrev pub is_force_update : InodeType → Bool
is_force_update posix = false
is_force_update hardlink_t = false
is_force_update hardlink_s = false
is_force_update force_update = true

abbrev pub move_entry_for : Str → Str → DbEntry
move_entry_for from to = record { origin = from; type = EntryType.move_entry; target = to }

-- The name of the key that marks a rename under way.
unfoldable pub recovery_entry : Str → Str → Str
unfolding path_to_filename
recovery_entry from to = path_to_filename to ++ (str "|recovery|" ++ from)

-- The path of a name in a directory.
unfoldable pub in_directory : Str → Str → Str
in_directory dir name = (if ltb 1 (length dir) then dir ++ str "/" else str "/") ++ name

-- What `rename_lookup` finds: the two directories and the two inodes.
pub record RenamePaths : Type 0 where
  pub dir_from : ℕ
  pub dir_to : ℕ
  pub from : ℕ
  pub to : ℕ

module _ {S : Type 0} (sys : System S) where
  -- The checks of `rename_lookup` once all is found. The owner of the target counts even where there is
  -- no target: it is user 0 then.
  unfoldable pub may_rename : User → Metadata → Metadata → Metadata → ℕ
  unfolding sticky_refuses check_access
  may_rename u dir_to to dir_from =
      if sticky_refuses sys u dir_to to
      then eacces
      else if not (eqb (check_access u dir_to w_ok) 0)
      then check_access u dir_to w_ok
      else check_access u dir_from w_ok

  unfoldable pub rename_lookup : ℕ → Str → Str → (RenamePaths → M S ℕ) → M S ℕ
  unfolding starts_with lookup_parent looked_up load_md sticky_refuses lookup may_rename
  rename_lookup fuel path_from path_to rest =
      if starts_with path_from path_to then pure einval else (do
        (err, found_from) ← lookup_parent sys fuel path_from
        unless_err err (do
          (err', found_to) ← lookup_parent sys fuel path_to
          unless_err err' (
              looked_up sys fuel path_from λ from. do
                dir_from ← deref found_from
                dir_to ← deref found_to
                md_dir_from ← load_md dir_from
                md_from ← load_md from
                if sticky_refuses sys sys.context md_dir_from.md md_from.md
                    then pure eacces
                    else (do
                      (err'', found) ← lookup sys fuel path_to
                      if not (eqb err'' 0) && not (eqb err'' enoent) then pure err'' else (do
                        to ← deref found
                        md_dir_to ← load_md dir_to
                        md_to ← load_md to
                        md_dir_from' ← load_md dir_from
                        unless_err (may_rename sys.context md_dir_to.md md_to.md md_dir_from'.md) (
                            rest (record {
                              dir_from = dir_from;
                              dir_to = dir_to;
                              from = from;
                              to = to;
                            })))))))

  -- The metadata goes to the target's key, which must have no version, under the version of the
  -- target's object.
  unfoldable pub rename_regular : ℕ → ℕ → M S ℕ
  unfolding change_md update_ac_time load_md
  rename_regular to from = do
    now ← from_env sys.time
    change_md sys from (update_ac_time now)
    mdi_from ← load_md from
    mdi_to ← load_md to
    reply ← from_env (
        sys.put mdi_to.system_path [] require_same_version
          (record { value = sys.serialize_md mdi_from.md; version = mdi_to.key_version }))
    elim reply [
      | refused f ↦ pure eio
      | answer _ ↦ do
        deleted ← from_env (sys.delete mdi_from.system_path [] ignore_version)
        pure (elim deleted [ refused f ↦ eio | answer _ ↦ 0 ])
    ]

  unfoldable pub rename_softlink : ℕ → Str → Str → ℕ → ℕ → M S ℕ
  unfolding hflat_readlink c_string database_operation rename_regular
  rename_softlink fuel path_from path_to to from = do
    (err, buffer) ← hflat_readlink sys fuel path_from sys.limits.path_max
    req_0 (pure err)
    req_0 (database_operation sys fuel (removed_entry_for path_from))
    req_0 (database_operation sys fuel (symlink_entry_for path_to (c_string buffer)))
    rename_regular to from

  unfoldable pub rename_hardlink : ℕ → Str → ℕ → M S ℕ
  unfolding get_metadata_userpath load_md rename_regular lookup_cache_invalidate
  rename_hardlink fuel path_from to = do
    (err, found) ← get_metadata_userpath sys fuel path_from
    req_0 (pure err)
    source ← deref found
    mdi ← load_md source
    elim mdi.md.type [
      | hardlink_s ↦ do
        req_0 (rename_regular to source)
        lookup_cache_invalidate sys mdi.system_path
        pure 0
      | _ ↦ λ w. dies Fault.assertion
    ]

  -- The inode that an earlier move left at the origin goes.
  unfoldable pub remove_force_update : Str → M S (Unit {0})
  unfolding new_metadata_info get_metadata load_md delete_metadata
  remove_force_update key = do
    r ← new_metadata_info key
    err ← get_metadata sys r
    mdi ← load_md r
    if eqb err 0 && is_force_update mdi.md.type then req_0 (delete_metadata sys r) else pure tt

  unfoldable pub rename_directory : ℕ → Str → Str → ℕ → ℕ → ℕ → M S ℕ
  unfolding database_operation load_md remove_force_update in_directory path_to_filename
      generate_inode_number change_md create_metadata put_metadata_forced update_ac_time
  rename_directory fuel path_from path_to to from dir_from = do
    req_0 (database_operation sys fuel (move_entry_for path_from path_to))
    md_dir_from ← load_md dir_from
    remove_force_update (in_directory md_dir_from.system_path (path_to_filename path_from))
    change_md sys to (λ md. record md { type = force_update })
    ino ← generate_inode_number sys fuel
    change_md sys to (λ md. record md { inode_number = ino })
    req_0 (create_metadata sys to)
    (if sys.posix_full
        then req_0 (
            put_metadata_forced sys fuel from
              (do now ← from_env sys.time; change_md sys from (update_ac_time now)))
        else pure tt)
    pure 0

  -- A target that exists is removed; the reference to its metadata is looked up again if it was a
  -- hard link.
  unfoldable pub remove_target : ℕ → Str → ℕ → (ℕ → M S ℕ) → M S ℕ
  unfolding load_md is_dir hflat_rmdir hflat_unlink lookup
  remove_target fuel path_to to rest = do
    mdi ← load_md to
    if eqb mdi.md.inode_number 0 then rest to else (do
      err ←
          (if is_dir mdi.md.mode
            then hflat_rmdir sys fuel path_to
            else hflat_unlink sys fuel path_to)
      unless_err err (do
        gone ← load_md to
        if is_target gone.md.type
            then (do
              (_, found) ← lookup sys fuel path_to
              rest (elim found [ none ↦ to | some r ↦ r ]))
            else rest to))

  -- The move of the metadata, after the kind of the inode.
  unfoldable pub rename_inode : ℕ → Str → Str → RenamePaths → M S (Unit {0})
  unfolding load_md is_dir is_lnk rename_directory rename_softlink rename_hardlink rename_regular
  rename_inode fuel path_from path_to p = do
    mdi ← load_md p.from
    (if is_dir mdi.md.mode
        then req_0 (rename_directory fuel path_from path_to p.to p.from p.dir_from)
        else pure tt)
    (if is_lnk mdi.md.mode
        then req_0 (rename_softlink fuel path_from path_to p.to p.from)
        else pure tt)
    (if is_target mdi.md.type then req_0 (rename_hardlink fuel path_from p.to) else pure tt)
    if not (is_dir mdi.md.mode) && (not (is_target mdi.md.type) && not (is_lnk mdi.md.mode))
        then req_0 (rename_regular p.to p.from)
        else pure tt

  -- The two directory entries are the synchronization points: the second failing, both new ones go.
  unfoldable pub rename_entries : ℕ → Str → Str → RenamePaths → M S ℕ
  unfolding create_directory_entry delete_directory_entry path_to_filename recovery_entry
      rename_inode load_md lookup_cache_invalidate
  rename_entries fuel path_from path_to p = do
    err ← create_directory_entry sys fuel p.dir_to (path_to_filename path_to)
    unless_err err (do
      let recovery = recovery_entry path_from path_to
      req_0 (create_directory_entry sys fuel p.dir_to recovery)
      err' ← delete_directory_entry sys fuel p.dir_from (path_to_filename path_from)
      if not (eqb err' 0)
          then (do
            req_0 (delete_directory_entry sys fuel p.dir_to (path_to_filename path_to))
            req_0 (delete_directory_entry sys fuel p.dir_to recovery)
            pure err')
          else (do
            rename_inode fuel path_from path_to p
            req_0 (delete_directory_entry sys fuel p.dir_to recovery)
            mdi_to ← load_md p.to
            lookup_cache_invalidate sys mdi_to.system_path
            mdi_from ← load_md p.from
            lookup_cache_invalidate sys mdi_from.system_path
            pure 0))

  unfoldable pub hflat_rename : ℕ → Str → Str → M S ℕ
  unfolding rename_lookup remove_target rename_entries
  hflat_rename fuel path_from path_to = rename_lookup fuel path_from path_to λ p.
      remove_target fuel path_to p.to
        λ to. rename_entries fuel path_from path_to (record p { to = to })
