-- ===== src/Ops/Unlink.antt =====
-- `hflat_unlink` of src/fuseops/file.cc and `hflat_rmdir` of src/fuseops/directory.cc.
use h_flat.Base.{
  ℕ, zero, suc, ◌-◌, ◌/◌, Bool, true, false, not, ◌||◌, [], ◌∷◌, ◌++◌, Str, str, str_eq, eqb,
  if◌then◌else◌,
}
use h_flat.Paths.{to_string}
use h_flat.PathMap.Update.{DbEntry, EntryType, has_mapping}
use h_flat.Metadata.Defs.{InodeType, posix, hardlink_t, hardlink_s, force_update, is_dir}
use h_flat.World.State.{
  System, M, ◌>>=◌, ◌>>◌, pure, from_env, no_fuel, load_md, unless_err, deref, req_0,
  ignore_version,
}
use h_flat.World.Helper.{eagain, delete_metadata}
use h_flat.World.Util.{database_operation, database_update, path_to_filename, get_pmap}
use h_flat.Ops.Sync.{looked_up, lookup_parent}
use h_flat.Ops.Rw.{block_key}
use h_flat.Ops.Create.{
  may_unlink, unlink_hardlink, unlink_force_update, delete_directory_entry, hflat_create,
}

abbrev pub enotempty : ℕ
enotempty = 39

abbrev pub s_ifreg : ℕ
s_ifreg = 0o100000

abbrev pub is_target : InodeType → Bool
is_target posix = false
is_target hardlink_t = true
is_target hardlink_s = false
is_target force_update = false

abbrev pub removed_entry_for : Str → DbEntry
removed_entry_for path = record { origin = path; type = EntryType.removed_entry; target = [] }

module _ {S : Type 0} (sys : System S) where
  -- The loop of the thread that deletes the blocks of a file, from the last one down; it ends once
  -- the size is used up, so as many rounds as the size are enough. The thread runs at once here.
  unfoldable pub delete_file_blocks : ℕ → ℕ → ℕ → M S (Unit {0})
  unfolding block_key
  delete_file_blocks zero size inode_number = pure tt
  delete_file_blocks (suc n) size inode_number =
      let later = delete_file_blocks n (size - sys.block_size) inode_number in
      if eqb size 0 then pure tt else (do
        _ ←
            from_env
              (sys.delete (block_key sys inode_number (size / sys.block_size)) [] ignore_version)
        later)

  -- `unlink_lookup`; the references to the file and to its directory go to the rest of the call.
  unfoldable pub unlink_lookup : ℕ → Str → (ℕ → ℕ → M S ℕ) → M S ℕ
  unfolding looked_up lookup_parent load_md may_unlink
  unlink_lookup fuel user_path rest = looked_up sys fuel user_path λ r. do
    (err, found) ← lookup_parent sys fuel user_path
    unless_err err (do
      dir ← deref found
      md_dir ← load_md dir
      mdi ← load_md r
      unless_err (may_unlink sys sys.context md_dir.md mdi.md) (rest r dir))

  -- The path mapping of a file that is gone.
  unfoldable pub drop_mapping : ℕ → Str → M S (Unit {0})
  unfolding get_pmap has_mapping database_operation
  drop_mapping fuel user_path = do
    db ← get_pmap sys
    if has_mapping user_path db
        then req_0 (database_operation sys fuel (removed_entry_for user_path))
        else pure tt

  -- What `hflat_unlink` does once the metadata is deleted, up to the reuse mapping.
  unfoldable pub unlink_rest : ℕ → Str → ℕ → ℕ → Bool → Bool → M S (Unit {0})
  unfolding drop_mapping unlink_force_update delete_directory_entry path_to_filename load_md
      delete_file_blocks
  unlink_rest fuel user_path r dir hardlink directory = do
    drop_mapping fuel user_path
    (if directory then req_0 (unlink_force_update sys fuel user_path) else pure tt)
    req_0 (delete_directory_entry sys fuel dir (path_to_filename user_path))
    mdi ← load_md r
    if not hardlink || eqb mdi.md.link_count 0
        then delete_file_blocks mdi.md.size mdi.md.size mdi.md.inode_number
        else pure tt

  unfoldable pub hflat_unlink : ℕ → Str → M S ℕ
  unfolding unlink_lookup load_md is_dir unlink_hardlink delete_metadata unlink_rest get_pmap
      has_mapping hflat_create
  hflat_unlink zero user_path = λ w. no_fuel
  hflat_unlink (suc fuel) user_path =
      let again = hflat_unlink fuel user_path in
      let unlink_too = λ (path : Str). hflat_unlink fuel path in
      unlink_lookup fuel user_path λ r dir. do
        mdi ← load_md r
        let hardlink = is_target mdi.md.type
        let directory = is_dir mdi.md.mode
        err ← (if hardlink then unlink_hardlink sys fuel user_path r else delete_metadata sys r)
        if eqb err eagain
            then again
            else unless_err err (do
              unlink_rest fuel user_path r dir hardlink directory
              gone ← load_md r
              db ← get_pmap sys
              if has_mapping gone.system_path db
                  then (do
                    created ← hflat_create sys fuel gone.system_path s_ifreg
                    (if eqb created 0
                        then (do _ ← unlink_too gone.system_path; pure 0)
                        else pure 0))
                  else pure 0)

  unfoldable pub hflat_rmdir : ℕ → Str → M S ℕ
  unfolding looked_up load_md database_update hflat_unlink to_string
  hflat_rmdir fuel user_path = looked_up sys fuel user_path λ r. do
    mdi ← load_md r
    let start = to_string mdi.md.inode_number ++ str "|"
    keys ← from_env (sys.get_key_range start (start ++ (255 ∷ [])) 1)
    elim keys [
      | k ∷ ks ↦ pure enotempty
      | [] ↦ do _ ← database_update sys; hflat_unlink fuel user_path
    ]
