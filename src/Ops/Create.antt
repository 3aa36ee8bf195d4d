-- ===== src/Ops/Create.antt =====
-- src/fuseops/file.cc and src/fuseops/directory.cc: directory entries, and the life of a file.
use h_flat.Base.{
  ℕ, ◌+◌, ◌-◌, ◌%◌, ◌^◌, Bool, true, false, not, ◌&&◌, [], ◌∷◌, ◌++◌, none, some, Str, str, str_eq,
  eqb, if◌then◌else◌, Fault,
}
use h_flat.Paths.{to_string, find_first, colon}
use h_flat.Metadata.Defs.{
  Metadata, User, posix, hardlink_s, force_update, has_bits, update_acm_time, update_ac_time,
  check_access, inherit_path_permissions, eacces,
}
use h_flat.World.State.{
  System, M, ◌>>=◌, ◌>>◌, pure, lift, from_env, dies, load_md, store_md, unless_err, deref, req_0,
  answer, refused, require_same_version, remote_version_mismatch, remote_not_found, other_failure,
}
use h_flat.World.Helper.{
  enoent, eio, eexist, einval, put_metadata, put_metadata_forced, create_metadata, delete_metadata,
}
use h_flat.World.Util.{generate_inode_number, path_to_filename}
use h_flat.World.Lookup.{lookup, get_metadata_userpath}
use h_flat.Ops.Sync.{lookup_parent, change_md}

abbrev pub no_version : Str
no_version = []

abbrev pub version_one : Str
version_one = b'1' ∷ []

abbrev pub w_ok : ℕ
w_ok = 2

abbrev pub x_ok : ℕ
x_ok = 1

abbrev pub s_isvtx : ℕ
s_isvtx = 0o1000

module _ {S : Type 0} (sys : System S) where
  unfoldable pub direntry_key : ℕ → Str → Str
  unfolding to_string
  direntry_key inode_number filename = to_string inode_number ++ (str "|" ++ filename)

  -- With full POSIX compliance the directory's times are updated; a failure to do so is logged.
  unfoldable pub touch_directory : ℕ → ℕ → M S ℕ
  unfolding put_metadata_forced change_md update_acm_time
  touch_directory fuel dir =
      if sys.posix_full
      then (do
        _ ←
            put_metadata_forced sys fuel dir
              (do now ← from_env sys.time; change_md sys dir (update_acm_time now))
        pure 0)
      else pure 0

  unfoldable pub create_directory_entry : ℕ → ℕ → Str → M S ℕ
  unfolding load_md direntry_key touch_directory
  create_directory_entry fuel dir filename = do
    mdi ← load_md dir
    reply ← from_env (
        sys.put (direntry_key mdi.md.inode_number filename) no_version require_same_version
          (record { value = []; version = version_one }))
    elim reply [
      | refused remote_version_mismatch ↦ pure eexist
      | refused remote_not_found ↦ pure eio
      | refused other_failure ↦ pure eio
      | answer _ ↦ touch_directory fuel dir
    ]

  unfoldable pub delete_directory_entry : ℕ → ℕ → Str → M S ℕ
  unfolding load_md direntry_key touch_directory
  delete_directory_entry fuel dir filename = do
    mdi ← load_md dir
    reply ←
        from_env
          (sys.delete (direntry_key mdi.md.inode_number filename) version_one require_same_version)
    elim reply [ refused f ↦ pure eio | answer _ ↦ touch_directory fuel dir ]

  unfoldable pub initialize_metadata : ℕ → ℕ → ℕ → ℕ → M S (Unit {0})
  unfolding change_md update_acm_time generate_inode_number load_md store_md
      inherit_path_permissions
  initialize_metadata fuel r dir mode = do
    now ← from_env sys.time
    change_md sys r (λ md. record (update_acm_time now md) {
      type = posix;
      gid = sys.context.gid;
      uid = sys.context.uid;
      mode = mode;
    })
    ino ← generate_inode_number sys fuel
    change_md sys r (λ md. record md { inode_number = ino })
    mdi ← load_md r
    parent ← load_md dir
    md ← lift (inherit_path_permissions mdi.md parent.md)
    store_md r (record mdi { md = md })

  unfoldable pub has_colon : Str → Bool
  unfolding find_first
  has_colon path = elim (find_first colon path) [ none ↦ false | some i ↦ true ]

  -- The name is added to the directory before the metadata is written; a failure of the second
  -- ends the process.
  unfoldable pub create_in : ℕ → Str → ℕ → ℕ → ℕ → M S ℕ
  unfolding load_md check_access create_directory_entry path_to_filename initialize_metadata
      create_metadata
  create_in fuel user_path mode r dir = do
    parent ← load_md dir
    unless_err (check_access sys.context parent.md w_ok) (do
      err ← create_directory_entry fuel dir (path_to_filename user_path)
      unless_err err
          (do initialize_metadata fuel r dir mode; req_0 (create_metadata sys r); pure 0))

  unfoldable pub hflat_create : ℕ → Str → ℕ → M S ℕ
  unfolding lookup lookup_parent has_colon create_in
  hflat_create fuel user_path mode = do
    (err, found) ← lookup sys fuel user_path
    if eqb err 0 then pure eexist else if not (eqb err enoent) then pure err else (do
      (err', found_dir) ← lookup_parent sys fuel user_path
      if eqb err' enoent && has_colon user_path
          then pure 20
          else unless_err err'
              (do r ← deref found; dir ← deref found_dir; create_in fuel user_path mode r dir))

  -- The sticky bit: only the owner of the directory or of the file, or root.
  unfoldable pub sticky_refuses : User → Metadata → Metadata → Bool
  unfolding has_bits
  sticky_refuses u dir md =
      not (eqb u.uid 0)
      && (has_bits dir.mode s_isvtx && (not (eqb u.uid dir.uid) && not (eqb u.uid md.uid)))

  -- The checks of `unlink_lookup` on what it found.
  unfoldable pub may_unlink : User → Metadata → Metadata → ℕ
  unfolding check_access sticky_refuses
  may_unlink u dir md =
      if not (eqb (check_access u dir (w_ok + x_ok)) 0)
      then eacces
      else if sticky_refuses u dir md
      then eacces
      else 0

  unfoldable pub unlink_force_update : ℕ → Str → M S ℕ
  unfolding get_metadata_userpath load_md delete_metadata
  unlink_force_update fuel user_path = do
    (err, found) ← get_metadata_userpath sys fuel user_path
    if eqb err enoent
        then pure 0
        else unless_err err (do
          r ← deref found
          mdi ← load_md r
          elim mdi.md.type [ force_update ↦ delete_metadata sys r | _ ↦ λ w. dies Fault.assertion ])

  -- The number of links after one less, as the unsigned 32-bit field holds it.
  abbrev pub one_less : ℕ → ℕ
  one_less n = (n + 2 ^ 32 - 1) % 2 ^ 32

  -- The second half of `unlink_hardlink`: the target loses a link, and the source goes or is reset.
  unfoldable pub unlink_target : ℕ → ℕ → M S ℕ
  unfolding load_md change_md delete_metadata put_metadata update_ac_time
  unlink_target source target = do
    change_md sys target (λ md. record md { link_count = one_less md.link_count })
    mdi ← load_md target
    err ←
        (if eqb mdi.md.link_count 0 then delete_metadata sys target else (do
          now ← from_env sys.time
          change_md sys target (update_ac_time now)
          put_metadata sys target))
    if not (eqb err 0)
        then (do
          change_md sys source (λ md. record md { link_count = 1 })
          req_0 (put_metadata sys source)
          pure err)
        else (do req_0 (delete_metadata sys source); pure 0)

  unfoldable pub unlink_hardlink : ℕ → Str → ℕ → M S ℕ
  unfolding get_metadata_userpath load_md change_md put_metadata unlink_target
  unlink_hardlink fuel user_path target = do
    (err, found) ← get_metadata_userpath sys fuel user_path
    unless_err err (do
      source ← deref found
      mdi ← load_md source
      elim mdi.md.type [
        | hardlink_s ↦ if eqb mdi.md.link_count 0 then pure einval else (do
          change_md sys source (λ md. record md { link_count = 0 })
          err' ← put_metadata sys source
          unless_err err' (unlink_target source target))
        | _ ↦ λ w. dies Fault.assertion
      ])
