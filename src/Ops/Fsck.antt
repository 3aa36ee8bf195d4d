-- ===== src/Ops/Fsck.antt =====
-- src/fsck/fsck.cc: the check of a directory, which an extended attribute of a special name starts.
use h_flat.Base.{
  ℕ, zero, suc, ◌+◌, Bool, false, not, ◌&&◌, ◌||◌, List, [], ◌∷◌, ◌++◌, Option, none, some, Str,
  str, eqb, if◌then◌else◌, length, take, drop, Fault,
}
use h_flat.Paths.{to_string, find_first, find_last, slash}
use h_flat.PathMap.Update.{has_mapping}
use h_flat.Metadata.Defs.{Metadata, is_dir}
use h_flat.World.State.{
  System, M, ◌>>=◌, ◌>>◌, pure, from_env, dies, no_fuel, load_md, unless_err, deref, answer,
  refused, require_same_version, ignore_version,
}
use h_flat.World.Helper.{enoent, eio, eexist, lookup_cache_invalidate}
use h_flat.World.Util.{database_operation, path_to_filename, get_pmap}
use h_flat.World.Lookup.{lookup, get_metadata_userpath}
use h_flat.Ops.Sync.{lookup_parent}
use h_flat.Ops.Create.{create_directory_entry, delete_directory_entry}
use h_flat.Ops.Unlink.{removed_entry_for, is_target}
use h_flat.Ops.Stat.{name_of_key, back_or}

-- `entry.substr(entry.find_last_of('|') + 1)`.
unfoldable pub recovery_origin : Str → Str
unfolding find_last
recovery_origin entry = elim (find_last (λ c. eqb c b'|') entry) [
  | none ↦ entry
  | some i ↦ drop (i + 1) entry
]

abbrev pub ends_with_slash : Str → Bool
ends_with_slash path = elim (find_last (λ c. eqb c slash) path) [
  | none ↦ false
  | some i ↦ eqb (i + 1) (length path)
]

-- The path that a recovery entry was written for. The path of a directory is not empty.
unfoldable pub recovery_target : Str → Str → Str
unfolding find_last find_first
recovery_target dir_path entry =
    (if ends_with_slash dir_path then dir_path else dir_path ++ str "/")
    ++ (elim (find_first b'|' entry) [ none ↦ entry | some i ↦ take i entry ])

abbrev pub is_used : Metadata → Bool
is_used md = not (eqb md.inode_number 0)

abbrev pub used_target : Metadata → Bool
used_target md = is_used md && is_target md.type

unfoldable pub used_directory : Metadata → Bool
unfolding is_dir
used_directory md = is_used md && is_dir md.mode

-- The references to the metadata at the target and at the origin of a rename.
abbrev pub Ends : Type 0
Ends = ℕ × ℕ

module _ {S : Type 0} (sys : System S) where
  -- The loop over a page: the first entry that is not found, or the last one. The path is the
  -- directory's with the name behind it.
  unfoldable pub scan_keys : ℕ → Str → List Str → Str → M S (ℕ × Str)
  unfolding name_of_key lookup
  scan_keys fuel user_path [] entry = pure (0, entry)
  scan_keys fuel user_path (k ∷ ks) entry =
      let rest = scan_keys fuel user_path ks (name_of_key k) in
      do
        (err, _) ← lookup sys fuel (user_path ++ name_of_key k)
        if eqb err 0 then rest else pure (err, name_of_key k)

  unfoldable pub scan_pages : ℕ → Str → Str → Str → Str → M S (ℕ × Str)
  unfolding scan_keys
  scan_pages zero user_path start end entry = λ w. no_fuel
  scan_pages (suc fuel) user_path start end entry =
      let more = λ (k : Str) (e : Str). scan_pages fuel user_path k end e in
      do
        keys ← from_env (sys.get_key_range start end 100)
        (err, entry') ← scan_keys fuel user_path keys entry
        if not (eqb err 0)
            then pure (err, entry')
            else if eqb (length keys) 100
            then more (back_or start keys) entry'
            else pure (0, entry')

  unfoldable pub scan_direntries : ℕ → Str → ℕ → Str → M S (ℕ × Str)
  unfolding load_md to_string scan_pages
  scan_direntries fuel user_path dir entry = do
    mdi ← load_md dir
    let start = to_string mdi.md.inode_number ++ str "|"
    scan_pages fuel user_path start (start ++ (254 ∷ [])) entry

  -- A call that leaves its second parameter as it is where it finds nothing.
  abbrev pub or_old : ℕ → ℕ × Option ℕ → ℕ
  or_old r (err, none) = r
  or_old r (err, some q) = q

  unfoldable pub stored_ends : ℕ → Str → Str → Ends → M S Ends
  unfolding get_metadata_userpath
  stored_ends fuel target origin (t, o) = do
    found_t ← get_metadata_userpath sys fuel target
    found_o ← get_metadata_userpath sys fuel origin
    pure (or_old t found_t, or_old o found_o)

  unfoldable pub remove_mapping : ℕ → Str → M S ℕ
  unfolding get_pmap has_mapping database_operation
  remove_mapping fuel path = do
    db ← get_pmap sys
    if has_mapping path db then database_operation sys fuel (removed_entry_for path) else pure 0

  -- The metadata under the keys themselves: what a hard link or a moved directory leaves there.
  unfoldable pub resolve_ends : ℕ → Str → Str → Ends → (Ends → M S ℕ) → M S ℕ
  unfolding load_md stored_ends used_directory remove_mapping
  resolve_ends fuel target origin (t, o) rest = do
    mdi_t ← load_md t
    mdi_o ← load_md o
    (t', o') ←
        if used_target mdi_t.md || used_target mdi_o.md
        then stored_ends fuel target origin (t, o)
        else pure (t, o)
    mdi_t' ← load_md t'
    mdi_o' ← load_md o'
    if used_directory mdi_t'.md || used_directory mdi_o'.md
        then (do
          err ← remove_mapping fuel target
          unless_err err (do
            err' ← remove_mapping fuel origin
            unless_err err' (do ends ← stored_ends fuel target origin (t', o'); rest ends)))
        else rest (t', o')

  -- The metadata go back to the origin, if it has none, and the target's go.
  unfoldable pub move_back : Ends → M S ℕ
  unfolding load_md is_dir
  move_back (t, o) = do
    mdi_t ← load_md t
    mdi_o ← load_md o
    err ←
        if is_used mdi_o.md
        then pure 0
        else if not (is_used mdi_t.md) || is_dir mdi_t.md.mode
        then (λ w. dies Fault.assertion)
        else (do
          reply ← from_env (
              sys.put mdi_o.system_path [] require_same_version
                (record { value = sys.serialize_md mdi_t.md; version = mdi_t.key_version }))
          pure (elim reply [ refused f ↦ eio | answer _ ↦ 0 ]))
    unless_err err (
        if not (is_used mdi_t.md) then pure 0 else (do
          deleted ← from_env (sys.delete mdi_t.system_path [] ignore_version)
          pure (elim deleted [ refused f ↦ eio | answer _ ↦ 0 ])))

  -- A rename that did not finish is taken back.
  unfoldable pub recover_rename : ℕ → Str → ℕ → Str → M S ℕ
  unfolding recovery_origin recovery_target lookup lookup_parent lookup_cache_invalidate
      resolve_ends move_back create_directory_entry delete_directory_entry path_to_filename
  recover_rename fuel dir_path dir entry = do
    let origin = recovery_origin entry
    let target = recovery_target dir_path entry
    (_, found_t) ← lookup sys fuel target
    (_, found_o) ← lookup sys fuel origin
    (_, found_parent) ← lookup_parent sys fuel origin
    lookup_cache_invalidate sys origin
    lookup_cache_invalidate sys target
    t ← deref found_t
    o ← deref found_o
    resolve_ends fuel target origin (t, o)
        λ ends. do
          err ← move_back ends
          unless_err err (do
            parent ← deref found_parent
            err' ← create_directory_entry sys fuel parent (path_to_filename origin)
            if not (eqb err' 0) && not (eqb err' eexist)
                then pure err'
                else delete_directory_entry sys fuel dir entry)

  -- A name without an inode: its mapping goes, and then the entry.
  unfoldable pub drop_entry : ℕ → Str → ℕ → Str → M S ℕ
  unfolding remove_mapping delete_directory_entry
  drop_entry fuel user_path dir entry = do
    err ← remove_mapping fuel (user_path ++ entry)
    unless_err err (delete_directory_entry sys fuel dir entry)

  -- The loop of `fsck_directory`, with the entry that was looked at last.
  unfoldable pub fsck_entries : ℕ → Str → ℕ → Str → M S ℕ
  unfolding scan_direntries find_first recover_rename drop_entry
  fsck_entries zero user_path dir entry = λ w. no_fuel
  fsck_entries (suc fuel) user_path dir entry =
      let again = fsck_entries fuel user_path dir in
      do
        (err, entry') ← scan_direntries fuel user_path dir entry
        if eqb err 0 then pure 0 else if not (eqb err enoent) then pure err else (do
          repaired ← elim (find_first b'|' entry') [
            | some i ↦ recover_rename fuel user_path dir entry'
            | none ↦ drop_entry fuel user_path dir entry'
          ]
          unless_err repaired (again entry'))

  unfoldable pub fsck_directory : ℕ → Str → ℕ → M S ℕ
  unfolding load_md is_dir fsck_entries
  fsck_directory fuel user_path dir = do
    mdi ← load_md dir
    if is_dir mdi.md.mode && eqb sys.context.uid 0 then fsck_entries fuel user_path dir [] else λ w.
        dies Fault.assertion
