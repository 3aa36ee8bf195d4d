-- ===== src/World/Util.antt =====
-- src/util.cc: inode numbers, and the path map's log in the namespace.
use h_flat.Base.{
  ℕ, zero, suc, ◌+◌, ◌-◌, ◌%◌, not, List, [], ◌∷◌, none, some, Str, str, str_eq, eqb, ltb,
  if◌then◌else◌, Fault, drop,
}
use h_flat.Paths.{to_string, find_last, is_separator}
use h_flat.PathMap.Defs.{PathMapDb}
use h_flat.PathMap.Update.{DbEntry, update_snapshot, load_snapshot, serialize_snapshot}
use h_flat.World.State.{
  System, M, ◌>>=◌, ◌>>◌, pure, lift, from_env, done, dies, no_fuel, remote_not_found,
  remote_version_mismatch, other_failure, answer, refused, require_same_version, unless_err,
}
use h_flat.World.Helper.{
  eio, eexist, einval, to_int64, put_db_entry, get_db_entry, get_db_version, put_db_snapshot,
  get_db_snapshot,
}

abbrev pub ealready : ℕ
ealready = 114

-- `std::numeric_limits<std::uint16_t>::max()`.
abbrev pub u16_max : ℕ
u16_max = 65535

-- `path.substr(path.find_last_of("/:") + 1)`; `npos + 1` is 0.
unfoldable pub path_to_filename : Str → Str
unfolding find_last
path_to_filename path = elim (find_last is_separator path) [
  | none ↦ path
  | some i ↦ drop (i + 1) path
]

module _ {S : Type 0} (sys : System S) where
  unfoldable pub set_inum_base : ℕ → M S (Unit {0})
  set_inum_base n w = done (tt, record w { inum_base = n })

  abbrev pub base_version : ℕ → Str
  base_version n = if eqb n 0 then [] else to_string n

  abbrev pub inode_base_key : Str
  inode_base_key = str "inode_generation"

  -- The reservation of the numbers above the base that the namespace held.
  unfoldable pub claim_inode_base : M S ℕ → M S ℕ
  unfolding to_string
  claim_inode_base again w =
      (do
        reply ← from_env (
            sys.put inode_base_key (base_version w.inum_base) require_same_version
              (record { value = []; version = to_string (w.inum_base + u16_max) }))
        elim reply [
          | refused remote_version_mismatch ↦ again
          | refused remote_not_found ↦ pure eio
          | refused other_failure ↦ pure eio
          | answer _ ↦ pure 0
        ])
        w

  unfoldable pub grab_inode_generation_token : ℕ → M S ℕ
  unfolding set_inum_base claim_inode_base
  grab_inode_generation_token zero = λ w. no_fuel
  grab_inode_generation_token (suc fuel) =
      let claim = claim_inode_base (grab_inode_generation_token fuel) in
      do
        reply ← from_env (sys.get_version inode_base_key)
        elim reply [
          | answer version ↦ do set_inum_base (to_int64 sys (sys.stoll version)); claim
          | refused remote_not_found ↦ do set_inum_base 0; claim
          | refused remote_version_mismatch ↦ pure eio
          | refused other_failure ↦ pure eio
        ]

  -- A failure to get a new token is logged, and the call goes on.
  unfoldable pub generate_inode_number : ℕ → M S ℕ
  unfolding grab_inode_generation_token
  generate_inode_number fuel w =
      let counter = w.inum_counter + 1 in
      if eqb counter u16_max
      then ((grab_inode_generation_token fuel >>= λ _ w'.
            done (w'.inum_base, record w' { inum_counter = 0 }))
          (record w { inum_counter = counter }))
      else done (w.inum_base + counter, record w { inum_counter = counter })

  unfoldable pub get_pmap : M S PathMapDb
  get_pmap w = done (w.pmap, w)

  unfoldable pub set_pmap : PathMapDb → M S (Unit {0})
  set_pmap db w = done (tt, record w { pmap = db })

  -- `PRIV->pmap.updateSnapshot`.
  unfoldable pub pmap_update : List DbEntry → ℕ → ℕ → M S ℕ
  unfolding get_pmap set_pmap update_snapshot
  pmap_update entries from to = do
    db ← get_pmap
    (err, db') ← lift (update_snapshot einval entries from to db)
    set_pmap db'
    pure err

  -- The loop of `database_update`: `n` entries from version `v` on, and the error that ended it.
  unfoldable pub get_entries : ℕ → ℕ → M S (ℕ × List DbEntry)
  unfolding get_db_entry
  get_entries zero v = pure (0, [])
  get_entries (suc n) v =
      let later = get_entries n (v + 1) in
      do
        (err, entry) ← get_db_entry sys v
        elim entry [ none ↦ pure (err, []) | some e ↦ do (err', es) ← later; pure (err', e ∷ es) ]

  unfoldable pub update_to : ℕ → M S ℕ
  unfolding get_pmap set_pmap get_db_snapshot load_snapshot get_entries pmap_update
  update_to version = do
    db ← get_pmap
    (if ltb 42 (version - db.snapshot_version)
        then (do
          (_, s) ← get_db_snapshot sys
          elim s [ none ↦ pure tt | some s' ↦ set_pmap (load_snapshot s' db) ])
        else pure tt)
    db' ← get_pmap
    (err, entries) ← get_entries (version - db'.snapshot_version) (db'.snapshot_version + 1)
    unless_err err (pmap_update entries db'.snapshot_version version)

  unfoldable pub database_update : M S ℕ
  unfolding get_pmap get_db_version get_db_entry update_to
  database_update = do
    db ← get_pmap
    (err, version) ← get_db_version sys
    unless_err err (
        if ltb version db.snapshot_version
        then (λ w. dies Fault.assertion)
        else if eqb version db.snapshot_version
        then (do
          (err', _) ← get_db_entry sys (version + 1)
          if eqb err' 0 then update_to (version + 1) else pure ealready)
        else update_to version)

  unfoldable pub database_operation : ℕ → DbEntry → M S ℕ
  unfolding get_pmap put_db_entry pmap_update serialize_snapshot put_db_snapshot database_update
  database_operation zero entry = λ w. no_fuel
  database_operation (suc fuel) entry =
      let again = database_operation fuel entry in
      do
        db ← get_pmap
        err ← put_db_entry sys (db.snapshot_version + 1) entry
        if eqb err 0
            then (do
              _ ← pmap_update (entry ∷ []) db.snapshot_version (db.snapshot_version + 1)
              db' ← get_pmap
              if eqb (db.snapshot_version % 42) 0
                  then (do _ ← put_db_snapshot sys (serialize_snapshot db'); pure 0)
                  else pure 0)
            else if not (eqb err eexist)
            then pure err
            else (do err' ← database_update; unless_err err' again)
