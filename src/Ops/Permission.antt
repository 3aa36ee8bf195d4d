-- ===== src/Ops/Permission.antt =====
-- src/fuseops/permission.cc: access, chmod and chown. An unsigned `-1` is `none`.
use Prim.Native.Nat.{bit_and}
use h_flat.Base.{
  ℕ, zero, suc, ◌-◌, Bool, true, false, not, ◌&&◌, ◌||◌, [], Option, none, some, Str, str_eq, eqb,
  if◌then◌else◌, Exec, ok, fault, Fault, length,
}
use h_flat.Base.Int.{pos}
use h_flat.PathMap.Update.{DbEntry, EntryType}
use h_flat.Metadata.Defs.{
  Metadata, User, is_dir, update_ac_time, check_access, compute_path_permission_children,
}
use h_flat.World.State.{
  System, M, ◌>>=◌, ◌>>◌, pure, lift, from_env, dies, no_fuel, load_md, store_md, unless_err, req_0,
}
use h_flat.World.Helper.{enoent, eagain, put_metadata, put_metadata_forced}
use h_flat.World.Util.{database_operation, get_pmap}
use mathlib.Core.Option
use h_flat.Ops.Sync.{looked_up, change_md}

abbrev pub eperm : ℕ
eperm = 1

abbrev pub s_isuid : ℕ
s_isuid = 0o4000

abbrev pub s_isgid : ℕ
s_isgid = 0o2000

-- `mode & ~bit` for a single bit.
unfoldable pub clear_bit : ℕ → ℕ → ℕ
clear_bit mode bit = if eqb (bit_and mode bit) 0 then mode else mode - bit

-- `opt != -1 && opt != x`.
abbrev pub given_other : Option ℕ → ℕ → Bool
given_other none x = false
given_other (some g) x = not (eqb g x)

-- The guards of `permission_lookup`.
unfoldable pub may_change : User → Metadata → Option ℕ → ℕ
may_change u md gid =
    if eqb u.uid 0
    then 0
    else if not (eqb u.uid md.uid)
    then eperm
    else if given_other gid u.gid
    then eperm
    else 0

abbrev pub is_given : Option ℕ → Bool
is_given none = false
is_given (some n) = true

abbrev pub or_kept : Option ℕ → ℕ → ℕ
or_kept none x = x
or_kept (some n) x = n

-- `S_ISREG`.
unfoldable pub is_reg : ℕ → Bool
is_reg mode = eqb (bit_and mode 0o170000) 0o100000

-- The mode that a chmod by somebody else than root sets.
unfoldable pub chmod_mode : User → Metadata → ℕ → ℕ
unfolding is_reg clear_bit
chmod_mode u md mode =
    if not (eqb u.uid 0) && (not (eqb u.gid md.gid) && is_reg mode)
    then clear_bit mode s_isgid
    else mode

-- The mode to set, if any; a chown by somebody else than root drops set-uid and set-gid, and asserts
-- that no mode was given with it.
unfoldable pub new_mode : User → Metadata → Option ℕ → Option ℕ → Option ℕ → Exec (Option ℕ)
unfolding chmod_mode clear_bit
new_mode u md mode uid gid =
    let mode' = Option.map (chmod_mode u md) mode in
    if not (eqb u.uid 0) && (is_given uid || is_given gid)
    then (if is_given mode'
        then fault Fault.assertion
        else ok (some (clear_bit (clear_bit md.mode s_isuid) s_isgid)))
    else ok mode'

abbrev pub changed_to : Option ℕ → Option ℕ → Option ℕ → Metadata → Metadata
changed_to mode uid gid md = record md {
  uid = or_kept uid md.uid;
  gid = or_kept gid md.gid;
  mode = or_kept mode md.mode;
}

module _ {S : Type 0} (sys : System S) where
  unfoldable pub hflat_access : ℕ → Str → ℕ → M S ℕ
  unfolding looked_up load_md check_access
  hflat_access fuel user_path mode =
      if eqb (length user_path) 1 || eqb sys.context.uid 0
      then pure 0
      else looked_up sys fuel user_path
          λ r. do mdi ← load_md r; pure (check_access sys.context mdi.md mode)

  abbrev pub none_entry_for : Str → DbEntry
  none_entry_for path = record { origin = path; type = EntryType.none_entry; target = [] }

  -- The note in the path map's log that path permissions changed; its last result is asserted.
  unfoldable pub note_permission_change : ℕ → Str → ℕ → M S ℕ
  unfolding database_operation get_pmap put_metadata_forced change_md
  note_permission_change fuel user_path r = do
    req_0 (database_operation sys fuel (none_entry_for user_path))
    db ← get_pmap sys
    err ←
        put_metadata_forced sys fuel r
          (change_md sys r (λ md. record md { path_permission_verified = pos db.snapshot_version }))
    if eqb err 0 || eqb err enoent then pure 0 else (λ w. dies Fault.assertion)

  unfoldable pub do_permission_change : ℕ → Str → Option ℕ → Option ℕ → Option ℕ → M S ℕ
  unfolding looked_up load_md store_md may_change new_mode update_ac_time put_metadata is_dir
      compute_path_permission_children note_permission_change change_md
  do_permission_change zero user_path mode uid gid = λ w. no_fuel
  do_permission_change (suc fuel) user_path mode uid gid =
      let again = λ (m : Option ℕ). do_permission_change fuel user_path m uid gid in
      looked_up sys fuel user_path λ r. do
        mdi ← load_md r
        unless_err (may_change sys.context mdi.md gid) (do
          mode' ← lift (new_mode sys.context mdi.md mode uid gid)
          now ← from_env sys.time
          change_md sys r (λ md. update_ac_time now (changed_to mode' uid gid md))
          err ← put_metadata sys r
          if eqb err eagain
              then again mode'
              else unless_err err (do
                mdi' ← load_md r
                if not (is_dir mdi'.md.mode) then pure 0 else (do
                  (changed, md'') ← lift (compute_path_permission_children mdi'.md)
                  store_md r (record mdi' { md = md'' })
                  if changed then note_permission_change fuel user_path r else pure 0)))

  unfoldable pub hflat_chmod : ℕ → Str → ℕ → M S ℕ
  unfolding do_permission_change
  hflat_chmod fuel user_path mode = do_permission_change fuel user_path (some mode) none none

  unfoldable pub hflat_chown : ℕ → Str → Option ℕ → Option ℕ → M S ℕ
  unfolding do_permission_change
  hflat_chown fuel user_path uid gid = do_permission_change fuel user_path none uid gid
