-- ===== src/World/Helper.antt =====
-- src/namespace/kinetic_helper.cc: metadata, data blocks and the path map's log in the namespace.
-- A result is 0 or the number n of an error -n.
use h_flat.Base.{
  ℕ, zero, suc, not, [], ◌++◌, Option, none, some, Str, str, str_eq, eqb, if◌then◌else◌,
}
use h_flat.Paths.{to_string}
use h_flat.Data.Block.{new_data_info, merge_data_changes, set_key_version, forget_updates}
use h_flat.LruCache.Defs.{invalidate, revalidate}
use h_flat.PathMap.Update.{DbEntry, DbSnapshot}
use h_flat.Metadata.Defs.{Metadata}
use h_flat.World.State.{
  System, M, ◌>>=◌, ◌>>◌, pure, lift, from_env, done, no_fuel, remote_not_found,
  remote_version_mismatch, other_failure, answer, refused, require_same_version, ignore_version,
  KineticRecord, MetadataInfo, load_md, store_md, new_di, load_di, store_di, md_key, md_dirty,
  di_key, di_dirty,
}

abbrev pub enoent : ℕ
enoent = 2

abbrev pub eio : ℕ
eio = 5

abbrev pub eagain : ℕ
eagain = 11

abbrev pub eexist : ℕ
eexist = 17

abbrev pub einval : ℕ
einval = 22

module _ {S : Type 0} (sys : System S) where
  unfoldable pub lookup_cache_invalidate : Str → M S (Unit {0})
  lookup_cache_invalidate key w =
      (lift (invalidate (md_key w) (md_dirty w) sys.ticks key w.lookup_cache) >>= λ c w'.
      done (tt, record w' { lookup_cache = c }))
        w

  unfoldable pub lookup_cache_revalidate : Str → M S (Unit {0})
  lookup_cache_revalidate key = do
    now ← from_env sys.steady_now
    λ w.
        (lift (revalidate (md_key w) (md_dirty w) sys.ticks key now w.lookup_cache) >>= λ c w'.
        done (tt, record w' { lookup_cache = c }))
          w

  unfoldable pub data_cache_invalidate : Str → M S (Unit {0})
  data_cache_invalidate key w =
      (lift (invalidate (di_key w) (di_dirty w) sys.ticks key w.data_cache) >>= λ c w'.
      done (tt, record w' { data_cache = c }))
        w

  unfoldable pub data_cache_revalidate : Str → M S (Unit {0})
  data_cache_revalidate key = do
    now ← from_env sys.steady_now
    λ w.
        (lift (revalidate (di_key w) (di_dirty w) sys.ticks key now w.data_cache) >>= λ c w'.
        done (tt, record w' { data_cache = c }))
          w

  -- `setMD` of the metadata that a record holds.
  unfoldable pub take_metadata : ℕ → KineticRecord → MetadataInfo → Option Metadata → M S ℕ
  unfolding store_md
  take_metadata r rec mdi none = pure einval
  take_metadata r rec mdi (some md) = do
    store_md r (record mdi { md = md; key_version = rec.version })
    pure 0

  unfoldable pub get_metadata : ℕ → M S ℕ
  unfolding take_metadata load_md
  get_metadata r = do
    mdi ← load_md r
    reply ← from_env (sys.get mdi.system_path)
    elim reply [
      | refused remote_not_found ↦ pure enoent
      | refused remote_version_mismatch ↦ pure eio
      | refused other_failure ↦ pure eio
      | answer rec ↦ take_metadata r rec mdi (sys.parse_md rec.value)
    ]

  unfoldable pub put_metadata : ℕ → M S ℕ
  unfolding load_md store_md lookup_cache_invalidate lookup_cache_revalidate
  put_metadata r = do
    new_version ← from_env sys.generate_uuid
    mdi ← load_md r
    reply ← from_env (
        sys.put mdi.system_path mdi.key_version require_same_version
          (record { value = sys.serialize_md mdi.md; version = new_version }))
    elim reply [
      | refused f ↦ do
        lookup_cache_invalidate mdi.system_path
        pure (elim f [
          | remote_version_mismatch ↦ eagain
          | remote_not_found ↦ enoent
          | other_failure ↦ eio
        ])
      | answer _ ↦ do
        store_md r (record mdi { key_version = new_version })
        lookup_cache_revalidate mdi.system_path
        pure 0
    ]

  -- The update is made anew on the metadata that another client wrote in the meantime.
  unfoldable pub put_metadata_forced : ℕ → ℕ → M S (Unit {0}) → M S ℕ
  unfolding put_metadata get_metadata
  put_metadata_forced zero r md_update = λ w. no_fuel
  put_metadata_forced (suc fuel) r md_update =
      let again = put_metadata_forced fuel r md_update in
      do
        md_update
        err ← put_metadata r
        if not (eqb err eagain)
            then pure err
            else (do err' ← get_metadata r; if not (eqb err' 0) then pure err' else again)

  unfoldable pub create_metadata : ℕ → M S ℕ
  unfolding load_md store_md
  create_metadata r = do
    new_version ← from_env sys.generate_uuid
    mdi ← load_md r
    reply ← from_env (
        sys.put mdi.system_path [] require_same_version
          (record { value = sys.serialize_md mdi.md; version = new_version }))
    elim reply [
      | refused remote_version_mismatch ↦ pure eexist
      | refused remote_not_found ↦ pure eio
      | refused other_failure ↦ pure eio
      | answer _ ↦ do store_md r (record mdi { key_version = new_version }); pure 0
    ]

  unfoldable pub delete_metadata : ℕ → M S ℕ
  unfolding load_md lookup_cache_invalidate
  delete_metadata r = do
    mdi ← load_md r
    lookup_cache_invalidate mdi.system_path
    reply ← from_env (sys.delete mdi.system_path mdi.key_version require_same_version)
    pure (elim reply [
      | refused remote_version_mismatch ↦ eagain
      | refused remote_not_found ↦ enoent
      | refused other_failure ↦ eio
      | answer _ ↦ 0
    ])

  -- The C result, and the block that it leaves in its second parameter; without one it leaves none.
  unfoldable pub get_data : Str → M S (ℕ × Option ℕ)
  unfolding new_di new_data_info
  get_data key = do
    reply ← from_env (sys.get key)
    elim reply [
      | refused remote_not_found ↦ do r ← new_di (new_data_info key [] []); pure (0, some r)
      | refused remote_version_mismatch ↦ pure (eio, none)
      | refused other_failure ↦ pure (eio, none)
      | answer rec ↦ do r ← new_di (new_data_info key rec.version rec.value); pure (0, some r)
    ]

  -- On a version mismatch the changes are merged into the block that another client wrote.
  unfoldable pub put_data : ℕ → ℕ → M S ℕ
  unfolding load_di store_di merge_data_changes set_key_version forget_updates data_cache_revalidate
  put_data zero r = λ w. no_fuel
  put_data (suc fuel) r =
      let again = put_data fuel r in
      do
        new_version ← from_env sys.generate_uuid
        di ← load_di r
        reply ← from_env (
            sys.put di.key di.key_version require_same_version
              (record { value = di.d; version = new_version }))
        elim reply [
          | refused remote_not_found ↦ pure eio
          | refused other_failure ↦ pure eio
          | refused remote_version_mismatch ↦ do
            current ← from_env (sys.get di.key)
            elim current [
              | refused f ↦ pure eio
              | answer rec ↦ do
                merged ← lift (merge_data_changes rec.value di)
                store_di r (set_key_version rec.version merged)
                again
            ]
          | answer _ ↦ do
            store_di r (set_key_version new_version (forget_updates di))
            data_cache_revalidate di.key
            pure 0
        ]

  unfoldable pub delete_data : ℕ → M S ℕ
  unfolding load_di data_cache_invalidate
  delete_data r = do
    di ← load_di r
    reply ← from_env (sys.delete di.key [] ignore_version)
    data_cache_invalidate di.key
    pure (elim reply [
      | refused remote_not_found ↦ enoent
      | refused remote_version_mismatch ↦ eio
      | refused other_failure ↦ eio
      | answer _ ↦ 0
    ])

  unfoldable pub db_key : ℕ → Str
  unfolding to_string
  db_key version = str "pathmapDB_" ++ to_string version

  abbrev pub db_version_key : Str
  db_version_key = str "pathmapDB_version"

  abbrev pub db_snapshot_key : Str
  db_snapshot_key = str "pathmapDB_SNAPSHOT"

  -- That the update of the version key may fail is only logged.
  unfoldable pub put_db_entry : ℕ → DbEntry → M S ℕ
  unfolding db_key to_string
  put_db_entry version entry = do
    reply ← from_env (
        sys.put (db_key version) [] require_same_version
          (record { value = sys.serialize_entry entry; version = to_string version }))
    elim reply [
      | refused remote_version_mismatch ↦ pure eexist
      | refused remote_not_found ↦ pure eio
      | refused other_failure ↦ pure eio
      | answer _ ↦ do
        _ ← from_env (
            sys.put db_version_key [] ignore_version
              (record { value = []; version = to_string version }))
        pure 0
    ]

  -- `util::to_int64`: an illegal string is 0.
  abbrev pub to_int64 : Option ℕ → ℕ
  to_int64 none = 0
  to_int64 (some n) = n

  abbrev pub parsed_entry : Option DbEntry → ℕ × Option DbEntry
  parsed_entry none = (einval, none)
  parsed_entry (some e) = (0, some e)

  unfoldable pub get_db_entry : ℕ → M S (ℕ × Option DbEntry)
  unfolding db_key
  get_db_entry version = do
    reply ← from_env (sys.get (db_key version))
    pure (elim reply [
      | refused remote_not_found ↦ (enoent, none)
      | refused remote_version_mismatch ↦ (eio, none)
      | refused other_failure ↦ (eio, none)
      | answer rec ↦ parsed_entry (sys.parse_entry rec.value)
    ])

  unfoldable pub get_db_version : M S (ℕ × ℕ)
  get_db_version = do
    reply ← from_env (sys.get_version db_version_key)
    pure (elim reply [
      | refused remote_not_found ↦ (0, 0)
      | refused remote_version_mismatch ↦ (eio, 0)
      | refused other_failure ↦ (eio, 0)
      | answer version ↦ (0, to_int64 (sys.stoll version))
    ])

  unfoldable pub put_db_snapshot : DbSnapshot → M S ℕ
  put_db_snapshot s = do
    reply ← from_env (
        sys.put db_snapshot_key [] ignore_version
          (record { value = sys.serialize_snapshot s; version = [] }))
    pure (elim reply [ refused f ↦ eio | answer _ ↦ 0 ])

  abbrev pub parsed_snapshot : Option DbSnapshot → ℕ × Option DbSnapshot
  parsed_snapshot none = (einval, none)
  parsed_snapshot (some s) = (0, some s)

  unfoldable pub get_db_snapshot : M S (ℕ × Option DbSnapshot)
  get_db_snapshot = do
    reply ← from_env (sys.get db_snapshot_key)
    pure (elim reply [
      | refused f ↦ (eio, none)
      | answer rec ↦ parsed_snapshot (sys.parse_snapshot rec.value)
    ])
