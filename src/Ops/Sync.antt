-- ===== src/Ops/Sync.antt =====
-- src/fuseops/sync.cc, and the helpers that the handlers share.
use h_flat.Base.{
  ℕ, zero, suc, ◌+◌, ◌*◌, ◌/◌, max, Bool, not, ◌&&◌, ◌||◌, Option, none, some, Str, str_eq, eqb,
  ltb, if◌then◌else◌, drop, length,
}
use h_flat.Paths.{find_first}
use h_flat.Data.Block.{has_updates}
use h_flat.Metadata.Defs.{Metadata, u32, update_acm_time}
use h_flat.World.State.{
  System, M, ◌>>=◌, ◌>>◌, pure, from_env, no_fuel, load_md, store_md, load_di, deref,
}
use h_flat.World.Helper.{eagain, put_metadata, put_data, data_cache_invalidate, to_int64}
use h_flat.World.Lookup.{lookup, lookup_parent_by}

module _ {S : Type 0} (sys : System S) where
  -- `lookup` whose error the caller returns at once.
  unfoldable pub looked_up : ℕ → Str → (ℕ → M S ℕ) → M S ℕ
  unfolding lookup
  looked_up fuel user_path k = do
    (err, found) ← lookup sys fuel user_path
    if eqb err 0 then (deref found >>= k) else pure err

  unfoldable pub lookup_parent : ℕ → Str → M S (ℕ × Option ℕ)
  unfolding lookup lookup_parent_by
  lookup_parent fuel = lookup_parent_by sys (lookup sys fuel)

  unfoldable pub change_md : ℕ → (Metadata → Metadata) → M S (Unit {0})
  unfolding load_md store_md
  change_md r f = do mdi ← load_md r; store_md r (record mdi { md = f mdi.md })

  -- What stands behind the first `_` of a data block's key, as a number.
  unfoldable pub block_number : Str → ℕ
  unfolding find_first
  block_number key = elim (find_first b'_' key) [
    | none ↦ to_int64 sys (sys.stoll key)
    | some i ↦ to_int64 sys (sys.stoll (drop (i + 1) key))
  ]

  unfoldable pub set_size_and_times : ℕ → ℕ → Metadata → Metadata
  unfolding update_acm_time
  set_size_and_times now size md =
      update_acm_time now (record md { size = u32 size; blocks = u32 (size / sys.block_size + 1) })

  -- `append` says that there is a file handle, with O_APPEND among its flags.
  unfoldable pub hflat_fsync : ℕ → Str → Bool → M S ℕ
  unfolding looked_up load_md load_di has_updates block_number change_md set_size_and_times
      put_metadata data_cache_invalidate put_data
  hflat_fsync zero user_path append = λ w. no_fuel
  hflat_fsync (suc fuel) user_path append =
      let again = hflat_fsync fuel user_path append in
      looked_up fuel user_path λ r. do
        mdi ← load_md r
        elim mdi.dirty_data [
          | none ↦ pure 0
          | some d ↦ do
            di ← load_di d
            if not (has_updates di) then pure 0 else (do
              let new_size = max (sys.block_size * block_number di.key + length di.d) mdi.md.size
              if ltb mdi.md.size new_size || sys.posix_full
                  then (do
                    now ← from_env sys.time
                    change_md r (set_size_and_times now new_size)
                    err ← put_metadata sys r
                    if not (eqb err 0) && append
                        then (do data_cache_invalidate sys di.key; pure err)
                        else if eqb err eagain
                        then again
                        else put_data sys fuel d)
                  else put_data sys fuel d)
        ]
