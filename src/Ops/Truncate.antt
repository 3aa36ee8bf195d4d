-- ===== src/Ops/Truncate.antt =====
-- `hflat_truncate` of src/fuseops/data.cc.
use h_flat.Base.{
  ℕ, zero, suc, ◌+◌, ◌-◌, ◌/◌, ◌%◌, ◌^◌, false, not, [], Str, str_eq, eqb, ltb, if◌then◌else◌,
}
use h_flat.Data.Block.{new_data_info, truncate}
use h_flat.LruCache.Defs.{waits, misses, hits}
use h_flat.Metadata.Defs.{update_acm_time, check_access, eacces}
use h_flat.World.State.{
  System, M, ◌>>=◌, ◌>>◌, pure, lift, from_env, waiting, no_fuel, load_md, load_di, store_di,
  new_di, unless_err, deref,
}
use h_flat.World.Helper.{eagain, put_metadata, put_data, delete_data, data_cache_invalidate}
use h_flat.Ops.Rw.{block_key, data_cache_get, fetch_block}
use h_flat.Ops.Sync.{looked_up, hflat_fsync, change_md}

abbrev efbig : ℕ
efbig = 27

abbrev w_ok : ℕ
w_ok = 2

module _ {S : Type 0} (sys : System S) where
  -- The loop that deletes the blocks `i`, `i + 1`, … of which there are `n`.
  unfoldable pub delete_blocks : ℕ → ℕ → ℕ → M S (Unit {0})
  unfolding block_key data_cache_get data_cache_invalidate new_di new_data_info delete_data
  delete_blocks zero i inode_number = pure tt
  delete_blocks (suc n) i inode_number =
      let later = delete_blocks n (i + 1) inode_number in
      let key = block_key sys inode_number i in
      do
        g ← data_cache_get sys key
        elim g [
          | waits ↦ λ w. waiting
          | hits r ↦ do data_cache_invalidate sys key; _ ← delete_data sys r; later
          | misses ↦ do r ← new_di (new_data_info key [] []); _ ← delete_data sys r; later
        ]

  unfoldable pub truncate_block : ℕ → ℕ → ℕ → M S ℕ
  unfolding block_key fetch_block load_di store_di truncate put_data
  truncate_block fuel inode_number offset = do
    (err, found) ← fetch_block sys (block_key sys inode_number (offset / sys.block_size)) false
    if not (eqb err 0) then pure err else (do
      r ← deref found
      di ← load_di r
      di' ← lift (truncate (offset % sys.block_size) di)
      store_di r di'
      _ ← put_data sys fuel r
      pure 0)

  unfoldable pub hflat_truncate : ℕ → Str → ℕ → M S ℕ
  unfolding looked_up hflat_fsync load_md check_access change_md update_acm_time put_metadata
      truncate_block delete_blocks
  hflat_truncate zero user_path offset = λ w. no_fuel
  hflat_truncate (suc fuel) user_path offset =
      let again = hflat_truncate fuel user_path offset in
      looked_up sys fuel user_path λ r. do
        err ← hflat_fsync sys fuel user_path false
        mdi ← load_md r
        unless_err err (
            if not (eqb (check_access sys.context mdi.md w_ok) 0)
            then pure eacces
            else if ltb (2 ^ 32 - 1) offset
            then pure efbig
            else (do
              let size = mdi.md.size
              let ino = mdi.md.inode_number
              now ← from_env sys.time
              change_md sys r (λ md. update_acm_time now (record md { size = offset }))
              err' ← put_metadata sys r
              if eqb err' eagain
                  then again
                  else unless_err err' (do
                    err'' ← (if ltb offset size then truncate_block fuel ino offset else pure 0)
                    unless_err err'' (do
                      delete_blocks (size / sys.block_size - offset / sys.block_size)
                          (offset / sys.block_size + 1) ino
                      pure 0))))
