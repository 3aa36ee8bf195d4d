-- ===== src/Ops/Rw.antt =====
-- src/fuseops/data.cc: reading and writing the blocks of a file.
use h_flat.Base.{
  ℕ, zero, suc, ◌+◌, ◌-◌, ◌*◌, ◌/◌, ◌%◌, ◌^◌, Bool, true, false, not, ◌||◌, [], ◌++◌, Option, none,
  some, Str, str, str_eq, eqb, ltb, if◌then◌else◌, Fault, drop, take, length, replicate,
}
use h_flat.Paths.{to_string}
use h_flat.Data.Block.{new_data_info, update_data}
use h_flat.LruCache.Defs.{Got, waits, misses, hits, get, add, block}
use h_flat.Metadata.Defs.{Metadata}
use h_flat.World.State.{
  System, World, M, ◌>>=◌, ◌>>◌, pure, lift, from_env, done, dies, waiting, no_fuel, load_md,
  store_md, load_di, store_di, new_di, di_key, di_dirty, deref,
}
use h_flat.World.Helper.{eagain, get_data, data_cache_invalidate}
use h_flat.World.Lookup.{lookup}
use h_flat.Ops.Sync.{hflat_fsync}

module _ {S : Type 0} (sys : System S) where
  unfoldable pub data_cache_get : Str → M S (Got ℕ)
  unfolding get
  data_cache_get key = do
    now ← from_env sys.steady_now
    λ w.
        (lift (get (di_key w) (di_dirty w) sys.ticks key now w.data_cache) >>= λ (g, c) w'.
        done (g, record w' { data_cache = c }))
          w

  unfoldable pub data_cache_add : Str → ℕ → M S (Unit {0})
  unfolding add
  data_cache_add key r = do
    now ← from_env sys.steady_now
    λ w.
        (lift (add (di_key w) (di_dirty w) sys.ticks key r now w.data_cache) >>= λ (added, c) w'.
        if added then done (tt, record w' { data_cache = c }) else dies Fault.assertion)
          w

  unfoldable pub data_cache_block : Str → M S Bool
  unfolding block
  data_cache_block key w =
      let (blocked, c) = block (di_key w) (di_dirty w) sys.ticks key w.data_cache in
      done (blocked, record w { data_cache = c })

  unfoldable pub block_key : ℕ → ℕ → Str
  unfolding to_string
  block_key inode_number number = to_string inode_number ++ (str "_" ++ to_string number)

  -- The end of the loop: the block goes into the cache, unless it could not be got.
  unfoldable pub keep_fetched : Str → ℕ × Option ℕ → M S (ℕ × Option ℕ)
  unfolding data_cache_add data_cache_invalidate
  keep_fetched key (err, found) =
      if not (eqb err 0)
      then (do data_cache_invalidate sys key; pure (err, none))
      else (do r ← deref found; data_cache_add key r; pure (0, some r))

  -- "Don't GET if the file is growing": `fresh` stands for that test.
  unfoldable pub block_or_fresh : Str → Bool → M S (ℕ × Option ℕ)
  unfolding new_di new_data_info get_data
  block_or_fresh key fresh =
      if fresh
      then (do r ← new_di (new_data_info key [] []); pure (0, some r))
      else get_data sys key

  -- A block that the cache lacks.
  unfoldable pub fetch_missing : Str → Bool → M S (ℕ × Option ℕ)
  unfolding data_cache_block block_or_fresh keep_fetched
  fetch_missing key fresh = do
    blocked ← data_cache_block key
    if not blocked then (λ w. waiting) else (block_or_fresh key fresh >>= keep_fetched key)

  unfoldable pub fetched : Str → Bool → Got ℕ → M S (ℕ × Option ℕ)
  unfolding fetch_missing
  fetched key fresh waits = λ w. waiting
  fetched key fresh (hits r) = pure (0, some r)
  fetched key fresh misses = fetch_missing key fresh

  -- The loop that gets a block through the cache: the error, and the block.
  unfoldable pub fetch_block : Str → Bool → M S (ℕ × Option ℕ)
  unfolding data_cache_get fetched
  fetch_block key fresh = do g ← data_cache_get key; fetched key fresh g

  -- The bytes of a call that lie in the block of its offset.
  unfoldable pub in_block_size : ℕ → ℕ → ℕ
  in_block_size size start =
      if ltb (sys.block_size - start) size then sys.block_size - start else size

  abbrev pub block_start : ℕ → ℕ
  block_start offset = offset - offset / sys.block_size * sys.block_size

  -- The buffer that a read fills: zeroes, and over them what the block holds.
  unfoldable pub read_buffer : ℕ → ℕ → Str → Str
  unfolding in_block_size
  read_buffer size start d =
      let copied = take (in_block_size size start) (drop start d) in
      copied ++ replicate (size - length copied) 0

  pub data Rw : Type 0 where
    reading writing : Rw

  abbrev pub grows : Rw → ℕ → ℕ → Bool
  grows writing end size = ltb size end
  grows reading end size = false

  -- What `do_rw` returns, an error or the number of bytes, with the block and the buffer.
  pub record Transfer : Type 0 where
    pub err : ℕ
    pub count : ℕ
    pub di : Option ℕ
    pub buf : Str

  -- The end of `do_rw`, on the block that it got.
  unfoldable pub transfer : Str → ℕ → ℕ → Rw → ℕ → M S Transfer
  unfolding load_di store_di update_data read_buffer in_block_size
  transfer buf size offset writing r = do
    let count = in_block_size size (block_start offset)
    di ← load_di r
    (_, di') ← lift (update_data buf (block_start offset) count di)
    store_di r di'
    pure (record { err = 0; count = count; di = some r; buf = buf })
  transfer buf size offset reading r = do
    let start = block_start offset
    di ← load_di r
    pure (record {
      err = 0;
      count = in_block_size size start;
      di = some r;
      buf = read_buffer size start di.d;
    })

  unfoldable pub do_rw : Str → ℕ → ℕ → Metadata → Rw → M S Transfer
  unfolding block_key fetch_block transfer
  do_rw buf size offset md mode = do
    (err, found) ←
        fetch_block (block_key md.inode_number (offset / sys.block_size))
          (grows mode (offset + size) md.size)
    if not (eqb err 0)
        then pure (record { err = err; count = 0; di = none; buf = buf })
        else (deref found >>= transfer buf size offset mode)

  unfoldable pub hflat_read : ℕ → Str → ℕ → ℕ → M S Transfer
  unfolding lookup load_md do_rw
  hflat_read fuel user_path size offset = do
    (err, found) ← lookup sys fuel user_path
    if not (eqb err 0)
        then pure (record { err = err; count = 0; di = none; buf = [] })
        else (do r ← deref found; mdi ← load_md r; do_rw [] size offset mdi.md reading)

  unfoldable pub same_block : Option ℕ → Option ℕ → Bool
  same_block none none = true
  same_block none (some d) = false
  same_block (some c) none = false
  same_block (some c) (some d) = eqb c d

  -- `dirty_data && dirty_data->hasUpdates()`.
  abbrev pub busy : World S → Option ℕ → Bool
  busy w none = false
  busy w (some d) = di_dirty w d

  -- `MetadataInfo::setDirtyData`.
  unfoldable pub set_dirty_data : ℕ → Option ℕ → M S Bool
  unfolding load_md store_md same_block
  set_dirty_data r di w =
      (do
        mdi ← load_md r
        if same_block mdi.dirty_data di
            then pure true
            else if busy w mdi.dirty_data
            then pure false
            else (do store_md r (record mdi { dirty_data = di }); pure true))
        w

  -- The count as a `size_t`: an error -n of `do_rw` wraps around, so it is not seen as one.
  abbrev pub unsigned_count : Transfer → ℕ
  unsigned_count t = if eqb t.err 0 then t.count else 2 ^ 64 - t.err

  -- The C result as an error and a count; `append` is `fi->flags & O_APPEND`.
  unfoldable pub hflat_write : ℕ → Str → Str → ℕ → ℕ → Bool → M S (ℕ × ℕ)
  unfolding lookup load_md do_rw set_dirty_data hflat_fsync
  hflat_write zero user_path buf size offset append = λ w. no_fuel
  hflat_write (suc fuel) user_path buf size offset append =
      let again = hflat_write fuel user_path buf size offset append in
      do
        (err, found) ← lookup sys fuel user_path
        if not (eqb err 0) then pure (err, 0) else (do
          r ← deref found
          mdi ← load_md r
          t ← do_rw buf size offset mdi.md writing
          if eqb (unsigned_count t) 0 then pure (0, 0) else (do
            kept ← set_dirty_data r t.di
            flushed ← (if kept then pure 0 else hflat_fsync sys fuel user_path append)
            if not (eqb flushed 0) then pure (flushed, 0) else (do
              _ ← (if kept then pure true else set_dirty_data r t.di)
              if append || eqb ((offset + unsigned_count t) % 2 ^ 64 % sys.block_size) 0
                  then (do
                    err' ← hflat_fsync sys fuel user_path append
                    if eqb err' eagain
                        then again
                        else if not (eqb err' 0)
                        then pure (err', 0)
                        else pure (t.err, t.count))
                  else pure (t.err, t.count))))
