-- ===== src/Ops/Rereading.antt =====
-- What a client reads from a block that it has written and not flushed yet.
use native.Mathlib.Nat.{div-mul-le_self}
use h_flat.Base.{
  ℕ, min, ◌+◌, ◌-◌, ◌*◌, ◌/◌, ◌≤◌, ◌<◌, ◌≡◌, refl, false, some, Str, ltb, leb, if◌then◌else◌,
  length, arith, ◌⊎◌, get_or_past, get_elem?, str_eq, ◌&&◌, [],
}
use h_flat.Data.Block.{DataInfo, new_data_info}
use h_flat.Data.Update.{byte}
use h_flat.Metadata.Defs.{Metadata}
use h_flat.LruCache.Defs.{misses}
use h_flat.LruCache.Present.{Holds}
use h_flat.World.State.{System, World, done, load_di}
use h_flat.Ops.Fetching.{fetch_block-dirty, fetch_block-fresh}
use h_flat.Ops.Written.{Wrote, do_rw-Wrote}
use h_flat.Ops.Blocks.{read_buffer_lem}
use h_flat.Ops.Rw.{
  data_cache_get, Transfer, reading, writing, transfer, do_rw, block_start, in_block_size,
  read_buffer, block_key,
}

-- Positions in a block that starts at `q`, which is `q'` as well.
aligned :
    (q q' offset offset' i count : ℕ)
    → q' ≡ q
    → q ≤ offset
    → q' ≤ offset'
    → (leb (offset - q) (i + (offset' - q')) ≡ leb offset (offset' + i))
      × (ltb (i + (offset' - q')) (offset - q + count) ≡ ltb (offset' + i) (offset + count))
      × (i + (offset' - q') - (offset - q) ≡ offset' + i - offset)
aligned q q' offset offset' i count same below below' = (ground arith, ground arith, omega arith)

new_data_info-empty : (key : Str) (di : DataInfo) → di ≡ new_data_info key [] [] → di.d ≡ []
unfolding new_data_info
new_data_info-empty key di e = ground (arith, e)

unwritten :
    (x : ℕ) (d : Str) (y from p to q : ℕ)
    → d ≡ []
    → y ≡ (if leb from p && ltb p to then x else byte d q)
    → (p < from) ⊎ (to ≤ p)
    → y ≡ 0
unwritten x d y from p to q empty is outside = ground (arith, empty, is, get_or_past d q 0)

module _ {S : Type 0} (sys : System S) where
  -- The read of a block with a write that is not flushed, and what it delivers.
  record Reread (buf buf' : Str) (size' offset offset' count : ℕ) (d : Str) (md' : Metadata)
      (w' : World S) : Type 0 where
    t' : Transfer sys
    w'' : World S
    ran : do_rw sys buf' size' offset' md' reading w' ≡ done (t', w'')
    fine : t'.err ≡ 0
    counted : t'.count ≡ min size' (sys.block_size - block_start sys offset')
    filled : length t'.buf ≡ size'
    bytes :
        (i : ℕ)
        → i < t'.count
        → byte t'.buf i ≡ (
            if leb offset (offset' + i) && ltb (offset' + i) (offset + count)
            then byte buf (offset' + i - offset)
            else byte d (i + block_start sys offset'))

  Wrote-Reread :
      (buf buf' : Str) (size size' offset offset' : ℕ) (md md' : Metadata) (w w' : World S)
      (t : Transfer sys) (wrote : Wrote sys buf size offset md w w' t)
      → md'.inode_number ≡ md.inode_number
      → offset' / sys.block_size ≡ offset / sys.block_size
      → Reread buf buf' size' offset offset' t.count wrote.di.d md' w'
  unfolding do_rw transfer load_di in_block_size
  Wrote-Reread buf buf' size size' offset offset' md md' w w' t wrote file block =
      let key = block_key sys md'.inode_number (offset' / sys.block_size) in
      let holds : Holds key wrote.r w'.data_cache =
        rw (file, block, wrote.written.kept) wrote.holds in
      let (w'', found, same) =
        fetch_block-dirty sys key false wrote.r w' holds
          (ground (arith, wrote.written.stored, wrote.written.busy)) in
      let start' = block_start sys offset' in
      let d = wrote.written.di'.d in
      let (filled, read) = read_buffer_lem sys size' start' d in
      record {
        t' = record {
          err = 0;
          count = in_block_size sys size' start';
          di = some wrote.r;
          buf = read_buffer sys size' start' d;
        };
        w'' = w'';
        ran = ground (arith, found, same, wrote.written.stored);
        fine = refl;
        counted = ground arith;
        filled = filled;
        bytes = λ i within.
            let (above, under, shift) =
              aligned (offset / sys.block_size * sys.block_size)
                (offset' / sys.block_size * sys.block_size) offset offset' i t.count (rw block refl)
                (div-mul-le_self offset sys.block_size) (div-mul-le_self offset' sys.block_size) in
            ground (arith, read i, wrote.written.bytes (i + start'), above, under, shift);
      }

  -- A write that succeeds reports the bytes that lie in the block of its offset. A read that follows it,
  -- by the same client, in the same block of the file, succeeds whatever the clock then says, reports the
  -- bytes asked for that lie in the block, and fills its buffer: with the bytes that were written,
  -- wherever the two overlap.
  pub do_rw-do_rw :
      (buf buf' : Str) (size size' offset offset' : ℕ) (md md' : Metadata) (w w' : World S)
      (t : Transfer sys)
      → do_rw sys buf size offset md writing w ≡ done (t, w')
      → t.err ≡ 0
      → md'.inode_number ≡ md.inode_number
      → offset' / sys.block_size ≡ offset / sys.block_size
      → (t' : Transfer sys) × (w'' : World S) × (do_rw sys buf' size' offset' md' reading w'
          ≡ done (t', w''))
        × (t'.err ≡ 0)
        × (t.count
            ≡ min size (sys.block_size - (offset - offset / sys.block_size * sys.block_size)))
        × (t'.count
            ≡ min size' (sys.block_size - (offset' - offset' / sys.block_size * sys.block_size)))
        × (length t'.buf ≡ size')
        × ((i : ℕ)
            → i < t'.count
            → offset ≤ offset' + i
            → offset' + i < offset + t.count
            → byte t'.buf i ≡ byte buf (offset' + i - offset))
  unfolding in_block_size
  do_rw-do_rw buf buf' size size' offset offset' md md' w w' t ran fine file block =
      let wrote = do_rw-Wrote sys buf size offset md w w' t ran fine in
      let again = Wrote-Reread buf buf' size size' offset offset' md md' w w' t wrote file block in
      (
        again.t',
        again.w'',
        again.ran,
        again.fine,
        ground (arith, wrote.counted),
        again.counted,
        again.filled,
        λ i within from to. ground (arith, again.bytes i within),
      )

  -- Where a write that succeeds makes the file grow, and the cache lacks its block, a read of that
  -- block that follows it reports the bytes asked for that lie in the block, fills its buffer, and
  -- delivers zeroes in front of the bytes that were written and behind them, whatever the namespace
  -- holds there.
  pub do_rw_growing :
      (buf buf' : Str) (size size' offset offset' : ℕ) (md md' : Metadata) (w u w' : World S)
      (t : Transfer sys)
      → data_cache_get sys (block_key sys md.inode_number (offset / sys.block_size)) w
        ≡ done (misses, u)
      → md.size < offset + size
      → do_rw sys buf size offset md writing w ≡ done (t, w')
      → t.err ≡ 0
      → md'.inode_number ≡ md.inode_number
      → offset' / sys.block_size ≡ offset / sys.block_size
      → (t' : Transfer sys) × (w'' : World S) × (do_rw sys buf' size' offset' md' reading w'
          ≡ done (t', w''))
        × (t'.err ≡ 0)
        × (t'.count
            ≡ min size' (sys.block_size - (offset' - offset' / sys.block_size * sys.block_size)))
        × (length t'.buf ≡ size')
        × ((i : ℕ)
            → i < t'.count
            → (offset' + i < offset) ⊎ (offset + t.count ≤ offset' + i)
            → byte t'.buf i ≡ 0)
  do_rw_growing buf buf' size size' offset offset' md md' w u w' t missed more ran fine file block =
      let wrote = do_rw-Wrote sys buf size offset md w w' t ran fine in
      let again = Wrote-Reread buf buf' size size' offset offset' md md' w w' t wrote file block in
      let key = block_key sys md.inode_number (offset / sys.block_size) in
      let opened : get_elem? wrote.u.data_infos wrote.r ≡ some (new_data_info key [] []) =
        fetch_block-fresh sys key wrote.r w u wrote.u missed (ground (arith, wrote.got, more)) in
      let empty : wrote.di.d ≡ [] =
        new_data_info-empty key wrote.di (ground (arith, opened, wrote.at)) in
      (
        again.t',
        again.w'',
        again.ran,
        again.fine,
        again.counted,
        again.filled,
        λ i within outside.
            unwritten (byte buf (offset' + i - offset)) wrote.di.d (byte again.t'.buf i) offset
              (offset' + i) (offset + t.count) (i + block_start sys offset') empty
              (again.bytes i within) outside,
      )
