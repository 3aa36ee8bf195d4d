-- ===== src/Ops/Blocks.antt =====
-- The bytes that a read delivers.
use h_flat.Base.{
  ℕ, ◌+◌, ◌-◌, ◌≤◌, ◌≡◌, Str, ltb, if◌then◌else◌, length, take, drop, replicate, length-append,
  length-take, length-drop, length-replicate, get_or-append, get_or-take, get_or-drop,
  get_or-replicate, get_or_past, arith,
}
use h_flat.Data.Update.{byte}
use h_flat.World.State.{System}
use h_flat.Ops.Rw.{read_buffer, in_block_size}

module _ {S : Type 0} (sys : System S) where
  in_block_size-le : (size start : ℕ) → in_block_size sys size start ≤ size
  unfolding in_block_size
  in_block_size-le size start = ground arith

  -- A read fills the whole buffer: with the block's bytes from its start on as far as the call
  -- reaches into this block, and with zeroes wherever the block holds no byte or ends.
  pub read_buffer_lem :
      (size start : ℕ) (d : Str)
      → (length (read_buffer sys size start d) ≡ size)
        × ((i : ℕ)
            → byte (read_buffer sys size start d) i
              ≡ (if ltb i (in_block_size sys size start) then byte d (i + start) else 0))
  unfolding read_buffer
  read_buffer_lem size start d =
      let n = in_block_size sys size start in
      let copied = take n (drop start d) in
      let fits : length copied ≤ size =
        omega (arith, length-take n (drop start d), in_block_size-le size start) in
      (
        omega (
          arith,
          length-append copied (replicate (size - length copied) 0),
          length-replicate {A = ℕ} (size - length copied) 0,
        ),
        λ i. ground (
          arith,
          get_or-append copied (replicate (size - length copied) 0) i 0,
          get_or-replicate {A = ℕ} (size - length copied) 0 (i - length copied),
          get_or-take n (drop start d) i 0,
          get_or-drop start d i 0,
          length-take n (drop start d),
          length-drop start d,
          get_or_past d (i + start) 0,
        ),
      )
