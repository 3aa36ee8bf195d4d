-- ===== src/Data/Update.antt =====
-- What a write into a block does, byte by byte.
use h_flat.Base.{
  ℕ, ◌+◌, ◌-◌, ◌≤◌, max, ◌≡◌, refl, [], ◌∷◌, ◌++◌, Str, ltb, leb, if◌then◌else◌, length, take, drop,
  replicate, get_or, length-append, length-take, length-drop, length-replicate, get_or-append,
  get_or-take, get_or-drop, get_or-replicate, get_or_past, ok, arith, ◌&&◌,
}
use h_flat.Data.Block.{DataInfo, resize, overwrite, update_data, max_block}

-- The byte at a position; past the end a block reads as zero, as `do_rw` reads it.
abbrev pub byte : Str → ℕ → ℕ
byte s i = get_or s i 0

pub length-resize : (n : ℕ) (s : Str) → length (resize n s) ≡ n
unfolding resize
length-resize n s = omega (
  arith,
  length-append (take n s) (replicate (n - length s) 0),
  length-take n s,
  length-replicate {A = ℕ} (n - length s) 0,
)

pub byte-resize :
    (n : ℕ) (s : Str) (i : ℕ) → byte (resize n s) i ≡ (if ltb i n then byte s i else 0)
unfolding resize
byte-resize n s i = ground (
  arith,
  get_or-append (take n s) (replicate (n - length s) 0) i 0,
  get_or-replicate {A = ℕ} (n - length s) 0 (i - length (take n s)),
  get_or-take n s i 0,
  length-take n s,
  get_or_past s i 0,
)

pub length-overwrite :
    (pos n : ℕ) (t s : Str)
    → length t ≡ n
    → pos + n ≤ length s
    → length (overwrite pos n t s) ≡ length s
unfolding overwrite
length-overwrite pos n t s e h = omega (
  arith,
  length-append (take pos s) (t ++ drop (pos + n) s),
  length-append t (drop (pos + n) s),
  length-take pos s,
  length-drop (pos + n) s,
)

pub byte-overwrite :
    (pos n : ℕ) (t s : Str) (i : ℕ)
    → length t ≡ n
    → pos + n ≤ length s
    → byte (overwrite pos n t s) i
      ≡ (if leb pos i && ltb i (pos + n) then byte t (i - pos) else byte s i)
unfolding overwrite
byte-overwrite pos n t s i e h = ground (
  arith,
  get_or-append (take pos s) (t ++ drop (pos + n) s) i 0,
  get_or-append t (drop (pos + n) s) (i - pos) 0,
  get_or-take pos s i 0,
  get_or-drop (pos + n) s (i - pos - n) 0,
  length-take pos s,
)

-- Every recorded region lies inside the block. `truncate` is what breaks this.
abbrev pub IsInside : ℕ → ℕ × ℕ → Type 0
IsInside n (first, second) = first + second ≤ n

-- The block after a write: grown to hold it, and overwritten.
abbrev written : Str → ℕ → ℕ → Str → Str
written bytes offset size d =
    overwrite offset size (take size bytes) (resize (max (offset + size) (length d)) d)

module _ (bytes : Str) (offset size : ℕ) (d : Str) (enough : size ≤ length bytes) where
  length-written : length (written bytes offset size d) ≡ max (offset + size) (length d)
  length-written = omega (
    arith,
    length-overwrite offset size (take size bytes) (resize (max (offset + size) (length d)) d),
    length-resize (max (offset + size) (length d)) d,
    length-take size bytes,
  )

  byte-written :
      (i : ℕ)
      → byte (written bytes offset size d) i
        ≡ (if leb offset i && ltb i (offset + size) then byte bytes (i - offset) else byte d i)
  byte-written i =
      let n = max (offset + size) (length d) in
      ground (
        arith,
        byte-overwrite offset size (take size bytes) (resize n d) i,
        byte-resize n d i,
        length-resize n d,
        length-take size bytes,
        get_or-take size bytes (i - offset) 0,
        get_or_past d i 0,
      )

-- A write that passes the two checks succeeds: the block reads back the new bytes in the written
-- region and the old ones elsewhere, a gap reads as zero, and the region is recorded last.
pub update_data_lem :
    (bytes : Str) (offset size : ℕ) (di : DataInfo)
    → offset + size ≤ max_block
    → size ≤ length bytes
    → (di' : DataInfo) × (update_data bytes offset size di ≡ ok (0, di'))
      × (length di'.d ≡ max (offset + size) (length di.d))
      × (di'.updates ≡ di.updates ++ ((offset, size) ∷ []))
      × ((i : ℕ)
          → byte di'.d i ≡ (
              if leb offset i && ltb i (offset + size)
              then byte bytes (i - offset)
              else byte di.d i))
unfolding update_data
update_data_lem bytes offset size di h k =
    let d' = written bytes offset size di.d in
    (
      record di { d = d'; updates = di.updates ++ ((offset, size) ∷ []) },
      ground (arith, length-resize (max (offset + size) (length di.d)) di.d),
      length-written bytes offset size di.d k,
      refl,
      byte-written bytes offset size di.d k,
    )
