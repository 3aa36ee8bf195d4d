-- ===== src/Ops/Written.antt =====
-- The block that a write leaves behind in the cache.
use h_flat.Base.{
  ℕ, ◌+◌, ◌-◌, ◌/◌, ◌≤◌, ◌≡◌, true, false, not, Option, none, some, Str, eqb, ltb, leb,
  if◌then◌else◌, length, ok, arith, Bool-cases, Option-cases, Exec-cases, inl, inr, get_elem?,
  get_elem?-set, str_eq, ◌&&◌, [], ◌∷◌, ◌++◌, List,
}
use h_flat.Data.Block.{DataInfo, update_data, has_updates, max_block}
use h_flat.Data.Update.{byte, update_data_lem}
use h_flat.Metadata.Defs.{Metadata}
use h_flat.LruCache.Present.{Holds}
use h_flat.World.State.{System, World, M, ◌>>=◌, ◌>>◌, pure, done, lift, load_di, store_di, deref}
use h_flat.World.Post.{bind-done, if-done}
use h_flat.Ops.Fetching.{fetch_block-Holds}
use h_flat.Ops.Rw.{
  fetch_block, Transfer, writing, transfer, do_rw, block_start, in_block_size, block_key,
}

-- A write that passes the checks is one within the block and the buffer.
update_data-fits :
    (bytes : Str) (offset size : ℕ) (di : DataInfo) (r : ℕ × DataInfo)
    → update_data bytes offset size di ≡ ok r
    → (offset + size ≤ max_block) × (size ≤ length bytes)
unfolding update_data
update_data-fits bytes offset size di r ran = elim (Bool-cases (leb (offset + size) max_block)) [
  | inl within ↦ elim (Bool-cases (leb size (length bytes))) [
    | inl room ↦ (ground arith, ground arith)
    | inr short ↦ absurd (ground (arith, ran))
  ]
  | inr past ↦ absurd (ground (arith, ran))
]

has_updates-recorded :
    (di : DataInfo) (us : List (ℕ × ℕ)) (u : ℕ × ℕ)
    → di.updates ≡ us ++ (u ∷ [])
    → has_updates di ≡ true
unfolding has_updates
has_updates-recorded di [] u e = ground (arith, e)
has_updates-recorded di (v ∷ us) u e = ground (arith, e)

zero_of : (err : ℕ) → not (eqb err 0) ≡ false → err ≡ 0
zero_of err e = ground arith

module _ {S : Type 0} (sys : System S) where
  -- A block after a write, and what the call answered.
  pub record Written (buf : Str) (start count r : ℕ) (d : Str) (w w' : World S) : Type 0 where
    pub di' : DataInfo
    pub kept : w'.data_cache ≡ w.data_cache
    pub stored : get_elem? w'.data_infos r ≡ some di'
    pub busy : has_updates di' ≡ true
    pub bytes :
        (i : ℕ)
        → byte di'.d i
          ≡ (if leb start i && ltb i (start + count) then byte buf (i - start) else byte d i)

  updated-Written :
      (buf : Str) (start count r : ℕ) (di : DataInfo) (w w' : World S) (t t' : Transfer sys)
      → get_elem? w.data_infos r ≡ some di
      → (lift (update_data buf start count di) >>= λ (c, di'). store_di r di' >> pure t') w
        ≡ done (t, w')
      → (t ≡ t') × Written buf start count r di.d w w'
  unfolding store_di
  updated-Written buf start count r di w w' t t' at ran =
      elim (Exec-cases (update_data buf start count di)) [
        | inl (f, broken) ↦ absurd (ground (arith, broken))
        | inr (c, updated) ↦
            let (bound, room) = update_data-fits buf start count di c updated in
            let (di', same, _, recorded, bytes) = update_data_lem buf start count di bound room in
            (
              ground (arith, same),
              record {
                di' = di';
                kept = ground (arith, same);
                stored = ground (arith, same, get_elem?-set w.data_infos r di di' at);
                busy = has_updates-recorded di' di.updates (start, count) recorded;
                bytes = bytes;
              },
            )
      ]

  transfer-Written :
      (buf : Str) (size offset r : ℕ) (w w' : World S) (t : Transfer sys)
      → transfer sys buf size offset writing r w ≡ done (t, w')
      → (di : DataInfo) × (get_elem? w.data_infos r ≡ some di)
        × (t.err ≡ 0)
        × (t.count ≡ in_block_size sys size (block_start sys offset))
        × (t.di ≡ some r)
        × Written buf (block_start sys offset) t.count r di.d w w'
  unfolding transfer load_di
  transfer-Written buf size offset r w w' t ran = elim (Option-cases (get_elem? w.data_infos r)) [
    | inl missing ↦ absurd (ground (arith, missing))
    | inr (di, at) ↦
        let count = in_block_size sys size (block_start sys offset) in
        let (same, written) =
          updated-Written buf (block_start sys offset) count r di w w' t
            (record { err = 0; count = count; di = some r; buf = buf }) at (ground (arith, at)) in
        let counted : t.count ≡ count = ground (arith, same) in
        (di, at, ground (arith, same), counted, ground (arith, same), rw counted written)
  ]

  -- A successful write: the block that it got, in the cache, and the block after it.
  pub record Wrote (buf : Str) (size offset : ℕ) (md : Metadata) (w w' : World S) (t : Transfer sys)
      : Type 0 where
    pub r : ℕ
    pub u : World S
    pub di : DataInfo
    pub got :
        fetch_block sys
          (block_key sys md.inode_number (offset / sys.block_size))
          (ltb md.size (offset + size))
          w
        ≡ done ((0, some r), u)
    pub holds : Holds (block_key sys md.inode_number (offset / sys.block_size)) r u.data_cache
    pub at : get_elem? u.data_infos r ≡ some di
    pub counted : t.count ≡ in_block_size sys size (block_start sys offset)
    pub written : Written buf (block_start sys offset) t.count r di.d u w'

  pub do_rw-Wrote :
      (buf : Str) (size offset : ℕ) (md : Metadata) (w w' : World S) (t : Transfer sys)
      → do_rw sys buf size offset md writing w ≡ done (t, w')
      → t.err ≡ 0
      → Wrote buf size offset md w w' t
  unfolding do_rw
  do_rw-Wrote buf size offset md w w' t ran fine =
      let key = block_key sys md.inode_number (offset / sys.block_size) in
      let failed : ℕ → Transfer sys =
        λ err. record { err = err; count = 0; di = none; buf = buf } in
      let rest : Option ℕ → M S (Transfer sys) =
        λ found. deref found >>= transfer sys buf size offset writing in
      let ((err, found), u, got, later) =
        bind-done (fetch_block sys key (ltb md.size (offset + size)))
          (λ (err, found). if not (eqb err 0) then pure (failed err) else rest found) w w' t ran in
      elim (if-done (not (eqb err 0)) (pure (failed err)) (rest found) u w' t later) [
        | inl (bad, ended) ↦ absurd (ground (arith, bad, ended, fine))
        | inr (good, goes_on) ↦
            let done_zero : fetch_block sys key (ltb md.size (offset + size)) w
                ≡ done ((0, found), u) =
              cc (zero_of err good, got) in
            let (r, there, holds) =
              fetch_block-Holds sys key (ltb md.size (offset + size)) found w u done_zero in
            let ran' : transfer sys buf size offset writing r u ≡ done (t, w') =
              ground (arith, there, goes_on) in
            let (di, at, _, counted, _, written) = transfer-Written buf size offset r u w' t ran' in
            record {
              r = r;
              u = u;
              di = di;
              got = cc (done_zero, there);
              holds = holds;
              at = at;
              counted = counted;
              written = written;
            }
      ]
