-- ===== src/Data/Merge.antt =====
-- `mergeDataChanges`: the changes of this client, laid over a block that another client wrote.
use h_flat.Base.{
  ℕ, ◌+◌, ◌-◌, ◌≤◌, ◌<◌, max, ◌≡◌, refl, Bool, false, List, [], ◌∷◌, ◌++◌, Str, ltb, leb,
  if◌then◌else◌, length, take, drop, length-take, length-drop, get_or-take, get_or-drop,
  get_or_past, ok, fault, out_of_range, arith, ◌&&◌, ◌||◌, All,
}
use h_flat.Data.Block.{
  DataInfo, resize, overwrite, update_data, truncate, max_block, merge_updates, merge_data_changes,
}
use h_flat.Data.Update.{
  byte, length-resize, byte-resize, length-overwrite, byte-overwrite, update_data_lem,
}

-- Some recorded region holds the position.
pub covered : List (ℕ × ℕ) → ℕ → Bool
covered [] i = false
covered ((first, second) ∷ us) i = (leb first i && ltb i (first + second)) || covered us i

-- A region that `updateData` recorded, still inside the block.
abbrev pub IsWrite : ℕ → ℕ × ℕ → Type 0
IsWrite n (first, second) = (0 < second) × (first + second ≤ n)

-- One region copied from `d` over `fresh`.
abbrev laid : Str → ℕ → ℕ → Str → Str
laid d first second fresh = overwrite first second (take second (drop first d)) fresh

module _ (d : Str) (first second : ℕ) (inside : first + second ≤ length d) where
  length-piece : length (take second (drop first d)) ≡ second
  length-piece = omega (arith, length-take second (drop first d), length-drop first d)

  byte-laid :
      (fresh : Str) (i : ℕ)
      → length d ≤ length fresh
      → byte (laid d first second fresh) i
        ≡ (if leb first i && ltb i (first + second) then byte d i else byte fresh i)
  byte-laid fresh i h = ground (
    arith,
    byte-overwrite first second (take second (drop first d)) fresh i length-piece,
    get_or-take second (drop first d) (i - first) 0,
    get_or-drop first d (i - first) 0,
  )

merge_updates_lem :
    (d : Str) (us : List (ℕ × ℕ)) (fresh : Str)
    → All (IsWrite (length d)) us
    → length d ≤ length fresh
    → (s : Str) × (merge_updates d us fresh ≡ ok s)
      × (length s ≡ length fresh)
      × ((i : ℕ) → byte s i ≡ (if covered us i then byte d i else byte fresh i))
unfolding merge_updates covered
merge_updates_lem d [] fresh w h = (fresh, refl, refl, λ i. refl)
merge_updates_lem d ((first, second) ∷ us) fresh ((p, q), w) h =
    let over = laid d first second fresh in
    let size : length over ≡ length fresh =
      length-overwrite first second (take second (drop first d)) fresh
        (length-piece d first second q) (omega arith) in
    let (s, run, len, reads) = merge_updates_lem d us over w (omega arith) in
    (
      s,
      ground (arith, run),
      omega arith,
      λ i. ground (arith, reads i, byte-laid d first second q fresh i h),
    )

-- After writes alone, of two blocks within the size limit, the merge succeeds: the block has the
-- larger of the two lengths, holds this client's bytes in every recorded region and the other
-- client's bytes everywhere else, and keeps its key, its version and its recorded regions.
pub merge_data_changes_lem :
    (fresh : Str) (di : DataInfo)
    → All (IsWrite (length di.d)) di.updates
    → length di.d ≤ max_block
    → length fresh ≤ max_block
    → (s : Str) × (merge_data_changes fresh di ≡ ok (record di { d = s }))
      × (length s ≡ max (length fresh) (length di.d))
      × ((i : ℕ) → byte s i ≡ (if covered di.updates i then byte di.d i else byte fresh i))
unfolding merge_data_changes
merge_data_changes_lem fresh di w p q =
    let n = max (length fresh) (length di.d) in
    let len : length (resize n fresh) ≡ n = length-resize n fresh in
    let (s, run, size, reads) =
      merge_updates_lem di.d di.updates (resize n fresh) w (omega arith) in
    (
      s,
      ground (arith, run),
      omega arith,
      λ i. ground (arith, reads i, byte-resize n fresh i, get_or_past fresh i 0),
    )

All-grow :
    (us : List (ℕ × ℕ)) (m n first second : ℕ)
    → m ≤ n
    → IsWrite n (first, second)
    → All (IsWrite m) us
    → All (IsWrite n) (us ++ ((first, second) ∷ []))
All-grow [] m n first second h u w = (u, tt)
All-grow (v ∷ us) m n first second h u w =
    ((w.0.0, omega arith), All-grow us m n first second h u w.1)

-- A write of at least one byte within the size limit keeps every recorded region a write inside the
-- block.
update_data-IsWrite :
    (bytes : Str) (offset size : ℕ) (di di' : DataInfo)
    → update_data bytes offset size di ≡ ok (0, di')
    → 0 < size
    → offset + size ≤ max_block
    → size ≤ length bytes
    → All (IsWrite (length di.d)) di.updates
    → All (IsWrite (length di'.d)) di'.updates
update_data-IsWrite bytes offset size di di' run p h k w =
    let (after, ran, len, recorded, _) = update_data_lem bytes offset size di h k in
    let same : di' ≡ after = ground (arith, run, ran) in
    rw (same, recorded)
      (All-grow di.updates (length di.d) (length after.d) offset size (omega arith) (p, omega arith)
        w)

merge_updates_short :
    (d : Str) (first second : ℕ) (us : List (ℕ × ℕ)) (fresh : Str)
    → 0 < second
    → length d < first
    → merge_updates d ((first, second) ∷ us) fresh ≡ fault out_of_range
unfolding merge_updates
merge_updates_short d first second us fresh p h = ground arith

-- On a block without recorded updates, a write of at least one byte within the size limit that is
-- followed by a truncation below its offset cannot be merged with a block of another client: the
-- copy of the written region is out of range, and nothing catches the exception.
pub merge_data_changes_cut :
    (fresh bytes : Str) (offset size cut : ℕ) (di w t : DataInfo)
    → di.updates ≡ []
    → update_data bytes offset size di ≡ ok (0, w)
    → truncate cut w ≡ ok t
    → 0 < size
    → offset + size ≤ max_block
    → size ≤ length bytes
    → cut < offset
    → merge_data_changes fresh t ≡ fault out_of_range
unfolding merge_data_changes truncate
merge_data_changes_cut fresh bytes offset size cut di w t none_yet wrote cut_off p h k below =
    let (after, ran, _, recorded, _) = update_data_lem bytes offset size di h k in
    let same : w ≡ after = ground (arith, wrote, ran) in
    let regions : w.updates ≡ (offset, size) ∷ [] = rw (same, recorded, none_yet) refl in
    let cut_to : t ≡ record w { d = resize cut w.d; updates = (offset, size) ∷ (cut, 0) ∷ [] } =
      ground (arith, cut_off, regions) in
    rw cut_to (
      ground (
        arith,
        merge_updates_short (resize cut w.d) offset size ((cut, 0) ∷ [])
            (resize (max (length fresh) (length (resize cut w.d))) fresh) p
            (omega (arith, length-resize cut w.d)),
      ))
