-- ===== src/PathMap/Components.antt =====
-- The prefixes of a path that `searchPathRecursive` of src/pathmap_db.cc looks at.
use h_flat.Base.{
  ◌≢◌, sym, ℕ, zero, suc, ◌≤◌, ◌<◌, ◌≡◌, refl, Bool, true, false, [], ◌∷◌, Option, none, some, Str,
  str_eq, min, length, take, take-take, take_all, lookup, get_or, get_or-take, arith, ap, ◌∙◌, inl,
  inr, ◌⊎◌, Option-cases, length-take,
}
use h_flat.Base.Int.{pos}
use h_flat.Paths.{find_last, find_last-lt, is_slash, slash}
use h_flat.PathMap.Defs.{
  PmEntry, Snapshot, reuse, Limits, search_path_recursive, stops_at, stamp_at, remaps,
  last_component,
}

-- The first `n` bytes of the path are whole components of it.
abbrev pub Ends : Str → ℕ → Type 0
Ends path n = (n ≡ length path) ⊎ (get_or path n 0 ≡ slash)

-- Every component of the path is short enough, up to each of its prefixes.
abbrev pub IsShort : Limits → Str → Type 0
IsShort limits path =
    (n : ℕ) → last_component (take n path) (find_last is_slash (take n path)) ≤ limits.name_max

find_last-at : (path : Str) (i : ℕ) → find_last is_slash path ≡ some i → get_or path i 0 ≡ slash
unfolding find_last
find_last-at [] i h = absurd (ground arith)
find_last-at (c ∷ path) zero h = ground (arith, Option-cases (find_last is_slash path))
find_last-at (c ∷ path) (suc i) h = elim (Option-cases (find_last is_slash path)) [
  | inl top ↦ ground (arith, top)
  | inr (j, at) ↦ ground (arith, at, find_last-at path j at)
]

find_last-after :
    (path : Str) (n : ℕ)
    → get_or path n 0 ≡ slash
    → (i : ℕ) × (find_last is_slash path ≡ some i) × (n ≤ i)
unfolding find_last
find_last-after [] n h = absurd (ground arith)
find_last-after (c ∷ path) zero h = elim (Option-cases (find_last is_slash path)) [
  | inl top ↦ (0, ground (arith, top), omega arith)
  | inr (j, at) ↦ (suc j, ground (arith, at), omega arith)
]
find_last-after (c ∷ path) (suc n) h =
    let (j, at, after) = find_last-after path n h in
    (suc j, ground (arith, at), omega (arith, after))

take-take_shorter : (n i : ℕ) (path : Str) → n ≤ i → take n (take i path) ≡ take n path
take-take_shorter n i path h =
    let same : min n i ≡ n = omega (arith, h) in
    take-take n i path ∙ ap (λ (k : ℕ). take k path) same

-- The components of what stands in front of a slash are components of the path.
Ends-take :
    (path : Str) (i n : ℕ)
    → get_or path i 0 ≡ slash
    → i ≤ length path
    → Ends (take i path) n
    → Ends path n × (n ≤ i)
Ends-take path i n at low ends = (
  ground (arith, ends, length-take i path, get_or-take i path n 0),
  ground (arith, ends, length-take i path, get_or-take i path n 0),
)

pub take-longer : (n : ℕ) (to path : Str) → length to < n → n ≤ length path → take n path ≢ to
take-longer n to path h k e = omega (arith, ap length e, length-take n path)

pub Ends-le : (path : Str) (n : ℕ) → Ends path n → n ≤ length path
Ends-le [] n ends = ground (arith, ends)
Ends-le (c ∷ path) zero ends = omega arith
Ends-le (c ∷ path) (suc n) ends = omega (arith, Ends-le path n (ground (arith, ends)))

-- No component of a relative path is an absolute one.
pub starts :
    (n : ℕ) (path p : Str)
    → Ends path n
    → 0 < get_or path 0 0
    → get_or path 0 0 ≢ slash
    → get_or p 0 0 ≡ slash
    → p ≢ take n path
starts zero [] p ends some_byte relative absolute e = absurd (ground arith)
starts zero (c ∷ path) p (inl full) some_byte relative absolute e = absurd (ground arith)
starts zero (c ∷ path) p (inr split) some_byte relative absolute e = relative split
starts (suc n) path p ends some_byte relative absolute e =
    let first : get_or (take (suc n) path) 0 0 ≡ slash =
      ap (λ (t : Str). get_or t 0 0) (sym e) ∙ absolute in
    relative (ground (arith, first, get_or-take (suc n) path 0 0))

-- A mapping of which a search takes no notice: there is none, or a reuse mapping that it must not
-- follow.
abbrev pub IsPassed : Bool → Option PmEntry → Type 0
IsPassed follow_reuse entry =
    (entry ≡ none)
    ⊎ ((follow_reuse ≡ false)
        × ((e : PmEntry) × (entry ≡ some e) × (e.type ≡ reuse) × (e.permission_time_stamp ≡ pos 0)))

passed-stops :
    (follow_reuse follow_symlink : Bool) (entry : Option PmEntry)
    → IsPassed follow_reuse entry
    → (stops_at follow_reuse follow_symlink entry ≡ false) × (stamp_at entry (pos 0) ≡ pos 0)
unfolding stops_at stamp_at remaps
passed-stops follow_reuse follow_symlink entry (inl absent) =
    (ground (arith, absent), ground (arith, absent))
passed-stops follow_reuse follow_symlink entry (inr (ignored, found)) =
    let (e, at, kind, stamp) = found in
    (ground (arith, ignored, at, kind), ground (arith, at, stamp))

module _ (limits : Limits) (s : Snapshot) where
  -- A search that takes notice of no component fails.
  pub search_passes :
      (fuel : ℕ) (path : Str) (follow_reuse follow_symlink : Bool)
      → length path < fuel
      → IsShort limits path
      → ((n : ℕ) → Ends path n → IsPassed follow_reuse (lookup (take n path) s))
      → (q : Str) × (search_path_recursive limits fuel s path (pos 0) follow_reuse follow_symlink
          ≡ some (record { found = false; path = q; stamp = pos 0 }))
  unfolding search_path_recursive
  search_passes zero path follow_reuse follow_symlink h short p = elim h [ ]
  search_passes (suc fuel) path follow_reuse follow_symlink h short p =
      let same = take_all path in
      let here : IsPassed follow_reuse (lookup path s) = rw same at (p (length path) (inl refl)) in
      let (further, stamp) = passed-stops follow_reuse follow_symlink (lookup path s) here in
      let fits : last_component path (find_last is_slash path) ≤ limits.name_max =
        rw same at (short (length path)) in
      elim (Option-cases (find_last is_slash path)) [
        | inl top ↦ (path, ground (arith, further, stamp, fits, top))
        | inr (i, up) ↦
            let low = find_last-lt is_slash path i up in
            let (q, run) =
              search_passes fuel (take i path) follow_reuse true
                (omega (arith, length-take i path, low))
                (λ n. rw (take-take n i path) (short (min n i)))
                (λ n ends.
                  let (ends', before) =
                    Ends-take path i n (find_last-at path i up) (omega (arith, low)) ends in
                  rw (take-take_shorter n i path before) (p n ends')) in
            (q, ground (arith, further, stamp, fits, up, run))
      ]

  -- A search stops at the longest component that is mapped, if it may follow that mapping.
  pub search_reaches :
      (fuel m : ℕ) (path : Str) (e : PmEntry) (follow_reuse follow_symlink : Bool)
      → length path < fuel
      → m ≤ length path
      → Ends path m
      → IsShort limits path
      → ((n : ℕ) → Ends path n → m < n → lookup (take n path) s ≡ none)
      → lookup (take m path) s ≡ some e
      → ((b : Bool) → remaps follow_reuse b e.type ≡ true)
      → e.permission_time_stamp ≡ pos 0
      → search_path_recursive limits fuel s path (pos 0) follow_reuse follow_symlink
        ≡ some (record { found = true; path = take m path; stamp = pos 0 })
  unfolding search_path_recursive stops_at stamp_at
  search_reaches zero m path e follow_reuse follow_symlink h low ends short p at hit stamp =
      elim h [ ]
  search_reaches (suc fuel) m path e follow_reuse follow_symlink h low (inl full) short p at hit
        stamp =
      let same : take m path ≡ path = rw full (take_all path) in
      let here : lookup path s ≡ some e = rw (← same) at in
      rw same (ground (arith, here, hit follow_symlink, stamp))
  search_reaches (suc fuel) m path e follow_reuse follow_symlink h low (inr split) short p at hit
        stamp =
      let same = take_all path in
      let (i, up, after) = find_last-after path m split in
      let below = find_last-lt is_slash path i up in
      let absent : lookup path s ≡ none =
        rw same at (p (length path) (inl refl) (omega (arith, after, below))) in
      let fits : last_component path (find_last is_slash path) ≤ limits.name_max =
        rw same at (short (length path)) in
      let front = take-take_shorter m i path after in
      let run =
        search_reaches fuel m (take i path) e follow_reuse true
          (omega (arith, length-take i path, below))
          (omega (arith, length-take i path, below, after))
          (ground (arith, get_or-take i path m 0, length-take i path, after, below, split))
          (λ n. rw (take-take n i path) (short (min n i)))
          (λ n ends more.
            let (ends', before) =
              Ends-take path i n (find_last-at path i up) (omega (arith, below)) ends in
            rw (take-take_shorter n i path before) (p n ends' more))
          (rw front at) hit stamp in
      ground (arith, absent, fits, up, run, front)
