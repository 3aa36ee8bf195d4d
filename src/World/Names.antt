-- ===== src/World/Names.antt =====
-- The parts of a path: `path_to_filename` of src/util.cc and `lookup_parent` of src/lookup.cc.
use h_flat.Base.{
  ℕ, suc, ◌+◌, ◌<◌, ◌≡◌, refl, true, Bool, [], ◌∷◌, ◌++◌, none, some, Str, take, drop, max, arith,
  Bool-cases, Option-cases, inl, inr, ap,
}
use h_flat.Paths.{find_last, is_separator}
use h_flat.World.Util.{path_to_filename}
use h_flat.World.Lookup.{parent_path}

-- What a path splits into at its last separator.
find_last-split :
    (p : ℕ → Bool) (s : Str) (i : ℕ)
    → find_last p s ≡ some i
    → (c : ℕ) × (p c ≡ true)
      × (s ≡ take i s ++ (c ∷ drop (suc i) s))
      × (find_last p (drop (suc i) s) ≡ none)
unfolding find_last
find_last-split p [] i h = absurd (ground arith)
find_last-split p (x ∷ s) i h = elim (Option-cases (find_last p s)) [
  | inl last ↦ elim (Bool-cases (p x)) [
    | inl here ↦
        let first : i ≡ 0 = ground (arith, last, here) in (x, here, rw first refl, rw first last)
    | inr differs ↦ absurd (ground (arith, last, differs))
  ]
  | inr (j, after) ↦
      let (c, sep, whole, rest) = find_last-split p s j after in
      let next : i ≡ suc j = ground (arith, after) in
      (c, sep, rw next (ap (λ t. x ∷ t) whole), rw next rest)
]

-- A path with a separator behind its first byte is its parent's path, the separator and the file
-- name, and the file name has no separator.
path_to_filename-parent_path :
    (path : Str) (i : ℕ)
    → find_last is_separator path ≡ some i
    → 0 < i
    → (c : ℕ) × (is_separator c ≡ true)
      × (path ≡ parent_path i path ++ (c ∷ path_to_filename path))
      × (find_last is_separator (path_to_filename path) ≡ none)
unfolding path_to_filename
path_to_filename-parent_path path i at behind =
    let (c, sep, whole, rest) = find_last-split is_separator path i at in
    let same : max i 1 ≡ i = omega arith in
    let behind_it : i + 1 ≡ suc i = omega arith in
    let name : path_to_filename path ≡ drop (suc i) path = ground (arith, at, behind_it) in
    (c, sep, rw (name, same) whole, rw name rest)
