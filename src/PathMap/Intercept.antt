-- ===== src/PathMap/Intercept.antt =====
-- `iointercept` of the path map undoes what the interception library does to a path.
use h_flat.Base.{◌≡◌, refl, [], ◌∷◌, none, Str, arith, Option-cases, inl, inr}
use h_flat.Paths.{find_first, find_first_from, slash, colon}
use h_flat.PathMap.Defs.{iointercept, slashes_back, erase_virtual}

find_first-slashes_back : (s : Str) → find_first colon (slashes_back s) ≡ none
unfolding find_first slashes_back
find_first-slashes_back [] = refl
find_first-slashes_back (c ∷ s) = ground (arith, find_first-slashes_back s)

-- The path that the map works on has no colon left, so intercepting it again changes nothing.
pub iointercept_idem :
    (path : Str)
    → (find_first colon (iointercept path) ≡ none)
      × (iointercept (iointercept path) ≡ iointercept path)
unfolding iointercept
iointercept_idem path = elim (Option-cases (find_first colon path)) [
  | inl plain ↦ (ground (arith, plain), ground (arith, plain))
  | inr (i, found) ↦
      let s = erase_virtual i (find_first_from slash i path) path in
      (
        ground (arith, found, find_first-slashes_back s),
        ground (arith, found, find_first-slashes_back s),
      )
]
