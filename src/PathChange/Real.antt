-- ===== src/PathChange/Real.antt =====
-- `_realpath` on a path that has nothing to clean up.
use h_flat.Base.{
  ℕ, zero, suc, ◌+◌, ◌<◌, ◌≤◌, ◌≡◌, refl, ap, Bool, true, false, not, ◌&&◌, ◌||◌, [], ◌∷◌, none,
  some, Str, eqb, ltb, length, drop, get_elem?, arith, eqb_iff, Option-cases, Bool-cases, inl, inr,
}
use native.Mathlib.Nat.{add-suc}
use h_flat.Paths.{find_first, find_first_from, slash}
use h_flat.World.State.{done}
use h_flat.PathChange.{char_at, real_step, real_from, real_path, starts_with_slash, minus}

abbrev starts_badly : Str → Bool
starts_badly [] = false
starts_badly (c ∷ s) = eqb c slash || eqb c b'.'

-- No slash is followed by another one or by a dot.
unfoldable pub is_clean : Str → Bool
is_clean [] = true
is_clean (c ∷ s) = not (eqb c slash && starts_badly s) && is_clean s

is_clean_at :
    (path : Str) (i c : ℕ)
    → is_clean path ≡ true
    → get_elem? path i ≡ some slash
    → get_elem? path (suc i) ≡ some c
    → (eqb c slash ≡ false) × (eqb c b'.' ≡ false)
unfolding is_clean
is_clean_at [] i c clean at next = absurd (ground arith)
is_clean_at (a ∷ []) i c clean at next = absurd (ground arith)
is_clean_at (a ∷ b ∷ s) zero c clean at next = (ground arith, ground arith)
is_clean_at (a ∷ b ∷ s) (suc i) c clean at next =
    is_clean_at (b ∷ s) i c (ground arith) (ground arith) (ground arith)

get_elem?-lt : (s : Str) (i : ℕ) → i < length s → (c : ℕ) × (get_elem? s i ≡ some c)
get_elem?-lt [] i h = absurd (omega arith)
get_elem?-lt (c ∷ s) zero h = (c, refl)
get_elem?-lt (c ∷ s) (suc i) h = get_elem?-lt s i (omega arith)

get_elem?_inside : (s : Str) (i c : ℕ) → get_elem? s i ≡ some c → i < length s
get_elem?_inside [] i c h = absurd (ground arith)
get_elem?_inside (d ∷ s) zero c h = omega arith
get_elem?_inside (d ∷ s) (suc i) c h = omega (arith, get_elem?_inside s i c h)

find_first_found : (c : ℕ) (s : Str) (j : ℕ) → find_first c s ≡ some j → get_elem? s j ≡ some c
unfolding find_first
find_first_found c [] j h = absurd (ground arith)
find_first_found c (x ∷ s) j h = elim (Option-cases (find_first c s)) [
  | inl nowhere ↦ ground (arith, nowhere)
  | inr (k, found) ↦ ground (arith, found, find_first_found c s k found)
]

get_elem?-drop : (n : ℕ) (s : Str) (i : ℕ) → get_elem? (drop n s) i ≡ get_elem? s (i + n)
get_elem?-drop zero s i = ground arith
get_elem?-drop (suc n) [] i = ground arith
get_elem?-drop (suc n) (x ∷ s) i = rw add-suc (get_elem?-drop n s i)

find_first_from_found :
    (c i : ℕ) (s : Str) (j : ℕ)
    → find_first_from c i s ≡ some j
    → (i ≤ j) × (get_elem? s j ≡ some c)
unfolding find_first_from
find_first_from_found c i s j h = elim (Option-cases (find_first c (drop i s))) [
  | inl nowhere ↦ absurd (ground (arith, nowhere))
  | inr (k, found) ↦ (
    ground (arith, found),
    ground (arith, found, find_first_found c (drop i s) k found, get_elem?-drop i s k),
  )
]

real_step_clean :
    (i c : ℕ) (path : Str)
    → get_elem? path (i + 1) ≡ some c
    → (eqb c slash ≡ false) × (eqb c b'.' ≡ false)
    → real_step i path ≡ done (find_first_from slash (i + 1) path, path)
unfolding real_step char_at
real_step_clean i c path next h = ground (arith, next, h.0, h.1)

real_from-none : (fuel : ℕ) (path : Str) → 0 < fuel → real_from fuel none path ≡ done path
unfolding real_from
real_from-none zero path h = absurd (omega arith)
real_from-none (suc fuel) path h = refl

real_from_clean :
    (fuel i : ℕ) (path : Str)
    → is_clean path ≡ true
    → get_elem? path i ≡ some slash
    → length path < fuel + i
    → i < length path
    → real_from fuel (some i) path ≡ done path
unfolding real_from
real_from_clean zero i path clean at enough inside = absurd (omega arith)
real_from_clean (suc fuel) i path clean at enough inside =
    elim (Bool-cases (ltb i (minus (length path) 1))) [
      | inr last ↦ ground (arith, last)
      | inl more ↦
          let (c, next) = get_elem?-lt path (i + 1) (ground (arith, more)) in
          let step =
            real_step_clean i c path next (is_clean_at path i c clean at (ground (arith, next))) in
          elim (Option-cases (find_first_from slash (i + 1) path)) [
            | inl nowhere ↦
                rw (more, step, nowhere) (real_from-none fuel path (ground (arith, more)))
            | inr (j, found) ↦
                let (after, there) = find_first_from_found slash (i + 1) path j found in
                rw (more, step, found)
                  (real_from_clean fuel j path clean there (omega (arith, after))
                    (get_elem?_inside path j slash there))
          ]
    ]

-- An absolute path with no double slash and no component that starts with a dot stays as it is, with
-- fuel for each of its bytes.
pub real_path_clean :
    (fuel : ℕ) (cwd path : Str)
    → is_clean path ≡ true
    → starts_with_slash path ≡ true
    → length path < fuel
    → real_path fuel cwd path ≡ done path
unfolding real_path starts_with_slash find_first
real_path_clean fuel cwd [] clean absolute enough = absurd (ground arith)
real_path_clean fuel cwd (c ∷ s) clean absolute enough =
    let is_slash : c ≡ slash = ground (arith, eqb_iff c slash) in
    rw (absolute, absolute)
      (real_from_clean fuel 0 (c ∷ s) clean (ap some is_slash) (omega arith) (omega arith))
