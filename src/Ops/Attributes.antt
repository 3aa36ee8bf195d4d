-- ===== src/Ops/Attributes.antt =====
-- Extended attributes: what is set can be read back, and nothing else changes.
use h_flat.Base.{
  ℕ, ◌+◌, ◌≡◌, refl, List, [], ◌∷◌, Option, some, Str, str_eq, str_beq_iff, ◌==◌, eqb, ltb,
  if◌then◌else◌, length, arith, Option-cases, Bool-cases, inl, inr, eq_refl,
}
use h_flat.Ops.Xattr.{find_xattr, set_xattr, xattr_reply, xattr_at, erange}

-- The value under a name, as `hflat_getxattr` finds it.
pub attr_value : Str → List (Str × Str) → Option (Str × Str)
attr_value name xs = xattr_at xs (find_xattr name xs)

attr_value-cons :
    (name n v : Str) (xs : List (Str × Str))
    → attr_value name ((n, v) ∷ xs) ≡ (if n == name then some (n, v) else attr_value name xs)
unfolding attr_value find_xattr
attr_value-cons name n v xs = ground (arith, Option-cases (find_xattr name xs))

set_xattr-cons :
    (name value n v : Str) (xs : List (Str × Str))
    → set_xattr name value ((n, v) ∷ xs)
      ≡ (if n == name then (name, value) ∷ xs else (n, v) ∷ set_xattr name value xs)
unfolding set_xattr find_xattr
set_xattr-cons name value n v xs = ground (arith, Option-cases (find_xattr name xs))

set_xattr-nil : (name value : Str) → set_xattr name value [] ≡ (name, value) ∷ []
unfolding set_xattr find_xattr
set_xattr-nil name value = refl

-- After an attribute is set, its name reads the new value, and every other name reads what it read
-- before.
pub attr_value-set_xattr :
    (name other value : Str) (xs : List (Str × Str))
    → attr_value other (set_xattr name value xs)
      ≡ (if name == other then some (name, value) else attr_value other xs)
attr_value-set_xattr name other value [] =
    ground (arith, set_xattr-nil name value, attr_value-cons other name value [])
attr_value-set_xattr name other value ((n, v) ∷ xs) = elim (Bool-cases (n == name)) [
  | inl same ↦
      let e : n ≡ name = (str_beq_iff n name).0 same in
      ground (
        arith,
        set_xattr-cons name value n v xs,
        attr_value-cons other name value xs,
        attr_value-cons other n v xs,
        e,
      )
  | inr differ ↦ ground (
    arith,
    set_xattr-cons name value n v xs,
    attr_value-cons other n v (set_xattr name value xs),
    attr_value-cons other n v xs,
    attr_value-set_xattr name other value xs,
    str_beq_iff n other,
    str_beq_iff name other,
    str_beq_iff n name,
  )
]

-- A buffer of any size: size 0 asks for the length and one more, a buffer that is too small is
-- refused, and any other receives the value that was set, whole.
xattr_reply-set_xattr :
    (name value : Str) (xs : List (Str × Str)) (size : ℕ)
    → xattr_reply size (attr_value name (set_xattr name value xs)) ≡ (
        if eqb size 0
        then (0, length value + 1, [])
        else if ltb size (length value)
        then (erange, 0, [])
        else (0, length value, value))
unfolding xattr_reply
xattr_reply-set_xattr name value xs size =
    ground (arith, attr_value-set_xattr name name value xs, eq_refl name)
