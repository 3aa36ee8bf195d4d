-- ===== src/Ops/Listing.antt =====
-- The list of attribute names that `hflat_listxattr` copies into a buffer.
use h_flat.Base.{
  ℕ, ◌+◌, ◌≤◌, ◌<◌, ◌≡◌, List, [], ◌∷◌, ◌++◌, Str, ltb, if◌then◌else◌, length, length-append, arith,
  Bool-cases, inl, inr,
}
use h_flat.Ops.Xattr.{list_names, erange}

-- The size of the names, each with a zero byte behind it.
pub names_size : List (Str × Str) → ℕ
names_size [] = 0
names_size ((n, v) ∷ xs) = length n + 1 + names_size xs

-- The names, each with a zero byte behind it.
pub joined_names : List (Str × Str) → Str
joined_names [] = []
joined_names ((n, v) ∷ xs) = n ++ (0 ∷ joined_names xs)

list_names_asked :
    (bytesize : ℕ) (xs : List (Str × Str))
    → list_names 0 bytesize xs ≡ (0, bytesize + names_size xs, [])
unfolding list_names names_size
list_names_asked bytesize [] = ground arith
list_names_asked bytesize ((n, v) ∷ xs) =
    ground (arith, list_names_asked (bytesize + (length n + 1)) xs)

list_names_fits :
    (size bytesize : ℕ) (xs : List (Str × Str))
    → 0 < size
    → bytesize + names_size xs ≤ size
    → list_names size bytesize xs ≡ (0, bytesize + names_size xs, joined_names xs)
unfolding list_names names_size joined_names
list_names_fits size bytesize [] p h = ground arith
list_names_fits size bytesize ((n, v) ∷ xs) p h =
    ground (arith, list_names_fits size (bytesize + (length n + 1)) xs p)

list_names_short :
    (size bytesize : ℕ) (xs : List (Str × Str))
    → 0 < size
    → bytesize ≤ size
    → size < bytesize + names_size xs
    → (list_names size bytesize xs).0 ≡ erange
unfolding list_names names_size
list_names_short size bytesize [] p q h = ground arith
list_names_short size bytesize ((n, v) ∷ xs) p q h =
    ground (arith, list_names_short size (bytesize + (length n + 1)) xs p)

list_names_within :
    (size bytesize : ℕ) (xs : List (Str × Str))
    → 0 < size
    → bytesize ≤ size
    → bytesize + length (list_names size bytesize xs).2 ≤ size
unfolding list_names
list_names_within size bytesize [] q h = ground arith
list_names_within size bytesize ((n, v) ∷ xs) q h =
    let later = list_names size (bytesize + (length n + 1)) xs in
    ground (
      arith,
      list_names_within size (bytesize + (length n + 1)) xs q,
      length-append n (0 ∷ later.2),
    )

-- A buffer of size 0 asks for the size of the names with their zero bytes. Of any other size, a
-- buffer that is too small is refused with ERANGE, and one that is large enough receives the names
-- and their size; no buffer is written past its end.
pub list_names_lem :
    (size : ℕ) (xs : List (Str × Str))
    → 0 < size
    → (list_names 0 0 xs ≡ (0, names_size xs, []))
      × ((list_names size 0 xs).0 ≡ (if ltb size (names_size xs) then erange else 0))
      × ((if ltb size (names_size xs)
            then list_names size 0 xs
            else (0, names_size xs, joined_names xs))
          ≡ list_names size 0 xs)
      × (length (list_names size 0 xs).2 ≤ size)
list_names_lem size xs p = elim (Bool-cases (ltb size (names_size xs))) [
  | inl small ↦ (
    ground (arith, list_names_asked 0 xs),
    ground (arith, small, list_names_short size 0 xs p),
    ground (arith, small),
    omega (arith, list_names_within size 0 xs p (omega arith)),
  )
  | inr large ↦ (
    ground (arith, list_names_asked 0 xs),
    ground (arith, large, list_names_fits size 0 xs p),
    ground (arith, large, list_names_fits size 0 xs p),
    omega (arith, list_names_within size 0 xs p (omega arith)),
  )
]
