-- ===== src/Paths.antt =====
-- Byte positions in paths, as `std::string` finds them, and `std::to_string`.
use h_flat.Base.{
  ℕ, zero, suc, ◌+◌, ◌/◌, ◌%◌, ◌<◌, ◌≡◌, Bool, [], ◌∷◌, Option, none, some, Str, eqb, ltb,
  if◌then◌else◌, length, drop, arith, ◌||◌, Option-cases, inl, inr, ◌⊎◌, refl, ◌++◌,
}

abbrev pub slash : ℕ
slash = b'/'

abbrev pub colon : ℕ
colon = b':'

abbrev pub shifted : ℕ → Option ℕ → Option ℕ
shifted n none = none
shifted n (some i) = some (i + n)

-- `s.find_first_of(c)`; `none` stands for `npos`.
unfoldable pub find_first : ℕ → Str → Option ℕ
find_first c [] = none
find_first c (x ∷ s) = if eqb x c then some 0 else shifted 1 (find_first c s)

-- What stands in front of the first zero byte, which is what code that gets a `char *` reads.
unfoldable pub c_string : Str → Str
c_string [] = []
c_string (c ∷ s) = let rest = c_string s in if eqb c 0 then [] else c ∷ rest

-- `s.find_first_of(c, from)`.
unfoldable pub find_first_from : ℕ → ℕ → Str → Option ℕ
unfolding find_first
find_first_from c from s = shifted from (find_first c (drop from s))

-- `s.find_last_of(cs)` for a test of the characters.
unfoldable pub find_last : (ℕ → Bool) → Str → Option ℕ
find_last p [] = none
find_last p (x ∷ s) = elim (find_last p s) [
  | some i ↦ some (i + 1)
  | none ↦ if p x then some 0 else none
]

abbrev pub is_slash : ℕ → Bool
is_slash c = eqb c slash

abbrev pub is_separator : ℕ → Bool
is_separator c = eqb c slash || eqb c colon

-- The decimal digits of a number, least first; a number has fewer digits than its successor counts.
digits_from : ℕ → ℕ → Str
digits_from zero n = []
digits_from (suc fuel) n =
    let rest = digits_from fuel (n / 10) in
    if ltb n 10 then (b'0' + n) ∷ [] else (b'0' + n % 10) ∷ rest

unfoldable pub reverse_onto : Str → Str → Str
reverse_onto [] acc = acc
reverse_onto (c ∷ s) acc = reverse_onto s (c ∷ acc)

-- `std::to_string`.
unfoldable pub to_string : ℕ → Str
unfolding digits_from reverse_onto
to_string n = reverse_onto (digits_from (suc n) n) []

pub find_last-lt : (p : ℕ → Bool) (s : Str) (i : ℕ) → find_last p s ≡ some i → i < length s
unfolding find_last
find_last-lt p [] i h = absurd (ground arith)
find_last-lt p (x ∷ s) i h = elim (Option-cases (find_last p s)) [
  | inl none_after ↦ ground (arith, none_after)
  | inr (j, after) ↦ ground (arith, after, find_last-lt p s j after)
]

pub find_first-append_none :
    (c : ℕ) (xs ys : Str)
    → find_first c xs ≡ none
    → find_first c ys ≡ none
    → find_first c (xs ++ ys) ≡ none
unfolding find_first
find_first-append_none c [] ys h k = k
find_first-append_none c (x ∷ xs) ys h k =
    ground (arith, find_first-append_none c xs ys (ground arith) k)

pub find_first-append :
    (c : ℕ) (xs ys : Str)
    → find_first c xs ≡ none
    → find_first c (xs ++ (c ∷ ys)) ≡ some (length xs)
unfolding find_first
find_first-append c [] ys h = ground arith
find_first-append c (x ∷ xs) ys h = ground (arith, find_first-append c xs ys (ground arith))

-- The digits of a number are none of the bytes below or above them.
digits_from_plain :
    (c fuel n : ℕ) → (c < b'0') ⊎ (b'9' < c) → find_first c (digits_from fuel n) ≡ none
unfolding digits_from find_first
digits_from_plain c zero n other = refl
digits_from_plain c (suc fuel) n other = ground (arith, digits_from_plain c fuel (n / 10) other)

reverse_onto_plain :
    (c : ℕ) (s acc : Str)
    → find_first c s ≡ none
    → find_first c acc ≡ none
    → find_first c (reverse_onto s acc) ≡ none
unfolding reverse_onto find_first
reverse_onto_plain c [] acc h k = k
reverse_onto_plain c (d ∷ s) acc h k =
    reverse_onto_plain c s (d ∷ acc) (ground arith) (ground (arith, h))

pub find_first-to_string : (c n : ℕ) → (c < b'0') ⊎ (b'9' < c) → find_first c (to_string n) ≡ none
unfolding to_string find_first
find_first-to_string c n other =
    reverse_onto_plain c (digits_from (suc n) n) [] (digits_from_plain c (suc n) n other) refl
