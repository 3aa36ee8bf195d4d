-- ===== src/Ops/Readdir.antt =====
-- `hflat_readdir` of src/fuseops/directory.cc: its loop over pages of keys.
use h_flat.Base.{
  ℕ, zero, suc, ◌+◌, ◌*◌, ◌<◌, ◌≤◌, ◌≡◌, refl, sym, ap, some, ◌∙◌, List, [], ◌∷◌, ◌++◌, Str, str,
  eqb, eqb_iff, length, length-take, length-drop, take, drop, take-append-drop, map, reverse, arith,
  Bool-cases, inl, inr,
}
use mathlib.Core.List.{reverse-append}
use h_flat.Paths.{to_string, c_string}
use h_flat.World.State.{System, World, MetadataInfo, load_md, done}
use h_flat.World.Lookup.{lookup}
use h_flat.Metadata.Defs.{Metadata, check_access}
use h_flat.Ops.Create.{direntry_key}
use h_flat.Ops.Stat.{filled_name, back_or, read_names, hflat_readdir}
use h_flat.Ops.Keys.{name_of_key-direntry_key}

back_or-append :
    (start : Str) (xs ys : List Str) → back_or (back_or start xs) ys ≡ back_or start (xs ++ ys)
back_or-append start xs ys =
    rest (reverse ys) ∙ ap (λ zs. elim zs [ [] ↦ start | k ∷ ks ↦ k ]) (sym (reverse-append xs ys))
  where
    rest :
        (zs : List Str)
        → elim zs [ [] ↦ back_or start xs | k ∷ ks ↦ k ]
          ≡ elim (zs ++ reverse xs) [ [] ↦ start | k ∷ ks ↦ k ]
    rest [] = refl
    rest (z ∷ zs) = refl

drop-drop : (n m : ℕ) (xs : List Str) → drop m (drop n xs) ≡ drop (n + m) xs
drop-drop zero m xs = ap (λ k. drop k xs) (omega arith)
drop-drop (suc n) zero [] =
    let next : suc n ≡ suc n + zero = omega arith in ap (λ k. drop k []) next
drop-drop (suc n) (suc m) [] =
    let next : suc (n + suc m) ≡ suc n + suc m = omega arith in ap (λ k. drop k []) next
drop-drop (suc n) m (x ∷ xs) =
    let next : suc (n + m) ≡ suc n + m = omega arith in
    drop-drop n m xs ∙ ap (λ k. drop k (x ∷ xs)) next

take-drop : (n m : ℕ) (xs : List Str) → take n xs ++ take m (drop n xs) ≡ take (n + m) xs
take-drop zero m xs = ap (λ k. take k xs) (omega arith)
take-drop (suc n) zero [] =
    let next : suc n ≡ suc n + zero = omega arith in ap (λ k. take k []) next
take-drop (suc n) (suc m) [] =
    let next : suc (n + suc m) ≡ suc n + suc m = omega arith in ap (λ k. take k []) next
take-drop (suc n) m (x ∷ xs) =
    let next : suc (n + m) ≡ suc n + m = omega arith in
    ap (◌∷◌ x) (take-drop n m xs) ∙ ap (λ k. take k (x ∷ xs)) next

map-append : (f : Str → Str) (xs ys : List Str) → map f (xs ++ ys) ≡ map f xs ++ map f ys
map-append f [] ys = refl
map-append f (x ∷ xs) ys = ap (◌∷◌ (f x)) (map-append f xs ys)

map-pages :
    (f : Str → Str) (n m : ℕ) (xs : List Str)
    → map f (take m (drop n xs)) ++ map f (drop (n + m) xs) ≡ map f (drop n xs)
map-pages f n m xs =
    ap (λ zs. map f (take m (drop n xs)) ++ map f zs) (sym (drop-drop n m xs))
    ∙ sym (map-append f (take m (drop n xs)) (drop m (drop n xs)))
    ∙ ap (map f) (take-append-drop m (drop n xs))

take_short : (n : ℕ) (xs : List Str) → length xs ≤ n → take n xs ≡ xs
take_short zero [] h = refl
take_short zero (x ∷ xs) h = absurd (omega (arith, h))
take_short (suc n) [] h = refl
take_short (suc n) (x ∷ xs) h = ap (◌∷◌ x) (take_short n xs (omega (arith, h)))

-- A namespace that lists the same keys between two ends as long as it is only asked for keys: a request
-- from the last one of the first n of them is answered with the next 100, or with those there are.
pub record Listing {S : Type 0} (sys : System S) (start end : Str) : Type 0 where
  pub keys : S → List Str
  pub page :
      (s : S) (n : ℕ)
      → (sys.get_key_range (back_or start (take n (keys s))) end 100 s).0
        ≡ take 100 (drop n (keys s))
  pub keeps : (s : S) (from : Str) → keys (sys.get_key_range from end 100 s).1 ≡ keys s

module _ {S : Type 0} (sys : System S) (start end : Str) (listing : Listing sys start end) where
  read_on :
      (fuel n : ℕ) (keys : List Str) (w : World S)
      → listing.keys w.env ≡ keys
      → n ≤ length keys
      → length keys < n + 100 * fuel
      → (w' : World S) × (read_names sys fuel (back_or start (take n keys)) end w
          ≡ done (map filled_name (drop n keys), w'))
        × (listing.keys w'.env ≡ keys)
  unfolding read_names
  read_on zero n keys w same low enough = absurd (omega (arith, low, enough))
  read_on (suc fuel) n keys w same low enough =
      let from = back_or start (take n keys) in
      let s = (sys.get_key_range from end 100 w.env).1 in
      let w₁ = record w { env = s } in
      let page : (sys.get_key_range from end 100 w.env).0 ≡ take 100 (drop n keys) =
        rw (sym same) (listing.page w.env n) in
      let still : listing.keys s ≡ keys = listing.keeps w.env from ∙ same in
      let sizes = length-take 100 (drop n keys) in
      let left = length-drop n keys in
      let further : back_or from (take 100 (drop n keys)) ≡ back_or start (take (n + 100) keys) =
        back_or-append start (take n keys) (take 100 (drop n keys))
        ∙ ap (back_or start) (take-drop n 100 keys) in
      elim (Bool-cases (eqb (length (take 100 (drop n keys))) 100)) [
        | inl full ↦
            let size = eqb_iff (length (take 100 (drop n keys))) 100 in
            let (w', ran, kept) =
              read_on fuel (n + 100) keys w₁ still (ground (arith, full, size, sizes, left, low))
                (omega (arith, enough)) in
            (w', ground (arith, page, full, further, ran, map-pages filled_name n 100 keys), kept)
        | inr short ↦ (
          w₁,
          rw (page, short)
              (ap (λ x. done (map filled_name x, w₁))
                (take_short 100 (drop n keys) (
                  ground (
                    arith,
                    eqb_iff (length (take 100 (drop n keys))) 100,
                    short,
                    sizes,
                    left,
                    enough,
                  )))),
          still,
        )
      ]

filled_names :
    {S : Type 0} (sys : System S) (inode_number : ℕ) (names : List Str)
    → map filled_name (map (direntry_key sys inode_number) names) ≡ map c_string names
unfolding filled_name
filled_names sys inode_number [] = refl
filled_names sys inode_number (name ∷ names) =
    ap (λ k. c_string k ∷ map filled_name (map (direntry_key sys inode_number) names))
      (name_of_key-direntry_key sys inode_number name)
    ∙ ap (◌∷◌ (c_string name)) (filled_names sys inode_number names)

length-map : (f : Str → Str) (xs : List Str) → length (map f xs) ≡ length xs
length-map f [] = refl
length-map f (x ∷ xs) = ap suc (length-map f xs)

abbrev pub first_key : Metadata → Str
first_key md = to_string md.inode_number ++ str "|"

abbrev pub last_key : Metadata → Str
last_key md = first_key md ++ (251 ∷ [])

-- A directory that `lookup` finds, whose metadata is there and that the caller may read is listed
-- completely and in the order of the namespace, with enough fuel for its pages: the call hands out every
-- name that an entry between the two ends of the listing was created under, cut at its first zero byte
-- if it has one. The namespace answers as `Listing` says; an entry whose name starts with a byte of 251
-- or more does not lie between the two ends.
pub hflat_readdir_lem :
    {S : Type 0} (sys : System S) (fuel r : ℕ) (user_path : Str) (mdi : MetadataInfo)
    (names : List Str) (w w₁ : World S) (listing : Listing sys (first_key mdi.md) (last_key mdi.md))
    → lookup sys fuel user_path w ≡ done ((0, some r), w₁)
    → load_md r w₁ ≡ done (mdi, w₁)
    → check_access sys.context mdi.md 4 ≡ 0
    → listing.keys w₁.env ≡ map (direntry_key sys mdi.md.inode_number) names
    → length names < 100 * fuel
    → (w' : World S) × (hflat_readdir sys fuel user_path w ≡ done ((0, map c_string names), w'))
unfolding hflat_readdir
hflat_readdir_lem sys fuel r user_path mdi names w w₁ listing found loaded readable held enough =
    let keys = map (direntry_key sys mdi.md.inode_number) names in
    let (w', ran, _) =
      read_on sys (first_key mdi.md) (last_key mdi.md) listing fuel 0 keys w₁ held (omega arith)
        (omega (arith, length-map (direntry_key sys mdi.md.inode_number) names, enough)) in
    (w', ground (arith, found, loaded, readable, ran, filled_names sys mdi.md.inode_number names))
