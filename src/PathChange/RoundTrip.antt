-- ===== src/PathChange/RoundTrip.antt =====
-- What `iointercept` of the path map recovers of a path that the interception library rewrote.
use h_flat.Base.{
  ℕ, ◌+◌, ◌%◌, ◌<◌, ◌≡◌, str_eq, eq_refl, refl, sym, ap, ◌∙◌, true, false, List, [], ◌∷◌, ◌++◌,
  none, Str, All, All-imp, eqb, ltb, if◌then◌else◌, length, take, drop, map, arith, inl, inr, ◌⊎◌,
  append_assoc, length-append, take-length, drop_past, drop-length,
}
use h_flat.Paths.{
  find_first, find_first_from, find_first-append, find_first-append_none, find_first-to_string,
  slash, colon, to_string,
}
use h_flat.PathMap.Defs.{iointercept, slashes_back, erase_virtual}
use h_flat.World.State.{done}
use h_flat.PathChange.{
  without_trailing, virtual_directory, without_virtual, colons_from, substitute, change,
  below_mounts, starts_with_slash,
}
use h_flat.PathChange.Mounts.{
  IsElsewhere, below_mounts_elsewhere, below_mounts_skip, IsElsewhere-colon,
}
use h_flat.PathChange.Real.{is_clean, real_path_clean}

abbrev colons : Str → Str
colons = map (λ c. if eqb c slash then colon else c)

List-cases {ℓ} : {A : Type ℓ} (xs : List A) → (xs ≡ []) ⊎ ((x : A) × (ys : List A) × (xs ≡ x ∷ ys))
List-cases [] = inl refl
List-cases (x ∷ xs) = inr (x, xs, refl)

without_trailing-append :
    (c : ℕ) (xs : Str) (d : ℕ) (ys : Str)
    → eqb d c ≡ false
    → without_trailing c (xs ++ (d ∷ ys)) ≡ xs ++ (d ∷ without_trailing c ys)
unfolding without_trailing
without_trailing-append c [] d ys h = elim (List-cases (without_trailing c ys)) [
  | inl all ↦ ground (arith, all)
  | inr (e, t, more) ↦ ground (arith, more)
]
without_trailing-append c (x ∷ xs) d ys h = elim (List-cases xs) [
  | inl last ↦ ground (arith, last, without_trailing-append c xs d ys h)
  | inr (e, t, more) ↦ ground (arith, more, without_trailing-append c xs d ys h)
]

slashes_back-without_trailing :
    (rest : Str)
    → find_first colon rest ≡ none
    → slashes_back (without_trailing colon (colons rest)) ≡ without_trailing slash rest
unfolding slashes_back without_trailing find_first
slashes_back-without_trailing [] h = refl
slashes_back-without_trailing (c ∷ s) h = elim (List-cases (without_trailing colon (colons s))) [
  | inl all ↦ ground (arith, all, slashes_back-without_trailing s (ground arith))
  | inr (e, t, more) ↦ ground (arith, more, slashes_back-without_trailing s (ground arith))
]

-- A path below the virtual directory is found again without it.
iointercept_virtual :
    (ys s : Str)
    → find_first slash ys ≡ none
    → iointercept (slash ∷ (colon ∷ ys) ++ (slash ∷ s)) ≡ slash ∷ slashes_back s
unfolding iointercept find_first find_first_from erase_virtual slashes_back
iointercept_virtual ys s plain =
    let at = find_first-append slash (colon ∷ ys) s (ground (arith, plain)) in
    ground (arith, at, drop_past (colon ∷ ys) slash s)

find_first_one : (c d : ℕ) → eqb d c ≡ false → find_first c (d ∷ []) ≡ none
unfolding find_first
find_first_one c d h = ground arith

find_first_after :
    (c : ℕ) (xs : Str) (d : ℕ) (ys : Str)
    → find_first c (xs ++ (d ∷ ys)) ≡ none
    → find_first c ys ≡ none
unfolding find_first
find_first_after c [] d ys h = ground arith
find_first_after c (x ∷ xs) d ys h = find_first_after c xs d ys (ground arith)

colons_from-append :
    (n : ℕ) (xs rest : Str) → n ≡ length xs → colons_from n (xs ++ rest) ≡ xs ++ colons rest
unfolding colons_from
colons_from-append n xs rest h = rw (h, take-length xs rest, drop-length xs rest) refl

spliced :
    (before v rest : Str)
    → without_trailing colon (
        colons_from
          (length before + length (v ++ (slash ∷ [])))
          (before ++ ((v ++ (slash ∷ [])) ++ rest)))
      ≡ before ++ (v ++ (slash ∷ without_trailing colon (colons rest)))
spliced before v rest =
    let n = length before + length (v ++ (slash ∷ [])) in
    let regroup : before ++ ((v ++ (slash ∷ [])) ++ rest)
        ≡ (before ++ (v ++ (slash ∷ []))) ++ rest =
      sym (append_assoc before (v ++ (slash ∷ [])) rest) in
    let split : (s : Str) → (before ++ (v ++ (slash ∷ []))) ++ s ≡ (before ++ v) ++ (slash ∷ s) =
      λ s. simp append_assoc in
    rw
      (
        regroup,
        colons_from-append n (before ++ (v ++ (slash ∷ []))) rest
            (sym (length-append before (v ++ (slash ∷ [])))),
        split (colons rest),
        without_trailing-append colon (before ++ v) slash (colons rest) refl,
      )
      (append_assoc before v (slash ∷ without_trailing colon (colons rest)))

not_longer : (xs ys : Str) → ltb (length (xs ++ ys)) (length xs) ≡ false
not_longer xs ys = ground (arith, length-append xs ys)

without_virtual_plain :
    (i : ℕ) (path : Str) → find_first colon path ≡ none → without_virtual i path ≡ done path
unfolding without_virtual
without_virtual_plain i path plain = ground (arith, plain)

substitute_plain :
    (hash : Str → ℕ) (before rest v : Str)
    → find_first colon (before ++ rest) ≡ none
    → virtual_directory hash (before ++ rest) ≡ v ++ (slash ∷ [])
    → substitute hash (length before) (before ++ rest)
      ≡ done (before ++ (v ++ (slash ∷ without_trailing colon (colons rest))))
unfolding substitute
substitute_plain hash before rest v plain vdir =
    let path = before ++ rest in
    let n = length before in
    let place = λ (dir : Str).
      without_trailing colon (colons_from (n + length dir) (take n path ++ (dir ++ drop n path))) in
    let ran : substitute hash n path ≡ done (place (virtual_directory hash path)) =
      rw (not_longer before rest, without_virtual_plain n path plain, not_longer before rest)
        refl in
    let placed : place (v ++ (slash ∷ []))
        ≡ before ++ (v ++ (slash ∷ without_trailing colon (colons rest))) =
      rw (take-length before rest, drop-length before rest) (spliced before v rest) in
    ran ∙ ap (λ dir. done (place dir)) vdir ∙ ap done placed

virtual_directory_lem :
    (hash : Str → ℕ) (path : Str)
    → (ys : Str) × (virtual_directory hash path ≡ (colon ∷ ys) ++ (slash ∷ []))
      × (find_first slash ys ≡ none)
unfolding virtual_directory
virtual_directory_lem hash path =
    let digits = to_string (hash path % 100) in
    (
      digits ++ (colon ∷ []),
      ap (◌∷◌ colon) (sym (append_assoc digits (colon ∷ []) (slash ∷ []))),
      find_first-append_none slash digits (colon ∷ [])
          (find_first-to_string slash (hash path % 100) (inl (omega arith)))
          (find_first_one slash colon refl),
    )

substitute-iointercept :
    (hash : Str → ℕ) (mnt rest : Str)
    → find_first colon (mnt ++ (slash ∷ rest)) ≡ none
    → (path : Str) × (substitute hash (length mnt + 1) (mnt ++ (slash ∷ rest)) ≡ done (mnt ++ path))
      × (iointercept path ≡ slash ∷ without_trailing slash rest)
      × ((tail : Str) × (mnt ++ path ≡ (mnt ++ (slash ∷ [])) ++ (colon ∷ tail)))
substitute-iointercept hash mnt rest plain =
    let before = mnt ++ (slash ∷ []) in
    let (ys, vdir, no_slash) = virtual_directory_lem hash (before ++ rest) in
    let whole : mnt ++ (slash ∷ rest) ≡ before ++ rest = sym (append_assoc mnt (slash ∷ []) rest) in
    let t = without_trailing colon (colons rest) in
    let ran = substitute_plain hash before rest (colon ∷ ys) (rw whole at plain) vdir in
    let here = append_assoc mnt (slash ∷ []) ((colon ∷ ys) ++ (slash ∷ t)) in
    (
      slash ∷ ((colon ∷ ys) ++ (slash ∷ t)),
      rw (sym (length-append mnt (slash ∷ [])), whole) (ran ∙ ap done here),
      iointercept_virtual ys t no_slash
          ∙ ap (◌∷◌ slash)
              (slashes_back-without_trailing rest (find_first_after colon mnt slash rest plain)),
      (ys ++ (slash ∷ t), sym here),
    )

still-IsElsewhere :
    (mnt rest path tail : Str)
    → mnt ++ path ≡ (mnt ++ (slash ∷ [])) ++ (colon ∷ tail)
    → (m : Str) → IsElsewhere m (mnt ++ (slash ∷ rest)) × (find_first colon m ≡ none)
    → IsElsewhere m (mnt ++ path)
still-IsElsewhere mnt rest path tail is m (other, plain) = rw is (
    IsElsewhere-colon m (mnt ++ (slash ∷ [])) rest tail plain
      (rw (append_assoc mnt (slash ∷ []) rest) other))

-- A clean path below a mount point, with no colon in it, is found again: the loop of `_realpath` ends,
-- with fuel for each byte, and what the changed path is below the mount point is a path of which
-- `iointercept` makes the one that was asked for, without the slashes at its end. Clean means
-- absolute, with no double slash and with no component that starts with a dot. The path starts with no
-- other mount point, with or without a separator behind it, and no mount point after this one has a
-- colon.
pub change-iointercept :
    (fuel : ℕ) (hash : Str → ℕ) (cwd mnt rest : Str) (before after : List Str)
    → find_first colon (mnt ++ (slash ∷ rest)) ≡ none
    → is_clean (mnt ++ (slash ∷ rest)) ≡ true
    → starts_with_slash (mnt ++ (slash ∷ rest)) ≡ true
    → length (mnt ++ (slash ∷ rest)) < fuel
    → All (λ m. IsElsewhere m (mnt ++ (slash ∷ rest))) before
    → All (λ m. IsElsewhere m (mnt ++ (slash ∷ rest)) × (find_first colon m ≡ none)) after
    → (path : Str) × (change fuel hash cwd (before ++ (mnt ∷ after)) (mnt ++ (slash ∷ rest))
        ≡ done (mnt ++ path))
      × (iointercept path ≡ slash ∷ without_trailing slash rest)
unfolding change below_mounts
change-iointercept fuel hash cwd mnt rest before after plain clean absolute enough apart apart' =
    let whole = mnt ++ (slash ∷ rest) in
    let (path, ran, back, (tail, is)) = substitute-iointercept hash mnt rest plain in
    let real = real_path_clean fuel cwd whole clean absolute enough in
    let skipped = below_mounts_skip hash before (mnt ∷ after) whole apart in
    let left : below_mounts hash after (mnt ++ path) ≡ done (mnt ++ path) =
      below_mounts_elsewhere hash after (mnt ++ path) (
        All-imp (λ m. IsElsewhere m whole × (find_first colon m ≡ none))
          (λ m. IsElsewhere m (mnt ++ path)) (still-IsElsewhere mnt rest path tail is) after
          apart') in
    (
      path,
      ground (arith, real, skipped, take-length mnt (slash ∷ rest), eq_refl mnt, ran, left),
      back,
    )
