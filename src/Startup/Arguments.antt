-- ===== src/Startup/Arguments.antt =====
-- `main` of src/main.cc: the argument that names the configuration file.
use h_flat.Base.{
  ◌≡◌, refl, Bool, true, false, List, [], ◌∷◌, ◌++◌, Str, str, str_eq, ◌==◌, eqb, if◌then◌else◌,
  take, drop, All, arith,
}
use h_flat.Paths.{slash}

-- `strncmp(argv[i],"-cfg=",5) == 0`.
unfoldable pub is_cfg : Str → Bool
is_cfg arg = take 5 arg == str "-cfg="

-- The loop over the arguments from `i` on, with the file's name so far. An argument that names the file
-- is taken out, so the next one moves to its place; the loop goes on behind that one.
unfoldable pub scan_arguments : Str → List Str → Str × List Str
unfolding is_cfg
scan_arguments filename [] = (filename, [])
scan_arguments filename (arg ∷ []) = if is_cfg arg then (drop 5 arg, []) else (filename, arg ∷ [])
scan_arguments filename (arg ∷ next ∷ args) = elim (is_cfg arg) [
  | true ↦ let (name, rest) = scan_arguments (drop 5 arg) args in (name, next ∷ rest)
  | false ↦ let (name, rest) = scan_arguments filename (next ∷ args) in (name, arg ∷ rest)
]

-- A relative name is made absolute, with the result of `getcwd`.
unfoldable pub absolute_name : Str → Str → Str
absolute_name cwd [] = []
absolute_name cwd (c ∷ name) = if eqb c slash then c ∷ name else cwd ++ (str "/" ++ (c ∷ name))

-- The name of the configuration file, and the arguments that are left for FUSE.
unfoldable pub main_arguments : Str → List Str → Str × List Str
unfolding scan_arguments absolute_name
main_arguments cwd argv =
    let (name, rest) = scan_arguments [] argv in (absolute_name cwd name, rest)

abbrev pub IsOther : Str → Type 0
IsOther arg = is_cfg arg ≡ false

scan_arguments-other :
    (filename : Str) (args : List Str)
    → All IsOther args
    → scan_arguments filename args ≡ (filename, args)
unfolding scan_arguments
scan_arguments-other filename [] others = refl
scan_arguments-other filename (arg ∷ []) (other, _) = ground (arith, other)
scan_arguments-other filename (arg ∷ next ∷ args) (other, others) =
    ground (arith, other, scan_arguments-other filename (next ∷ args) others)

scan_arguments-first :
    (filename cfg : Str) (after : List Str)
    → is_cfg cfg ≡ true
    → All IsOther after
    → scan_arguments filename (cfg ∷ after) ≡ (drop 5 cfg, after)
unfolding scan_arguments
scan_arguments-first filename cfg [] named others = ground (arith, named)
scan_arguments-first filename cfg (next ∷ after) named (other, others) =
    ground (arith, named, scan_arguments-other (drop 5 cfg) after others)

scan_arguments-before :
    (filename : Str) (before after : List Str) (cfg : Str)
    → All IsOther before
    → is_cfg cfg ≡ true
    → All IsOther after
    → scan_arguments filename (before ++ (cfg ∷ after)) ≡ (drop 5 cfg, before ++ after)
unfolding scan_arguments
scan_arguments-before filename [] after cfg others named others' =
    scan_arguments-first filename cfg after named others'
scan_arguments-before filename (arg ∷ []) after cfg (other, _) named others' =
    ground (arith, other, scan_arguments-first filename cfg after named others')
scan_arguments-before filename (arg ∷ next ∷ before) after cfg (other, others) named others' =
    ground
      (arith, other, scan_arguments-before filename (next ∷ before) after cfg others named others')

scan_arguments-pair :
    (filename : Str) (before after : List Str) (first second : Str)
    → All IsOther before
    → is_cfg first ≡ true
    → All IsOther after
    → scan_arguments filename (before ++ (first ∷ second ∷ after))
      ≡ (drop 5 first, before ++ (second ∷ after))
unfolding scan_arguments
scan_arguments-pair filename [] after first second others named others' =
    ground (arith, named, scan_arguments-other (drop 5 first) after others')
scan_arguments-pair filename (arg ∷ []) after first second (other, _) named others' =
    ground (arith, other, scan_arguments-pair filename [] after first second tt named others')
scan_arguments-pair filename (arg ∷ next ∷ before) after first second (other, others) named
      others' =
    ground (
      arith,
      other,
      scan_arguments-pair filename (next ∷ before) after first second others named others',
    )

-- Of two adjacent arguments the first of which names the file, in any place, the second is not looked at:
-- it is passed to FUSE, even if it names a file as well, and the file is the one of the first. None of
-- the other arguments names a file.
pub scan_arguments_adjacent :
    (cwd : Str) (before after : List Str) (first second : Str)
    → All IsOther before
    → is_cfg first ≡ true
    → All IsOther after
    → main_arguments cwd (before ++ (first ∷ second ∷ after))
      ≡ (absolute_name cwd (drop 5 first), before ++ (second ∷ after))
unfolding main_arguments
scan_arguments_adjacent cwd before after first second others named others' =
    rw (scan_arguments-pair [] before after first second others named others') refl

-- If exactly one argument names the configuration file, then its name, made absolute, is used, and FUSE
-- gets the other arguments in their order.
pub main_arguments_lem :
    (cwd : Str) (before after : List Str) (cfg : Str)
    → All IsOther before
    → is_cfg cfg ≡ true
    → All IsOther after
    → main_arguments cwd (before ++ (cfg ∷ after))
      ≡ (absolute_name cwd (drop 5 cfg), before ++ after)
unfolding main_arguments
main_arguments_lem cwd before after cfg others named others' =
    rw (scan_arguments-before [] before after cfg others named others') refl
