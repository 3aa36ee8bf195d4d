-- ===== src/PathChange.antt =====
-- src/iointercept/pathchange.cc: how the interception library rewrites a path below a mount point. A
-- position is an unsigned 64-bit number, and `npos` its greatest value. The system's table of mount
-- points, its working directory and the hash of a string are parameters.
pub mod Real
pub mod Mounts
pub mod RoundTrip
pub mod Calls
pub mod Linux
use h_flat.Base.{
  ℕ, zero, suc, ◌+◌, ◌-◌, ◌%◌, ◌^◌, Bool, true, false, not, ◌&&◌, ◌||◌, List, [], ◌∷◌, ◌++◌, Option,
  none, some, Str, str, str_eq, ◌==◌, eqb, ltb, leb, if◌then◌else◌, length, take, drop, map,
  get_elem?, Fault,
}
use h_flat.Paths.{find_first, find_first_from, find_last, is_slash, slash, colon, to_string}
use h_flat.World.State.{Run, done, dies, waiting, no_fuel}

infixl 5 ◌>>=◌
abbrev pub ◌>>=◌ : {A B : Type 0} → Run A → (A → Run B) → Run B
done a >>= f = f a
dies e >>= f = dies e
waiting >>= f = waiting
no_fuel >>= f = no_fuel

abbrev pub npos : ℕ
npos = 2 ^ 64 - 1

abbrev pub or_npos : Option ℕ → ℕ
or_npos none = npos
or_npos (some i) = i

-- The difference of two positions, which wraps around.
abbrev pub minus : ℕ → ℕ → ℕ
minus a b = (a + 2 ^ 64 - b) % 2 ^ 64

-- `path[i]`: the byte behind the last one is 0, and there is none after that.
unfoldable pub char_at : Str → ℕ → Run ℕ
char_at path i = elim (get_elem? path i) [
  | some c ↦ done c
  | none ↦ if eqb i (length path) then done 0 else dies Fault.undefined
]

-- `path.erase(i, count)`.
unfoldable pub erase_at : ℕ → ℕ → Str → Run Str
erase_at i count path =
    if ltb (length path) i
    then dies Fault.out_of_range
    else done (take i path ++ drop (i + count) path)

-- How many bytes in front are slashes.
unfoldable pub leading_slashes : Str → Option ℕ
leading_slashes [] = none
leading_slashes (c ∷ s) = elim (leading_slashes s) [
  | none ↦ if eqb c slash then none else some 0
  | some n ↦ if eqb c slash then some (n + 1) else some 0
]

-- `path.find_first_not_of('/', i)`.
unfoldable pub not_slash_from : ℕ → Str → ℕ
unfolding leading_slashes
not_slash_from i path = elim (leading_slashes (drop i path)) [ none ↦ npos | some n ↦ n + i ]

-- `path.find_last_of('/', i - 1)`, which looks at the whole path if `i` is 0.
unfoldable pub slash_before : ℕ → Str → ℕ
unfolding find_last
slash_before i path = or_npos (find_last is_slash (if eqb i 0 then path else take i path))

-- A pass through the loop of `_realpath`: the next position and path.
unfoldable pub real_step : ℕ → Str → Run (Option ℕ × Str)
unfolding char_at erase_at not_slash_from slash_before find_first_from
real_step i path = do
  c ← char_at path (i + 1)
  path' ←
      if eqb c slash then erase_at i (minus (minus (not_slash_from i path) i) 1) path else done path
  d ← char_at path' (i + 1)
  if not (eqb d b'.')
      then done (find_first_from slash (i + 1) path', path')
      else if leb (length path') (i + 2)
      then (do short ← erase_at i 2 path'; done (some i, short))
      else (do
        e ← char_at path' (i + 2)
        if eqb e slash
            then (do short ← erase_at i 2 path'; done (some i, short))
            else if eqb e b'.'
            then (do
              let before = slash_before i path'
              up ← erase_at ((before + 1) % 2 ^ 64) ((minus i before + 2) % 2 ^ 64) path'
              done (some i, up))
            else done (find_first_from slash (i + 1) path', path'))

-- The loop, from a position on.
unfoldable pub real_from : ℕ → Option ℕ → Str → Run Str
unfolding real_step
real_from zero i path = no_fuel
real_from (suc fuel) none path = done path
real_from (suc fuel) (some i) path =
    let next = λ (t : Option ℕ × Str). real_from fuel t.0 t.1 in
    if ltb i (minus (length path) 1) then real_step i path >>= next else done path

unfoldable pub starts_with_slash : Str → Bool
starts_with_slash [] = false
starts_with_slash (c ∷ s) = eqb c slash

-- `_realpath`.
unfoldable pub real_path : ℕ → Str → Str → Run Str
unfolding real_from starts_with_slash find_first
real_path fuel cwd path =
    let absolute = if starts_with_slash path then path else cwd ++ (slash ∷ path) in
    real_from fuel (find_first slash absolute) absolute

-- The loop that replaces the slashes from a position on.
unfoldable pub colons_from : ℕ → Str → Str
colons_from i path = take i path ++ map (λ c. if eqb c slash then colon else c) (drop i path)

-- A path without the copies of a byte at its end.
unfoldable pub without_trailing : ℕ → Str → Str
without_trailing c [] = []
without_trailing c (d ∷ s) = elim (without_trailing c s) [
  | [] ↦ if eqb d c then [] else d ∷ []
  | e ∷ t ↦ d ∷ e ∷ t
]

-- The virtual directory that a path is put in.
unfoldable pub virtual_directory : (Str → ℕ) → Str → Str
unfolding to_string
virtual_directory hash path = (colon ∷ to_string (hash path % 100)) ++ (colon ∷ slash ∷ [])

-- The removal of a virtual directory that the working directory brought in.
unfoldable pub without_virtual : ℕ → Str → Run Str
unfolding find_first find_first_from erase_at
without_virtual i path = elim (find_first colon path) [
  | none ↦ done path
  | some clean ↦
      erase_at clean ((minus (or_npos (find_first_from slash i path)) clean + 1) % 2 ^ 64) path
]

-- `_substitute`. Only the slash of the virtual directory keeps the last loop inside of the path.
unfoldable pub substitute : (Str → ℕ) → ℕ → Str → Run Str
unfolding without_virtual virtual_directory colons_from without_trailing
substitute hash i path = do
  let path₁ = if ltb (length path) i then path ++ (slash ∷ []) else path
  path₂ ← without_virtual i path₁
  if ltb (length path₂) i
      then dies Fault.out_of_range
      else (let vdir = virtual_directory hash path₂ in
          let path₃ = take i path₂ ++ (vdir ++ drop i path₂) in
          done (without_trailing colon (colons_from (i + length vdir) path₃)))

-- The loop of `change` over the mount points.
unfoldable pub below_mounts : (Str → ℕ) → List Str → Str → Run Str
unfolding substitute
below_mounts hash [] path = done path
below_mounts hash (mnt ∷ mounts) path =
    let next = below_mounts hash mounts in
    if take (length mnt) path == mnt
    then substitute hash (length mnt + 1) path >>= next
    else next path

unfoldable pub change : ℕ → (Str → ℕ) → Str → List Str → Str → Run Str
unfolding real_path below_mounts
change fuel hash cwd mounts path = real_path fuel cwd path >>= below_mounts hash mounts

-- The directories of the entries of the system's table, a name and a directory each, whose name starts
-- with "hflat".
unfoldable pub hflat_mounts : List (Str × Str) → List Str
hflat_mounts [] = []
hflat_mounts ((fsname, dir) ∷ entries) =
    let rest = hflat_mounts entries in
    if take (length (str "hflat")) fsname == str "hflat" then dir ∷ rest else rest

-- `getMountPoints` on Linux: a list that is not empty is kept, and the table is not read again; it has
-- no entries if it cannot be opened.
unfoldable pub get_mount_points : List Str → List (Str × Str) → List Str
unfolding hflat_mounts
get_mount_points [] entries = hflat_mounts entries
get_mount_points (mnt ∷ mounts) entries = mnt ∷ mounts

-- A call of the library: the path, and the mount points that the next call finds.
unfoldable pub change_call :
    ℕ → (Str → ℕ) → Str → List (Str × Str) → List Str → Str → Run (Str × List Str)
unfolding change get_mount_points
change_call fuel hash cwd entries kept path =
    let mounts = get_mount_points kept entries in
    change fuel hash cwd mounts path >>= λ p. done (p, mounts)
