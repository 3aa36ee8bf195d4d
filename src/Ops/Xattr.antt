-- ===== src/Ops/Xattr.antt =====
-- src/fuseops/xattr.cc: extended attributes, stored with the metadata.
use h_flat.Base.{
  ℕ, zero, suc, ◌+◌, Bool, not, List, [], ◌∷◌, ◌++◌, Option, none, some, Str, str, str_eq, ◌==◌,
  eqb, ltb, if◌then◌else◌, length, get_elem?, set,
}
use h_flat.World.State.{System, M, ◌>>=◌, ◌>>◌, pure, no_fuel, load_md, unless_err, deref}
use h_flat.World.Helper.{eagain, eexist, put_metadata}
use h_flat.World.Lookup.{lookup}
use h_flat.Ops.Sync.{looked_up, change_md}

abbrev pub enoattr : ℕ
enoattr = 61

abbrev pub erange : ℕ
erange = 34

abbrev pub ehostdown : ℕ
ehostdown = 112

-- The search for the first attribute of a name: its position.
unfoldable pub find_xattr : Str → List (Str × Str) → Option ℕ
find_xattr name [] = none
find_xattr name ((n, v) ∷ xs) =
    if n == name then some 0 else elim (find_xattr name xs) [ none ↦ none | some i ↦ some (i + 1) ]

-- The first attribute of the name with the new value, or the value added at the end.
unfoldable pub set_xattr : Str → Str → List (Str × Str) → List (Str × Str)
unfolding find_xattr
set_xattr name value xs = elim (find_xattr name xs) [
  | none ↦ xs ++ ((name, value) ∷ [])
  | some i ↦ set xs i (name, value)
]

unfoldable pub remove_at : ℕ → List (Str × Str) → List (Str × Str)
remove_at i [] = []
remove_at zero (x ∷ xs) = xs
remove_at (suc i) (x ∷ xs) = x ∷ remove_at i xs

-- `XATTR_CREATE` and `XATTR_REPLACE` among the flags.
pub record XattrFlags : Type 0 where
  pub create : Bool
  pub replace : Bool

unfoldable pub xattr_refusal : XattrFlags → Option ℕ → ℕ
xattr_refusal flags none = if flags.replace then enoattr else 0
xattr_refusal flags (some i) = if flags.create then eexist else 0

-- The C result of `hflat_getxattr` on what it found: an error, or a size with the bytes copied.
unfoldable pub xattr_reply : ℕ → Option (Str × Str) → ℕ × ℕ × Str
xattr_reply size none = (enoattr, 0, [])
xattr_reply size (some (n, v)) =
    if eqb size 0
    then (0, length v + 1, [])
    else if ltb size (length v)
    then (erange, 0, [])
    else (0, length v, v)

abbrev pub xattr_at : List (Str × Str) → Option ℕ → Option (Str × Str)
xattr_at xs none = none
xattr_at xs (some i) = get_elem? xs i

-- The loop of `hflat_listxattr`: an error, or the size of the names, with the names copied.
unfoldable pub list_names : ℕ → ℕ → List (Str × Str) → ℕ × ℕ × Str
list_names size bytesize [] = (0, bytesize, [])
list_names size bytesize ((n, v) ∷ xs) =
    let bytesize' = bytesize + (length n + 1) in
    let later = list_names size bytesize' xs in
    if eqb size 0
    then later
    else if ltb size bytesize'
    then (erange, 0, [])
    else (later.0, later.1, n ++ (0 ∷ later.2))

module _ {S : Type 0} (sys : System S) (fsck : Str → ℕ → M S ℕ) (self_check : M S Bool) where
  -- The directory check and the namespace's check, which two names start, are parameters.
  unfoldable pub hflat_setxattr : ℕ → Str → Str → Str → XattrFlags → M S ℕ
  unfolding looked_up load_md find_xattr xattr_refusal set_xattr change_md put_metadata
  hflat_setxattr zero user_path name value flags = λ w. no_fuel
  hflat_setxattr (suc fuel) user_path name value flags =
      let again = hflat_setxattr fuel user_path name value flags in
      looked_up sys fuel user_path λ r. do
        mdi ← load_md r
        if name == str "fsck"
            then fsck user_path r
            else if name == str "nsck"
            then (do healthy ← self_check; if healthy then pure 0 else pure ehostdown)
            else unless_err (xattr_refusal flags (find_xattr name mdi.md.xattr)) (do
              change_md sys r (λ md. record md { xattr = set_xattr name value md.xattr })
              err ← put_metadata sys r
              if eqb err eagain then again else pure err)

module _ {S : Type 0} (sys : System S) where
  unfoldable pub hflat_getxattr : ℕ → Str → Str → ℕ → M S (ℕ × ℕ × Str)
  unfolding lookup load_md find_xattr xattr_reply
  hflat_getxattr fuel user_path name size = do
    (err, found) ← lookup sys fuel user_path
    if not (eqb err 0) then pure (err, 0, []) else (do
      r ← deref found
      mdi ← load_md r
      pure (xattr_reply size (xattr_at mdi.md.xattr (find_xattr name mdi.md.xattr))))

  unfoldable pub hflat_removexattr : ℕ → Str → Str → M S ℕ
  unfolding looked_up load_md find_xattr remove_at change_md put_metadata
  hflat_removexattr zero user_path name = λ w. no_fuel
  hflat_removexattr (suc fuel) user_path name =
      let again = hflat_removexattr fuel user_path name in
      looked_up sys fuel user_path λ r. do
        mdi ← load_md r
        elim (find_xattr name mdi.md.xattr) [
          | none ↦ pure enoattr
          | some i ↦ do
            change_md sys r (λ md. record md { xattr = remove_at i md.xattr })
            err ← put_metadata sys r
            if eqb err eagain then again else pure err
        ]

  unfoldable pub hflat_listxattr : ℕ → Str → ℕ → M S (ℕ × ℕ × Str)
  unfolding lookup load_md list_names
  hflat_listxattr fuel user_path size = do
    (err, found) ← lookup sys fuel user_path
    if not (eqb err 0)
        then pure (err, 0, [])
        else (do r ← deref found; mdi ← load_md r; pure (list_names size 0 mdi.md.xattr))
