-- ===== src/Tools.antt =====
-- tools/tools.cc: the command that starts a check. The library and the system calls are the parameter
-- `Machine`; what is printed is a value of `Failed`.
use h_flat.Base.{
  ℕ, Bool, true, false, not, ◌||◌, List, [], ◌∷◌, Option, none, some, Str, str, str_eq, ◌==◌, eqb,
  if◌then◌else◌, take, length,
}

-- `stat` answers with the mode, if it succeeds; `setxattr` with its result.
pub record Machine (S : Type 0) : Type 0 where
  pub realpath : Str → Option Str
  pub mounts : List (Str × Str)
  pub uid : ℕ
  pub stat : Str → Option ℕ
  pub is_dir : ℕ → Bool
  pub setxattr_create : Str → Str → Str → S → ℕ × S

-- The reasons that `failure` is called with, which makes the exit status EXIT_FAILURE.
pub data Failed : Type 0 where
  invalid_arguments invalid_path not_in_mount not_root no_stat no_directory check_failed : Failed

pub data Exit : Type 0 where
  success : Exit
  failure : Failed → Exit

-- `compare(0, length(), s, length())` is 0: the second string starts with the first.
abbrev pub begins_with : Str → Str → Bool
begins_with prefix s = take (length prefix) s == prefix

unfoldable pub mount_points : List (Str × Str) → List Str
mount_points [] = []
mount_points ((fsname, dir) ∷ entries) =
    let rest = mount_points entries in if begins_with (str "hflat") fsname then dir ∷ rest else rest

unfoldable pub any_above : Str → List Str → Bool
any_above path [] = false
any_above path (mnt ∷ mnts) =
    let rest = any_above path mnts in if begins_with mnt path then true else rest

unfoldable pub is_hf_mount : List (Str × Str) → Str → Bool
unfolding mount_points any_above
is_hf_mount mounts path = any_above path (mount_points mounts)

module _ {S : Type 0} (machine : Machine S) where
  unfoldable pub fsck : Str → S → Exit × S
  fsck path s = elim (machine.stat path) [
    | none ↦ (failure no_stat, s)
    | some mode ↦ elim (machine.is_dir mode) [
      | false ↦ (failure no_directory, s)
      | true ↦
          let (err, s') = machine.setxattr_create path (str "fsck") (str "") s in
          (if eqb err 0 then success else failure check_failed, s')
    ]
  ]

  unfoldable pub nsck : Str → S → Exit × S
  nsck path s =
      let (err, s') = machine.setxattr_create path (str "nsck") (str "") s in
      (if eqb err 0 then success else failure check_failed, s')

  -- The two options; the arguments are those behind the program's name.
  unfoldable pub main : List Str → S → Exit × S
  unfolding is_hf_mount fsck nsck
  main (option ∷ argument ∷ []) s =
      let checked = λ (path : Str). if option == str "-fsck" then fsck path s else nsck path s in
      if option == str "-fsck" || option == str "-nsck"
      then elim (machine.realpath argument) [
        | none ↦ (failure invalid_path, s)
        | some path ↦
            if not (is_hf_mount machine.mounts path)
            then (failure not_in_mount, s)
            else if not (eqb machine.uid 0)
            then (failure not_root, s)
            else checked path
      ]
      else (failure invalid_arguments, s)
  main _ s = (failure invalid_arguments, s)
