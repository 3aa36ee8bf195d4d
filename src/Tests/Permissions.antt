-- ===== src/Tests/Permissions.antt =====
-- Directories with and without search bits, and the users 1 and 2 of the groups 1 and 2.
use h_flat.Base.{ℕ, ◌≡◌, refl, false, [], ◌∷◌, ok, fault, undefined, arith}
use h_flat.Metadata.Defs.{
  Metadata, User, ReachabilityEntry, ReachabilityType, introduced, has_bits, erase_duplicates,
  contains, compute_path_permission_children, check_path_permissions, eacces,
}
use h_flat.Metadata.Reachability.{
  may_search, search_user, search_group, search_other, check_path_permissions-stranger,
  check_path_permissions-erase_duplicates, compute_path_permission_children_nested,
}
use h_flat.World.State.{no_metadata}

-- A directory of user 1 and group 1 with a mode.
abbrev directory : ℕ → Metadata
directory mode = record no_metadata { uid = 1; gid = 1; mode = mode }

-- A private directory.
abbrev private : Metadata
private = directory 0o40700

abbrev closed : Metadata
closed = directory 0o40600

abbrev other_user : User
other_user = record { uid = 2; gid = 2 }

abbrev owner_only : ReachabilityEntry
owner_only = record { type = ReachabilityType.for_uid; gid = 0; uid = 1 }

denied : check_path_permissions other_user (introduced private) ≡ eacces
unfolding check_path_permissions introduced
denied = refl

check_path_permissions-stranger_example :
    (check_path_permissions other_user (introduced closed) ≡ 0)
    × (may_search (search_user closed) (search_group closed) (search_other closed) 1 1 other_user
        ≡ false)
unfolding has_bits
check_path_permissions-stranger_example =
    check_path_permissions-stranger closed other_user refl refl refl (ground arith) (ground arith)

abbrev group_only : ReachabilityEntry
group_only = record { type = ReachabilityType.for_gid; gid = 1; uid = 0 }

-- The entry that the parent enforces goes, with another one left behind it.
left_out : erase_duplicates (owner_only ∷ []) (owner_only ∷ group_only ∷ []) ≡ ok (group_only ∷ [])
unfolding erase_duplicates
left_out = refl

check_path_permissions-erase_duplicates_example :
    check_path_permissions other_user (owner_only ∷ group_only ∷ [])
    ≡ check_path_permissions other_user (owner_only ∷ owner_only ∷ group_only ∷ [])
check_path_permissions-erase_duplicates_example =
    check_path_permissions-erase_duplicates other_user (owner_only ∷ [])
      (owner_only ∷ group_only ∷ []) (group_only ∷ []) left_out

abbrev nested : Metadata
nested = record private {
  path_permission = record { type = ReachabilityType.for_uid; gid = 1; uid = 1 } ∷ [];
}

compute_path_permission_children_nested_example :
    compute_path_permission_children nested ≡ fault undefined
unfolding introduced contains
compute_path_permission_children_nested_example =
    compute_path_permission_children_nested nested
      (record { type = ReachabilityType.for_uid; gid = 1; uid = 1 }) refl refl
