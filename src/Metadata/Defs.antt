-- ===== src/Metadata/Defs.antt =====
-- `hflat::Metadata`, `MetadataInfo::computePathPermissionChildren`, `inherit_path_permissions`,
-- `check_path_permissions` and `check_access`. The unsigned fields are numbers; the setters that
-- take a wider value wrap it (`u32`). The calling user is the pair that `fuse_get_context` gives.
use Prim.Native.Nat.{bit_and}
use h_flat.Base.{
  ℕ, ◌/◌, ◌%◌, ◌^◌, Bool, true, false, not, ◌&&◌, ◌||◌, List, [], ◌∷◌, ◌++◌, Str, eqb, leb,
  if◌then◌else◌, length, Exec, ok, fault, assertion, undefined, ◌>>=◌, ◌>>◌, require,
}
use h_flat.Base.Int.{ℤ}

pub data InodeType : Type 0 where
  posix hardlink_t hardlink_s force_update : InodeType

pub data ReachabilityType : Type 0 where
  for_uid for_gid uid_or_gid not_uid not_gid gid_req_uid : ReachabilityType

pub record ReachabilityEntry : Type 0 where
  pub type : ReachabilityType
  pub gid : ℕ
  pub uid : ℕ

pub record Metadata : Type 0 where
  pub type : InodeType
  pub atime : ℕ
  pub mtime : ℕ
  pub ctime : ℕ
  pub uid : ℕ
  pub gid : ℕ
  pub mode : ℕ
  pub inode_number : ℕ
  pub link_count : ℕ
  pub size : ℕ
  pub blocks : ℕ
  pub xattr : List (Str × Str)
  pub path_permission_verified : ℤ
  pub path_permission : List ReachabilityEntry
  pub path_permission_children : List ReachabilityEntry

-- The user on whose behalf a call runs.
pub record User : Type 0 where
  pub uid : ℕ
  pub gid : ℕ

abbrev pub u32 : ℕ → ℕ
u32 n = n % 2 ^ 32

unfoldable pub update_acm_time : ℕ → Metadata → Metadata
update_acm_time now md = record md { atime = u32 now; mtime = u32 now; ctime = u32 now }

unfoldable pub update_ac_time : ℕ → Metadata → Metadata
update_ac_time now md = record md { atime = u32 now; ctime = u32 now }

-- `x & mask`, as a condition.
unfoldable pub has_bits : ℕ → ℕ → Bool
has_bits x mask = not (eqb (bit_and x mask) 0)

abbrev pub eacces : ℕ
eacces = 13

unfoldable pub is_dir : ℕ → Bool
is_dir mode = eqb (bit_and mode 0o170000) 0o040000

unfoldable pub type_code : ReachabilityType → ℕ
type_code for_uid = 0
type_code for_gid = 1
type_code uid_or_gid = 2
type_code not_uid = 3
type_code not_gid = 4
type_code gid_req_uid = 5

-- The lambda `equal`.
unfoldable pub equal : ReachabilityEntry → ReachabilityEntry → Bool
unfolding type_code
equal l r = eqb l.uid r.uid && eqb l.gid r.gid && eqb (type_code l.type) (type_code r.type)

abbrev pub entry_if : Bool → ReachabilityType → ℕ → ℕ → List ReachabilityEntry
entry_if test type uid gid = if test then record { type = type; gid = gid; uid = uid } ∷ [] else []

-- The entries that `computePathPermissionChildren` collects in `v`, from the execute bits of the
-- user, the group and the others.
unfoldable pub restrictions : Bool → Bool → Bool → ℕ → ℕ → List ReachabilityEntry
restrictions user group other uid gid =
    entry_if (not other && (user && group)) uid_or_gid uid gid
    ++ (entry_if (not other && (user && not group)) for_uid uid gid
        ++ (entry_if (not other && (not user && group)) for_gid uid gid
            ++ (entry_if (not user) not_uid uid gid
                ++ (entry_if (not group && not user) not_gid uid gid
                    ++ entry_if (not group && (user && other)) gid_req_uid uid gid))))

abbrev pub exec_user : ℕ
exec_user = 0o100

abbrev pub exec_group : ℕ
exec_group = 0o010

abbrev pub exec_other : ℕ
exec_other = 0o001

unfoldable pub introduced : Metadata → List ReachabilityEntry
unfolding restrictions has_bits
introduced md =
    restrictions (has_bits md.mode exec_user) (has_bits md.mode exec_group)
      (has_bits md.mode exec_other) md.uid md.gid

-- One run of the inner loop: `v.erase(it)` leaves `it` on the element behind the erased one, which
-- `it++` steps over. If the erased one was the last, `it++` passes the end of the vector.
unfoldable pub erase_equal :
    ReachabilityEntry → List ReachabilityEntry → Exec (List ReachabilityEntry)
unfolding equal
erase_equal p [] = ok []
erase_equal p (x ∷ []) = if equal p x then fault undefined else ok (x ∷ [])
erase_equal p (x ∷ y ∷ ys) =
    let skipped = erase_equal p ys >>= λ r. ok (y ∷ r) in
    let passed = erase_equal p (y ∷ ys) >>= λ r. ok (x ∷ r) in if equal p x then skipped else passed

unfoldable pub erase_duplicates :
    List ReachabilityEntry → List ReachabilityEntry → Exec (List ReachabilityEntry)
unfolding erase_equal
erase_duplicates [] v = ok v
erase_duplicates (p ∷ ps) v = erase_equal p v >>= erase_duplicates ps

unfoldable pub contains : ReachabilityEntry → List ReachabilityEntry → Bool
unfolding equal
contains e [] = false
contains e (x ∷ xs) = equal x e || contains e xs

unfoldable pub all_contained : List ReachabilityEntry → List ReachabilityEntry → Bool
unfolding contains
all_contained [] xs = true
all_contained (e ∷ es) xs = contains e xs && all_contained es xs

-- The end of the computation: the entries are stored if they are not the ones stored, as a set.
unfoldable pub store_children : List ReachabilityEntry → Metadata → Bool × Metadata
unfolding all_contained
store_children v md =
    if eqb (length md.path_permission_children) (length v)
      && all_contained v md.path_permission_children
    then (false, md)
    else (true, record md { path_permission_children = v })

-- The answer is `true` if the entries for the children changed.
unfoldable pub compute_path_permission_children : Metadata → Exec (Bool × Metadata)
unfolding introduced erase_duplicates store_children
compute_path_permission_children md = do
  require (leb (length (introduced md)) 2) assertion
  v ← erase_duplicates md.path_permission (introduced md)
  ok (store_children v md)

unfoldable pub inherit_path_permissions : Metadata → Metadata → Exec Metadata
unfolding is_dir compute_path_permission_children
inherit_path_permissions md parent =
    let md' = record md {
      path_permission = parent.path_permission ++ parent.path_permission_children;
      path_permission_verified = parent.path_permission_verified;
    } in
    if is_dir md'.mode
    then (compute_path_permission_children md' >>= λ (changed, md''). ok md'')
    else ok md'

-- The switch of `check_path_permissions`: the entry denies the user.
unfoldable pub denies : ReachabilityType → User → ReachabilityEntry → Bool
denies for_uid u e = not (eqb u.uid e.uid)
denies for_gid u e = not (eqb u.gid e.gid)
denies uid_or_gid u e = not (eqb u.uid e.uid) && not (eqb u.gid e.gid)
denies not_gid u e = eqb u.gid e.gid
denies not_uid u e = eqb u.uid e.uid
denies gid_req_uid u e = eqb u.gid e.gid && not (eqb u.uid e.uid)

-- The C result: 0, or the number of an error.
unfoldable pub check_path_permissions : User → List ReachabilityEntry → ℕ
unfolding denies
check_path_permissions u [] = 0
check_path_permissions u (e ∷ es) =
    let rest = check_path_permissions u es in if denies e.type u e then eacces else rest

-- `(mode & md.mode() >> k) == umode` for the class that the user falls in.
unfoldable pub grants : ℕ → ℕ → ℕ
grants mode bits = if eqb (bit_and mode bits) mode then 0 else eacces

unfoldable pub check_access : User → Metadata → ℕ → ℕ
unfolding grants
check_access u md mode =
    if eqb u.uid 0
    then 0
    else if eqb mode 0
    then 0
    else if eqb md.uid u.uid
    then grants mode (md.mode / 2 ^ 6)
    else if eqb md.gid u.gid
    then grants mode (md.mode / 2 ^ 3)
    else grants mode md.mode
