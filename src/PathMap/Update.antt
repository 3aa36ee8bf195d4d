-- ===== src/PathMap/Update.antt =====
-- The methods that change the snapshot, and its serialized form.
use h_flat.Base.{
  ℕ, ◌+◌, ◌-◌, Bool, ◌&&◌, ◌||◌, List, [], ◌∷◌, ◌++◌, Option, none, some, Str, str, str_eq, ◌==◌,
  eqb, ltb, leb, if◌then◌else◌, length, map, lookup, insert, erase, has_key, Exec, ok, assertion,
  ◌>>=◌, ◌>>◌, require,
}
use h_flat.Base.Int.{ℤ, pos}
use h_flat.Paths.{to_string}
use h_flat.PathMap.Defs.{
  MappingType, move, symlink, no_target, reuse, unset, PmEntry, Snapshot, PathMapDb, iointercept,
  is_move, is_reuse,
}

-- `"|reuse_" + std::to_string(snapshotVersion)`.
unfoldable pub reuse_name : ℕ → Str
unfolding to_string
reuse_name version = str "|reuse_" ++ to_string version

abbrev pub entry_of : MappingType → Str → ℤ → PmEntry
entry_of type target stamp = record { type = type; target = target; permission_time_stamp = stamp }

-- `operator[]`: a missing key reads as a value-initialized entry.
abbrev pub entry_or_new : Option PmEntry → PmEntry
entry_or_new none = entry_of unset [] (pos 0)
entry_or_new (some e) = e

-- A missing key read by `operator[]` is inserted.
abbrev pub touched : Str → Snapshot → Snapshot
touched k s = elim (lookup k s) [ none ↦ insert k (entry_of unset [] (pos 0)) s | some e ↦ s ]

abbrev pub bumped : PathMapDb → ℕ
bumped db = db.snapshot_version + 1

unfoldable pub add_soft_link : Str → Str → PathMapDb → Exec PathMapDb
unfolding iointercept
add_soft_link origin destination db =
    let from = iointercept origin in
    let to = entry_of symlink (iointercept destination) (pos 0) in
    elim (lookup from db.snapshot) [
      | none ↦ ok (record { snapshot_version = bumped db; snapshot = insert from to db.snapshot })
      | some e ↦ do
        require (is_reuse e.type) assertion
        ok (record { snapshot_version = bumped db; snapshot = insert e.target to db.snapshot })
    ]

unfoldable pub add_permission_change : Str → PathMapDb → PathMapDb
unfolding iointercept
add_permission_change user_path db =
    let path = iointercept user_path in
    let version = bumped db in
    let entry : PmEntry = elim (lookup path db.snapshot) [
      | none ↦ entry_of no_target [] (pos version)
      | some e ↦ record e { permission_time_stamp = pos version }
    ] in
    record { snapshot_version = version; snapshot = insert path entry db.snapshot }

-- The first part of `addDirectoryMove`: the new mapping of the destination, and of the origin.
unfoldable pub move_mapping : Str → Str → ℕ → Snapshot → Exec Snapshot
unfolding reuse_name
move_mapping from to version s = elim (lookup from s) [
  | none ↦ ok (
      insert from (entry_of reuse (reuse_name version) (pos 0))
        (insert to (entry_of move from (pos 0)) s))
  | some e ↦ do
    require (is_move e.type || is_reuse e.type) assertion
    let s' = insert to (entry_of move e.target e.permission_time_stamp) s
    ok (
        if is_reuse e.type
        then insert from (record (entry_or_new (lookup from s')) { target = reuse_name version }) s'
        else erase from s')
]

-- The special case at its end: a mapping of the destination to itself goes, with the origin's.
unfoldable pub drop_circular : Str → Str → Snapshot → Snapshot
drop_circular from to s =
    if to == (entry_or_new (lookup to s)).target then erase from (erase to s) else touched to s

unfoldable pub add_directory_move : Str → Str → PathMapDb → Exec PathMapDb
unfolding iointercept move_mapping drop_circular
add_directory_move origin destination db = do
  let from = iointercept origin
  let to = iointercept destination
  s ← move_mapping from to (bumped db) db.snapshot
  ok (record { snapshot_version = bumped db; snapshot = drop_circular from to s })

unfoldable pub add_unlink : Str → PathMapDb → PathMapDb
unfolding iointercept
add_unlink path db = record {
  snapshot_version = bumped db;
  snapshot = erase (iointercept path) db.snapshot;
}

unfoldable pub has_mapping : Str → PathMapDb → Bool
unfolding iointercept
has_mapping path db = has_key (iointercept path) db.snapshot

-- `hflat::db_entry`; `other` is a type outside the enumeration, which a switch may still meet.
pub data EntryType : Type 0 where
  move_entry symlink_entry none_entry removed_entry other : EntryType

pub record DbEntry : Type 0 where
  pub origin : Str
  pub type : EntryType
  pub target : Str

-- The switch of `updateSnapshot`; `none` stands for its default case.
unfoldable pub apply_entry : DbEntry → EntryType → PathMapDb → Exec (Option PathMapDb)
unfolding add_directory_move add_soft_link add_permission_change add_unlink
apply_entry entry move_entry db =
    add_directory_move entry.origin entry.target db >>= λ d. ok (some d)
apply_entry entry symlink_entry db = add_soft_link entry.origin entry.target db >>= λ d. ok (some d)
apply_entry entry none_entry db = ok (some (add_permission_change entry.origin db))
apply_entry entry removed_entry db = ok (some (add_unlink entry.origin db))
apply_entry entry other db = ok none

-- The loop, with `currentVersion` as it stands before the entry.
unfoldable pub apply_entries : ℕ → ℕ → List DbEntry → PathMapDb → Exec (Option PathMapDb)
unfolding apply_entry
apply_entries from current [] db = ok (some db)
apply_entries from current (entry ∷ entries) db =
    let rest = λ (d : PathMapDb). apply_entries from (current + 1) entries d in
    if ltb (current + 1) from
    then rest db
    else apply_entry entry entry.type db >>= λ r. elim r [ none ↦ ok none | some d ↦ rest d ]

-- The C result, 0 or the number of an error, and the database.
unfoldable pub update_snapshot : ℕ → List DbEntry → ℕ → ℕ → PathMapDb → Exec (ℕ × PathMapDb)
unfolding apply_entries
update_snapshot einval entries from to db = do
  require (leb from to && eqb (length entries) (to - from)) assertion
  require (leb from db.snapshot_version) assertion
  if leb to db.snapshot_version then ok (0, db) else (do
    applied ← apply_entries from db.snapshot_version entries db
    elim applied [
      | none ↦ ok (einval, record { snapshot_version = 0; snapshot = [] })
      | some d ↦ ok (0, record d { snapshot_version = to })
    ])

-- `hflat::db_snapshot`: the target is optional on the wire.
pub record SnapshotEntry : Type 0 where
  pub origin : Str
  pub type : MappingType
  pub target : Option Str
  pub permission_time_stamp : ℤ

pub record DbSnapshot : Type 0 where
  pub version : ℕ
  pub entries : List SnapshotEntry

unfoldable pub serialize_entry : Str × PmEntry → SnapshotEntry
serialize_entry (origin, e) = record {
  origin = origin;
  type = e.type;
  target = some e.target;
  permission_time_stamp = e.permission_time_stamp;
}

unfoldable pub serialize_snapshot : PathMapDb → DbSnapshot
unfolding serialize_entry
serialize_snapshot db = record {
  version = db.snapshot_version;
  entries = map serialize_entry db.snapshot;
}

unfoldable pub target_of : Option Str → Str
target_of none = []
target_of (some t) = t

unfoldable pub load_entries : List SnapshotEntry → Snapshot → Snapshot
unfolding target_of
load_entries [] s = s
load_entries (e ∷ es) s =
    load_entries es
      (insert e.origin (entry_of e.type (target_of e.target) e.permission_time_stamp) s)

unfoldable pub load_snapshot : DbSnapshot → PathMapDb → PathMapDb
unfolding load_entries
load_snapshot serialized db = if leb serialized.version db.snapshot_version then db else record {
  snapshot_version = serialized.version;
  snapshot = load_entries serialized.entries [];
}
