-- ===== src/PathMap/Log.antt =====
-- `updateSnapshot` replays the database as a log, and a serialized snapshot reads back.
use h_flat.Base.{
  max, leb, if◌then◌else◌, ℕ, ◌+◌, ◌≤◌, ◌<◌, ◌≡◌, refl, List, [], ◌∷◌, ◌++◌, Option, none, some,
  Str, str_eq, length, map, lookup, insert, Exec, ok, ◌>>=◌, arith, inl, inr, Option-cases,
  Exec-cases, NodupKeys, lookup-insert, str_beq_iff,
}
use h_flat.PathMap.Defs.{iointercept, Snapshot, PathMapDb}
use h_flat.PathMap.Update.{
  DbEntry, EntryType, apply_entry, apply_entries, update_snapshot, add_directory_move,
  add_soft_link, add_permission_change, add_unlink, serialize_entry, serialize_snapshot,
  move_mapping, load_entries, load_snapshot,
}

add_directory_move-version :
    (from to : Str) (db d : PathMapDb)
    → add_directory_move from to db ≡ ok d
    → d.snapshot_version ≡ db.snapshot_version + 1
unfolding add_directory_move
add_directory_move-version from to db d h =
    elim (Exec-cases
      (move_mapping (iointercept from) (iointercept to) (db.snapshot_version + 1) db.snapshot)) [
        | inl (f, broken) ↦ ground (arith, broken)
        | inr (s, ran) ↦ ground (arith, ran)
      ]

-- Every method that changes the snapshot counts its version up by one.
pub apply_entry-version :
    (entry : DbEntry) (t : EntryType) (db d : PathMapDb)
    → apply_entry entry t db ≡ ok (some d)
    → d.snapshot_version ≡ db.snapshot_version + 1
unfolding apply_entry add_soft_link add_permission_change add_unlink
apply_entry-version entry EntryType.move_entry db d h = ground (
  arith,
  Exec-cases (add_directory_move entry.origin entry.target db),
  add_directory_move-version entry.origin entry.target db d,
)
apply_entry-version entry EntryType.symlink_entry db d h = ground arith
apply_entry-version entry EntryType.none_entry db d h = ground arith
apply_entry-version entry EntryType.removed_entry db d h = ground arith
apply_entry-version entry EntryType.other db d h = ground arith

-- The log without its versions: the entries in their order, up to an invalid one.
unfoldable pub replay : List DbEntry → PathMapDb → Exec (Option PathMapDb)
replay [] db = ok (some db)
replay (entry ∷ entries) db =
    apply_entry entry entry.type db >>= λ r. elim r [ none ↦ ok none | some d ↦ replay entries d ]

apply_entries-replay :
    (from current : ℕ) (entries : List DbEntry) (db : PathMapDb)
    → from ≤ current
    → apply_entries from current entries db ≡ replay entries db
unfolding apply_entries replay
apply_entries-replay from current [] db h = refl
apply_entries-replay from current (entry ∷ entries) db h =
    elim (Exec-cases (apply_entry entry entry.type db)) [
      | inl (f, broken) ↦ ground (arith, broken)
      | inr (r, ran) ↦ elim (Option-cases r) [
        | inl invalid ↦ ground (arith, ran, invalid)
        | inr (d, valid) ↦
            ground
              (arith, ran, valid, apply_entries-replay from (current + 1) entries d (omega arith))
      ]
    ]

replay-version :
    (entries : List DbEntry) (db d : PathMapDb)
    → replay entries db ≡ ok (some d)
    → d.snapshot_version ≡ db.snapshot_version + length entries
unfolding replay
replay-version [] db d h = ground arith
replay-version (entry ∷ entries) db d h = elim (Exec-cases (apply_entry entry entry.type db)) [
  | inl (f, broken) ↦ ground (arith, broken)
  | inr (r, ran) ↦ elim (Option-cases r) [
    | inl invalid ↦ ground (arith, ran, invalid)
    | inr (d', valid) ↦
        ground (
          arith,
          ran,
          valid,
          replay-version entries d' d,
          apply_entry-version entry entry.type db d',
        )
  ]
]

replay-append :
    (xs ys : List DbEntry) (db d : PathMapDb)
    → replay xs db ≡ ok (some d)
    → replay (xs ++ ys) db ≡ replay ys d
unfolding replay
replay-append [] ys db d h = ground arith
replay-append (entry ∷ xs) ys db d h = elim (Exec-cases (apply_entry entry entry.type db)) [
  | inl (f, broken) ↦ ground (arith, broken)
  | inr (r, ran) ↦ elim (Option-cases r) [
    | inl invalid ↦ ground (arith, ran, invalid)
    | inr (d', valid) ↦ ground (arith, ran, valid, replay-append xs ys d' d)
  ]
]

-- What `updateSnapshot` makes of a replayed log.
pub finished : ℕ → Option PathMapDb → ℕ × PathMapDb
finished einval none = (einval, record { snapshot_version = 0; snapshot = [] })
finished einval (some d) = (0, d)

update_snapshot-some :
    (einval : ℕ) (es : List DbEntry) (db : PathMapDb)
    → 0 < length es
    → update_snapshot einval es db.snapshot_version (db.snapshot_version + length es) db
      ≡ (replay es db >>= λ r. ok (finished einval r))
unfolding update_snapshot finished
update_snapshot-some einval es db more =
    let v = db.snapshot_version in
    let same = apply_entries-replay v v es db (omega arith) in
    elim (Exec-cases (replay es db)) [
      | inl (f, broken) ↦ ground (arith, same, broken)
      | inr (r, ran) ↦ elim (Option-cases r) [
        | inl invalid ↦ ground (arith, same, ran, invalid)
        | inr (d, valid) ↦ ground (arith, same, ran, valid, replay-version es db d)
      ]
    ]

-- An update by the entries that follow the snapshot's version replays them in their order: it ends
-- with exactly the replayed database, whose version is the new one, or with an empty one of version
-- 0 if an entry is invalid; a failed assertion of an entry is one of the update.
pub update_snapshot-replay :
    (einval : ℕ) (entries : List DbEntry) (db : PathMapDb)
    → update_snapshot einval entries db.snapshot_version (db.snapshot_version + length entries) db
      ≡ (replay entries db >>= λ r. ok (finished einval r))
unfolding update_snapshot finished replay
update_snapshot-replay einval [] db = ground arith
update_snapshot-replay einval (entry ∷ entries) db =
    update_snapshot-some einval (entry ∷ entries) db (omega arith)

-- The database that an update ends with, at the version that it was asked for.
pub ended_at : ℕ → ℕ → Option PathMapDb → ℕ × PathMapDb
ended_at einval to none = (einval, record { snapshot_version = 0; snapshot = [] })
ended_at einval to (some d) = (0, record d { snapshot_version = to })

-- An update that starts before the snapshot's version and ends after it, with one entry for each
-- version between, skips nothing: it replays all of its entries, those that the snapshot already
-- holds among them.
pub update_snapshot_overlap :
    (einval from to : ℕ) (entries : List DbEntry) (db : PathMapDb)
    → from < db.snapshot_version
    → db.snapshot_version < to
    → from + length entries ≡ to
    → update_snapshot einval entries from to db
      ≡ (replay entries db >>= λ r. ok (ended_at einval to r))
unfolding update_snapshot ended_at
update_snapshot_overlap einval from to entries db behind ahead size =
    let same = apply_entries-replay from db.snapshot_version entries db (omega arith) in
    elim (Exec-cases (replay entries db)) [
      | inl (f, broken) ↦ ground (arith, same, broken)
      | inr (r, ran) ↦ elim (Option-cases r) [
        | inl invalid ↦ ground (arith, same, ran, invalid)
        | inr (d, valid) ↦ ground (arith, same, ran, valid)
      ]
    ]

-- If the replay of a first batch succeeds, an update by it does, and an update by two batches at
-- once is the update by the second one of what the first one leaves.
pub update_snapshot-append :
    (einval : ℕ) (xs ys : List DbEntry) (db d : PathMapDb)
    → replay xs db ≡ ok (some d)
    → (update_snapshot einval xs db.snapshot_version (db.snapshot_version + length xs) db
        ≡ ok (0, d))
      × (update_snapshot einval
            (xs ++ ys)
            db.snapshot_version
            (db.snapshot_version + length (xs ++ ys))
            db
          ≡ update_snapshot einval ys d.snapshot_version (d.snapshot_version + length ys) d)
unfolding finished
update_snapshot-append einval xs ys db d ran = (
  rw (update_snapshot-replay einval xs db, ran) refl,
  rw
      (
        update_snapshot-replay einval (xs ++ ys) db,
        update_snapshot-replay einval ys d,
        replay-append xs ys db d ran,
      )
      refl,
)

-- The entries of a serialized snapshot, read back one by one.
load_entries-lookup :
    (m s : Snapshot) (k : Str)
    → NodupKeys m
    → lookup k (load_entries (map serialize_entry m) s)
      ≡ elim (lookup k m) [ none ↦ lookup k s | some e ↦ some e ]
unfolding load_entries serialize_entry lookup
load_entries-lookup [] s k u = refl
load_entries-lookup ((j, e) ∷ m) s k (fresh, u) =
    ground (arith, load_entries-lookup m (insert j e s) k u, lookup-insert k j e s, str_beq_iff j k)

-- A client that loads the serialized snapshot of another, in which no path is listed twice, ends at
-- the newer of the two versions, and maps every path as the other client does, if that one is
-- ahead, and otherwise as it did itself.
pub load_snapshot-serialize_snapshot :
    (db older : PathMapDb)
    → NodupKeys db.snapshot
    → ((load_snapshot (serialize_snapshot db) older).snapshot_version
        ≡ max older.snapshot_version db.snapshot_version)
      × ((k : Str)
          → lookup k (load_snapshot (serialize_snapshot db) older).snapshot ≡ (
              if leb db.snapshot_version older.snapshot_version
              then lookup k older.snapshot
              else lookup k db.snapshot))
unfolding load_snapshot serialize_snapshot lookup
load_snapshot-serialize_snapshot db older u =
    (ground arith, λ k. ground (arith, load_entries-lookup db.snapshot [] k u))
