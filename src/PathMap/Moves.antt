-- ===== src/PathMap/Moves.antt =====
-- The mappings that a move of a directory leaves: `addDirectoryMove` of src/pathmap_db.cc.
use h_flat.Base.{
  ◌+◌, ◌≡◌, ◌≢◌, refl, none, some, Str, str_eq, str_beq_iff, ◌==◌, if◌then◌else◌, lookup,
  lookup-insert, lookup-erase, insert, erase, ok, arith,
}
use h_flat.Base.Int.{pos}
use h_flat.Paths.{find_first, colon}
use h_flat.PathMap.Defs.{PathMapDb, move, reuse, iointercept}
use h_flat.PathMap.Update.{add_directory_move, move_mapping, drop_circular, entry_of, reuse_name}

-- The mappings after a move of a directory that no mapping touched.
pub add_directory_move_lem :
    (from to : Str) (db : PathMapDb)
    → find_first colon from ≡ none
    → find_first colon to ≡ none
    → from ≢ to
    → lookup from db.snapshot ≡ none
    → (db' : PathMapDb) × (add_directory_move from to db ≡ ok db')
      × (db'.snapshot_version ≡ db.snapshot_version + 1)
      × ((k : Str)
          → lookup k db'.snapshot ≡ (
              if from == k
              then some (entry_of reuse (reuse_name (db.snapshot_version + 1)) (pos 0))
              else if to == k
              then some (entry_of move from (pos 0))
              else lookup k db.snapshot))
unfolding add_directory_move move_mapping drop_circular iointercept
add_directory_move_lem from to db plain_from plain_to differ absent =
    let version = db.snapshot_version + 1 in
    let s₁ = insert to (entry_of move from (pos 0)) db.snapshot in
    let s₂ = insert from (entry_of reuse (reuse_name version) (pos 0)) s₁ in
    let there : lookup to s₂ ≡ some (entry_of move from (pos 0)) = ground (
      arith,
      lookup-insert to from (entry_of reuse (reuse_name version) (pos 0)) s₁,
      lookup-insert to to (entry_of move from (pos 0)) db.snapshot,
      str_beq_iff from to,
      str_beq_iff to to,
    ) in
    (
      record { snapshot_version = version; snapshot = s₂ },
      ground (arith, plain_from, plain_to, absent, there, str_beq_iff to from),
      refl,
      λ k.
          rw
            (
              lookup-insert k from (entry_of reuse (reuse_name version) (pos 0)) s₁,
              lookup-insert k to (entry_of move from (pos 0)) db.snapshot,
            )
            refl,
    )

-- A directory that no mapping touched, moved to a name that none touches, and back again: the snapshot
-- maps every path as before.
pub add_directory_move-add_directory_move :
    (from to : Str) (db : PathMapDb)
    → find_first colon from ≡ none
    → find_first colon to ≡ none
    → from ≢ to
    → lookup from db.snapshot ≡ none
    → lookup to db.snapshot ≡ none
    → (db₁ : PathMapDb) × (db₂ : PathMapDb) × (add_directory_move from to db ≡ ok db₁)
      × (add_directory_move to from db₁ ≡ ok db₂)
      × ((k : Str) → lookup k db₂.snapshot ≡ lookup k db.snapshot)
unfolding add_directory_move move_mapping drop_circular iointercept
add_directory_move-add_directory_move from to db plain_from plain_to differ absent absent_to =
    let (db₁, ran, _, mapped) =
      add_directory_move_lem from to db plain_from plain_to differ absent in
    let back = entry_of move from (pos 0) in
    let s₁ = insert from back db₁.snapshot in
    let s₂ = erase to s₁ in
    let s₃ = erase to (erase from s₂) in
    let there : lookup to db₁.snapshot ≡ some back =
      ground (arith, mapped to, str_beq_iff from to, str_beq_iff to to) in
    let circular : lookup from s₂ ≡ some back = ground (
      arith,
      lookup-erase from to s₁,
      lookup-insert from from back db₁.snapshot,
      str_beq_iff to from,
      str_beq_iff from from,
    ) in
    (
      db₁,
      record { snapshot_version = db₁.snapshot_version + 1; snapshot = s₃ },
      ran,
      ground (arith, plain_from, plain_to, there, circular, str_beq_iff from from),
      λ k. ground (
        arith,
        lookup-erase k to (erase from s₂),
        lookup-erase k from s₂,
        lookup-erase k to s₁,
        lookup-insert k from back db₁.snapshot,
        mapped k,
        str_beq_iff from k,
        str_beq_iff to k,
        absent,
        absent_to,
      ),
    )
