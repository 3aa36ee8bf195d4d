-- ===== src/PathMap/Convergence.antt =====
-- Clients that follow the log of the path map in batches of their own: `updateSnapshot` of
-- src/pathmap_db.cc, as `database_update` of src/util.cc calls it.
use h_flat.Base.{
  ℕ, ◌+◌, ◌≡◌, refl, List, [], ◌∷◌, ◌++◌, some, length, Exec, ok, ◌>>=◌, arith, inl, inr,
  Option-cases, Exec-cases,
}
use h_flat.PathMap.Defs.{PathMapDb}
use h_flat.PathMap.Update.{DbEntry, apply_entry, update_snapshot}
use h_flat.PathMap.Log.{replay, update_snapshot-append}

abbrev pub joined : List (List DbEntry) → List DbEntry
joined [] = []
joined (batch ∷ batches) = batch ++ joined batches

-- A client that gets one batch after the other, each from the version that its snapshot has.
unfoldable pub catch_up : ℕ → List (List DbEntry) → PathMapDb → Exec PathMapDb
catch_up einval [] db = ok db
catch_up einval (batch ∷ batches) db =
    update_snapshot einval batch db.snapshot_version (db.snapshot_version + length batch) db
    >>= λ r. catch_up einval batches r.1

replay-split :
    (xs ys : List DbEntry) (db d : PathMapDb)
    → replay (xs ++ ys) db ≡ ok (some d)
    → (m : PathMapDb) × (replay xs db ≡ ok (some m)) × (replay ys m ≡ ok (some d))
unfolding replay
replay-split [] ys db d h = (db, refl, h)
replay-split (entry ∷ xs) ys db d h = elim (Exec-cases (apply_entry entry entry.type db)) [
  | inl (f, broken) ↦ absurd (ground (arith, broken))
  | inr (r, ran) ↦ elim (Option-cases r) [
    | inl invalid ↦ absurd (ground (arith, ran, invalid))
    | inr (d', valid) ↦
        let (m, first, second) = replay-split xs ys d' d (ground (arith, ran, valid)) in
        (m, ground (arith, ran, valid, first), second)
  ]
]

catch_up-replay :
    (einval : ℕ) (batches : List (List DbEntry)) (db d : PathMapDb)
    → replay (joined batches) db ≡ ok (some d)
    → catch_up einval batches db ≡ ok d
unfolding catch_up replay
catch_up-replay einval [] db d h = ground (arith, h)
catch_up-replay einval (batch ∷ batches) db d h =
    let (m, first, second) = replay-split batch (joined batches) db d h in
    let (updated, _) = update_snapshot-append einval batch [] db m first in
    ground (arith, updated, catch_up-replay einval batches m d second)

-- If the entries of a log can all be applied to the snapshot that two clients start from, they end
-- with the same snapshot, the replayed one, however each of them cuts the log into the batches that
-- it updates by.
pub catch_up-catch_up :
    (einval : ℕ) (mine theirs : List (List DbEntry)) (db d : PathMapDb)
    → joined mine ≡ joined theirs
    → replay (joined mine) db ≡ ok (some d)
    → (catch_up einval mine db ≡ ok d) × (catch_up einval theirs db ≡ ok d)
catch_up-catch_up einval mine theirs db d same ran =
    (catch_up-replay einval mine db d ran, catch_up-replay einval theirs db d (rw (← same) ran))
