-- ===== src/PathMap/Unmapped.antt =====
-- `toSystemPath` of a path that no mapping touches.
use h_flat.Base.{
  ℕ, suc, ◌+◌, ◌≤◌, ◌≡◌, true, none, some, Str, str_eq, length, take, lookup, ok, arith, inl,
}
use h_flat.Base.Int.{pos}
use h_flat.Paths.{find_first, colon}
use h_flat.PathMap.Components.{IsShort, search_passes}
use h_flat.PathMap.Defs.{
  Snapshot, PathMapDb, Limits, CallingType, walk, to_system_path, follows_symlink, iointercept,
}

-- No prefix of the path is in the snapshot.
abbrev pub IsUnmapped : Snapshot → Str → Type 0
IsUnmapped s path = (n : ℕ) → lookup (take n path) s ≡ none

-- A path without a colon, within the limits on its length and its components', of which no prefix
-- is mapped, is its own system path, with the time stamp 0; one step of the walk is enough.
to_system_path_unmapped :
    (limits : Limits) (fuel : ℕ) (db : PathMapDb) (path : Str) (ctype : CallingType)
    → find_first colon path ≡ none
    → length path ≤ limits.path_max
    → IsShort limits path
    → IsUnmapped db.snapshot path
    → to_system_path limits (suc fuel) db path ctype ≡ some (ok (path, pos 0))
unfolding to_system_path walk iointercept
to_system_path_unmapped limits fuel db path ctype plain fits short absent =
    let (q, run) =
      search_passes limits db.snapshot (length path + 1) path true (follows_symlink ctype)
        (omega arith) short (λ n _. inl (absent n)) in
    ground (arith, plain, run)
