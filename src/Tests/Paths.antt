-- ===== src/Tests/Paths.antt =====
-- A path map with a moved directory and a link, and the limits of a system.
use h_flat.Base.{
  ◌+◌, ◌++◌, length, ◌≡◌, refl, true, false, max, leb, if◌then◌else◌, [], ◌∷◌, some, Str, str,
  str_eq, str_beq, lookup, insert, inl, ok, ◌>>=◌, arith,
}
use h_flat.Base.Int.{ℤ, pos}
use h_flat.PathMap.Defs.{
  PmEntry, Snapshot, PathMapDb, Limits, Found, Walk, symlink, no_target, iointercept,
  search_path_recursive, walk, to_system_path, lookup_call, last_component,
}
use h_flat.PathMap.Update.{
  DbEntry, EntryType, entry_of, apply_entry, update_snapshot, serialize_snapshot, load_snapshot,
}
use h_flat.PathMap.Convergence.{catch_up, catch_up-catch_up}
use h_flat.PathMap.Log.{
  replay, finished, ended_at, update_snapshot-replay, update_snapshot_overlap,
  load_snapshot-serialize_snapshot,
}
use h_flat.PathMap.Search.{Answers, HasLinksOnly, search_path_total, walk_total}
use h_flat.Paths.{find_first, find_last, slash}
use h_flat.PathChange.{change, without_trailing, starts_with_slash}
use h_flat.PathChange.Real.{is_clean}
use h_flat.PathChange.RoundTrip.{change-iointercept}
use h_flat.World.State.{done}

abbrev limits : Limits
limits = record { path_max = 4096; name_max = 255; max_symlinks = 1; enametoolong = 36; eloop = 40 }

abbrev at_start : PathMapDb
at_start = record { snapshot_version = 0; snapshot = [] }

abbrev move_entry : DbEntry
move_entry = record { origin = str "/a"; type = EntryType.move_entry; target = str "/b" }

abbrev link_entry : DbEntry
link_entry = record { origin = str "/l"; type = EntryType.symlink_entry; target = str "/c" }

abbrev moved : PathMapDb
moved = record {
  snapshot_version = 1;
  snapshot =
      (str "/b", entry_of h_flat.PathMap.Defs.move (str "/a") (pos 0))
      ∷ (str "/a", entry_of h_flat.PathMap.Defs.reuse (str "|reuse_1") (pos 0))
      ∷ [];
}

abbrev moved_and_linked : PathMapDb
moved_and_linked = record {
  snapshot_version = 2;
  snapshot =
      insert (str "/l") (entry_of h_flat.PathMap.Defs.symlink (str "/c") (pos 0)) moved.snapshot;
}

update_snapshot-replay_example :
    update_snapshot 22 (move_entry ∷ link_entry ∷ []) 0 (0 + 2) at_start
    ≡ (replay (move_entry ∷ link_entry ∷ []) at_start >>= λ r. ok (finished 22 r))
update_snapshot-replay_example = update_snapshot-replay 22 (move_entry ∷ link_entry ∷ []) at_start

replayed_both : replay (move_entry ∷ link_entry ∷ []) at_start ≡ ok (some moved_and_linked)
unfolding replay apply_entry lookup insert str_beq
replayed_both = refl

catch_up-catch_up_example :
    (catch_up 22 ((move_entry ∷ link_entry ∷ []) ∷ []) at_start ≡ ok moved_and_linked)
    × (catch_up 22 ((move_entry ∷ []) ∷ (link_entry ∷ []) ∷ []) at_start ≡ ok moved_and_linked)
catch_up-catch_up_example =
    catch_up-catch_up 22 ((move_entry ∷ link_entry ∷ []) ∷ [])
      ((move_entry ∷ []) ∷ (link_entry ∷ []) ∷ []) at_start moved_and_linked refl replayed_both

update_snapshot_overlap_example :
    update_snapshot 22 (move_entry ∷ link_entry ∷ []) 0 2 moved
    ≡ (replay (move_entry ∷ link_entry ∷ []) moved >>= λ r. ok (ended_at 22 2 r))
update_snapshot_overlap_example =
    update_snapshot_overlap 22 0 2 (move_entry ∷ link_entry ∷ []) moved (omega arith) (omega arith)
      refl

load_snapshot-serialize_snapshot_example :
    ((load_snapshot (serialize_snapshot moved) at_start).snapshot_version ≡ max 0 1)
    × ((k : Str)
        → lookup k (load_snapshot (serialize_snapshot moved) at_start).snapshot
          ≡ (if leb 1 0 then lookup k at_start.snapshot else lookup k moved.snapshot))
unfolding lookup str_beq
load_snapshot-serialize_snapshot_example =
    load_snapshot-serialize_snapshot moved at_start (refl, (refl, tt))

search_path_total_example :
    (f : Found) × (search_path_recursive limits 6 moved.snapshot (str "/b/x") (pos 0) true false
      ≡ some f)
    × Answers limits moved.snapshot (str "/b/x") f
search_path_total_example =
    search_path_total limits moved.snapshot 6 (str "/b/x") (pos 0) true false (omega arith)

-- A link to itself.
abbrev looped : Snapshot
looped = (str "/l", entry_of symlink (str "/l") (pos 0)) ∷ []

looped-HasLinksOnly : HasLinksOnly looped
unfolding lookup
looped-HasLinksOnly k e h = inl (ground arith)

abbrev at_link : Walk
at_link = record {
  system_path = str "/l/x";
  temp = str "/l/x";
  stamp = pos 0;
  num_links_followed = 0;
  follow_reuse = true;
}

walk_total_example : (r : Str × ℤ) × (walk limits 3 looped false at_link ≡ some (ok r))
walk_total_example =
    walk_total limits looped 3 false at_link looped-HasLinksOnly (omega arith) (omega arith)

-- The link is followed twice, and the error is reported.
walked : walk limits 3 looped false at_link ≡ some (ok (str "/l/x", ℤ.negsuc 39))
unfolding walk lookup str_beq find_last
walked = refl

change-iointercept_example :
    (path : Str) × (change 9 length
        (str "/home")
        (str "/a" ∷ str "/m" ∷ str "/mx" ∷ [])
        (str "/m/a/b/")
      ≡ done (str "/m" ++ path))
    × (iointercept path ≡ slash ∷ without_trailing slash (str "a/b/"))
unfolding find_first is_clean starts_with_slash str_beq
change-iointercept_example =
    change-iointercept 9 length (str "/home") (str "/m") (str "a/b/") (str "/a" ∷ [])
      (str "/mx" ∷ []) refl refl refl (omega arith) (refl, tt) ((refl, refl), tt)
