-- ===== src/PathMap/Redirect.antt =====
-- `toSystemPath` after a move of a directory: where the paths at its two ends lead to.
use h_flat.Base.{
  str_eq_cases, ℕ, suc, ◌+◌, ◌≤◌, ◌<◌, ◌≡◌, ◌≢◌, refl, sym, Bool, true, false, ◌++◌, none, some,
  Str, str_eq, str_beq_iff, ◌==◌, if◌then◌else◌, length, take, drop, lookup, get_or, ok, arith, ◌∙◌,
  inl, inr, length-append, take-length, drop-length,
}
use h_flat.Base.Int.{pos}
use h_flat.Paths.{find_first, colon, slash}
use h_flat.PathMap.Defs.{
  Snapshot, PathMapDb, Limits, CallingType, move, reuse, to_system_path, walk, iointercept,
  follows_symlink, remaps,
}
use h_flat.PathMap.Update.{add_directory_move, entry_of, reuse_name}
use h_flat.PathMap.Components.{Ends, IsShort, search_passes, search_reaches}
use h_flat.PathMap.Unmapped.{IsUnmapped}
use h_flat.PathMap.Components.{Ends-le, take-longer, starts}
use h_flat.PathMap.Moves.{add_directory_move_lem}

-- A path that the limits allow, without a colon and without a mapping of any prefix.
pub record IsPlain (limits : Limits) (s : Snapshot) (path : Str) : Type 0 where
  pub plain : find_first colon path ≡ none
  pub fits : length path ≤ limits.path_max
  pub short : IsShort limits path
  pub absent : IsUnmapped s path

-- What is known of a move of `from` to `to` and of what is below: the two are whole components of the
-- paths, neither lies inside the other, and both are absolute.
pub record IsMove (from to rest : Str) : Type 0 where
  pub origin_ends : Ends (from ++ rest) (length from)
  pub target_ends : Ends (to ++ rest) (length to)
  pub not_inside : (n : ℕ) → Ends (to ++ rest) n → take n (to ++ rest) ≢ from
  pub not_above : (n : ℕ) → Ends (from ++ rest) n → take n (from ++ rest) ≢ to
  pub origin_absolute : get_or from 0 0 ≡ slash
  pub target_absolute : get_or to 0 0 ≡ slash

-- A mapping that is followed replaces the component that it is of.
replaced :
    (to from rest : Str)
    → from ++ drop (length (take (length to) (to ++ rest))) (to ++ rest) ≡ from ++ rest
replaced to from rest = rw (take-length to rest, drop-length to rest) refl

module _ (limits : Limits) (s s' : Snapshot) (from to target : Str) where
  -- The snapshot after the move, by its lookups.
  abbrev pub IsMoved : Type 0
  IsMoved =
      (k : Str)
      → lookup k s' ≡ (
          if from == k
          then some (entry_of reuse target (pos 0))
          else if to == k
          then some (entry_of move from (pos 0))
          else lookup k s)

  moved-other : (k : Str) → IsMoved → from ≢ k → to ≢ k → lookup k s' ≡ lookup k s
  moved-other k mapped a b = ground (arith, mapped k, str_beq_iff from k, str_beq_iff to k)

  -- Below its target the directory is found where it was.
  walk_to :
      (fuel : ℕ) (follow_symlink : Bool) (rest : Str)
      → IsMoved
      → IsMove from to rest
      → IsPlain limits s (from ++ rest)
      → IsPlain limits s (to ++ rest)
      → walk limits (suc (suc fuel)) s' follow_symlink (record {
        system_path = to ++ rest;
        temp = to ++ rest;
        stamp = pos 0;
        num_links_followed = 0;
        follow_reuse = true;
      })
        ≡ some (ok (from ++ rest, pos 0))
  unfolding walk remaps
  walk_to fuel follow_symlink rest mapped m old new =
      let path = to ++ rest in
      let same : take (length to) path ≡ to = take-length to rest in
      let there : lookup to s' ≡ some (entry_of move from (pos 0)) = ground (
        arith,
        mapped to,
        str_beq_iff from to,
        str_beq_iff to to,
        m.not_inside (length to) m.target_ends,
        same,
      ) in
      let found =
        search_reaches limits s' (length path + 1) (length to) path (entry_of move from (pos 0))
          true follow_symlink (omega arith) (omega (arith, length-append to rest)) m.target_ends
          new.short
          (λ n ends more.
            moved-other (take n path) mapped (λ e. m.not_inside n ends (sym e))
              (λ e. take-longer n to path more (Ends-le path n ends) (sym e))
            ∙ new.absent n)
          (rw same there) (λ b. refl) refl in
      let (q, passed) =
        search_passes limits s' (length (from ++ rest) + 1) (from ++ rest) false follow_symlink
          (omega arith) old.short
          (λ n ends. elim (str_eq_cases from (take n (from ++ rest))) [
            | inl e ↦ inr (
              refl,
              (
                entry_of reuse target (pos 0),
                ground (
                  arith,
                  mapped (take n (from ++ rest)),
                  str_beq_iff from (take n (from ++ rest)),
                  e,
                ),
                refl,
                refl,
              ),
            )
            | inr ne ↦ inl (
                moved-other (take n (from ++ rest)) mapped ne (λ e. m.not_above n ends (sym e))
                ∙ old.absent n)
          ]) in
      ground (arith, found, there, same, replaced to from rest, passed)

  -- Where it was, a path now leads to the name that stands for what will be there from now on.
  walk_from :
      (fuel : ℕ) (follow_symlink : Bool) (rest : Str)
      → IsMoved
      → IsMove from to rest
      → IsPlain limits s (from ++ rest)
      → IsShort limits (target ++ rest)
      → IsUnmapped s (target ++ rest)
      → 0 < get_or (target ++ rest) 0 0
      → get_or (target ++ rest) 0 0 ≢ slash
      → walk limits (suc (suc fuel)) s' follow_symlink (record {
        system_path = from ++ rest;
        temp = from ++ rest;
        stamp = pos 0;
        num_links_followed = 0;
        follow_reuse = true;
      })
        ≡ some (ok (target ++ rest, pos 0))
  unfolding walk remaps
  walk_from fuel follow_symlink rest mapped m old short absent some_byte relative =
      let path = from ++ rest in
      let same : take (length from) path ≡ from = take-length from rest in
      let there : lookup from s' ≡ some (entry_of reuse target (pos 0)) =
        ground (arith, mapped from, str_beq_iff from from) in
      let found =
        search_reaches limits s' (length path + 1) (length from) path
          (entry_of reuse target (pos 0)) true follow_symlink (omega arith)
          (omega (arith, length-append from rest)) m.origin_ends old.short
          (λ n ends more.
            moved-other (take n path) mapped
              (λ e. take-longer n from path more (Ends-le path n ends) (sym e))
              (λ e. m.not_above n ends (sym e))
            ∙ old.absent n)
          (rw same there) (λ b. refl) refl in
      let (q, passed) =
        search_passes limits s' (length (target ++ rest) + 1) (target ++ rest) true follow_symlink
          (omega arith) short
          (λ n ends. inl (
            moved-other (take n (target ++ rest)) mapped
              (λ e. starts n (target ++ rest) from ends some_byte relative m.origin_absolute e)
              (λ e. starts n (target ++ rest) to ends some_byte relative m.target_absolute e)
            ∙ absent n)) in
      ground (arith, found, there, same, replaced from target rest, passed)

-- After a move of a directory that no mapping touched: a path that is the target or below it is mapped
-- to the one at the origin, where the metadata still is, and a path at or below the origin is mapped to
-- the reserved name of this version of the map, so that the two never meet. This holds for paths
-- without a colon, within the limits, of which no prefix was mapped, where neither of the two
-- directories lies inside the other; two steps of the walk are enough.
pub to_system_path-add_directory_move :
    (limits : Limits) (fuel : ℕ) (from to rest : Str) (db : PathMapDb) (ctype : CallingType)
    → find_first colon from ≡ none
    → find_first colon to ≡ none
    → IsMove from to rest
    → IsPlain limits db.snapshot (from ++ rest)
    → IsPlain limits db.snapshot (to ++ rest)
    → IsShort limits (reuse_name (db.snapshot_version + 1) ++ rest)
    → IsUnmapped db.snapshot (reuse_name (db.snapshot_version + 1) ++ rest)
    → (db' : PathMapDb) × (add_directory_move from to db ≡ ok db')
      × (to_system_path limits (suc (suc fuel)) db' (to ++ rest) ctype
          ≡ some (ok (from ++ rest, pos 0)))
      × (to_system_path limits (suc (suc fuel)) db' (from ++ rest) ctype
          ≡ some (ok (reuse_name (db.snapshot_version + 1) ++ rest, pos 0)))
unfolding to_system_path iointercept reuse_name
to_system_path-add_directory_move limits fuel from to rest db ctype plain_from plain_to m old new
      short absent =
    let differ : from ≢ to =
      λ e. m.not_inside (length to) m.target_ends (take-length to rest ∙ sym e) in
    let unmapped : lookup from db.snapshot ≡ none =
      rw (take-length from rest) at (old.absent (length from)) in
    let (db', ran, _, mapped) =
      add_directory_move_lem from to db plain_from plain_to differ unmapped in
    let target = reuse_name (db.snapshot_version + 1) in
    (
      db',
      ran,
      ground (
        arith,
        new.plain,
        new.fits,
        walk_to limits db.snapshot db'.snapshot from to target fuel (follows_symlink ctype) rest
            mapped m old new,
      ),
      ground (
        arith,
        old.plain,
        old.fits,
        walk_from limits db.snapshot db'.snapshot from to target fuel (follows_symlink ctype) rest
            mapped m old short absent (ground arith) (ground arith),
      ),
    )
