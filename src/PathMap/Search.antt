-- ===== src/PathMap/Search.antt =====
-- The search for a mapped prefix, and the walk along the mappings.
use h_flat.Base.{
  ℕ, zero, suc, ◌+◌, ◌≤◌, ◌<◌, ◌≡◌, refl, ◌≢◌, Bool, true, false, [], ◌++◌, some, Str, str_eq, ltb,
  length, take, drop, lookup, ok, arith, ◌⊎◌, inl, inr, Option-cases, Bool-cases, length-take,
  take-append-drop, append_assoc, append-nil, sym, ap, ◌∙◌,
}
use h_flat.Base.Int.{ℤ}
use h_flat.Paths.{find_last, find_last-lt, is_slash}
use h_flat.PathMap.Defs.{
  PmEntry, Snapshot, symlink, no_target, Limits, Found, Walk, search_path_recursive, walk, stops_at,
  stamp_at, last_component, minus,
}

whole : (path : Str) → path ≡ path ++ []
whole path = rw append-nil

rejoin :
    (i : ℕ) (path front rest : Str)
    → take i path ≡ front ++ rest
    → path ≡ front ++ (rest ++ drop i path)
rejoin i path front rest h = sym (
    sym (append_assoc front rest (drop i path))
    ∙ ap (λ (t : Str). t ++ drop i path) (sym h)
    ∙ take-append-drop i path)

-- Every mapping is a symbolic link or a mere permission change.
abbrev pub HasLinksOnly : Snapshot → Type 0
HasLinksOnly s =
    (k : Str) (e : PmEntry) → lookup k s ≡ some e → (e.type ≡ symlink) ⊎ (e.type ≡ no_target)

module _ (limits : Limits) (s : Snapshot) where
  -- The answer of a search: a prefix of the path, mapped if the search says so.
  pub record Answers (path : Str) (f : Found) : Type 0 where
    pub rest : Str
    pub prefix : path ≡ f.path ++ rest
    pub mapped : (f.found ≡ false) ⊎ ((e : PmEntry) × (lookup f.path s ≡ some e))

  -- One more than the length of the path is fuel enough for the search, which answers with a prefix
  -- of the path; a path that it reports as found is in the snapshot.
  pub search_path_total :
      (fuel : ℕ) (path : Str) (stamp : ℤ) (follow_reuse follow_symlink : Bool)
      → length path < fuel
      → (f : Found) × (search_path_recursive limits fuel s path stamp follow_reuse follow_symlink
          ≡ some f)
        × Answers path f
  unfolding search_path_recursive stops_at
  search_path_total zero path stamp follow_reuse follow_symlink h = elim h [ ]
  search_path_total (suc fuel) path stamp follow_reuse follow_symlink h =
      let entry = lookup path s in
      let stamp' = stamp_at entry stamp in
      elim (Bool-cases (stops_at follow_reuse follow_symlink entry)) [
        | inl here ↦ (
          record { found = true; path = path; stamp = stamp' },
          ground (arith, here),
          record {
            rest = [];
            prefix = whole path;
            mapped = elim (Option-cases entry) [
              | inl n ↦ absurd (ground (arith, n, here))
              | inr q ↦ inr q
            ];
          },
        )
        | inr further ↦
            elim (Bool-cases
              (ltb limits.name_max (last_component path (find_last is_slash path)))) [
                | inl long ↦ (
                  record { found = false; path = path; stamp = minus limits.enametoolong },
                  ground (arith, further, long),
                  record { rest = []; prefix = whole path; mapped = inl refl },
                )
                | inr short ↦ elim (Option-cases (find_last is_slash path)) [
                  | inl top ↦ (
                    record { found = false; path = path; stamp = stamp' },
                    ground (arith, further, short, top),
                    record { rest = []; prefix = whole path; mapped = inl refl },
                  )
                  | inr (i, up) ↦
                      let (f, run, a) =
                        search_path_total fuel (take i path) stamp' follow_reuse true
                          (omega (arith, length-take i path, find_last-lt is_slash path i up)) in
                      (
                        f,
                        ground (arith, further, short, up, run),
                        record {
                          rest = a.rest ++ drop i path;
                          prefix = rejoin i path f.path a.rest a.prefix;
                          mapped = a.mapped;
                        },
                      )
                ]
              ]
      ]

  reached :
      {path : Str} (f : Found)
      → f.found ≡ true
      → Answers path f
      → (e : PmEntry) × (lookup f.path s ≡ some e)
  reached f found a = elim a.mapped [ inl n ↦ absurd (ground (arith, n, found)) | inr q ↦ q ]

  -- A search stops at a mapping that it may follow.
  stops-remaps :
      (fuel : ℕ) (path : Str) (stamp : ℤ) (follow_reuse follow_symlink : Bool) (f : Found)
      → search_path_recursive limits fuel s path stamp follow_reuse follow_symlink ≡ some f
      → f.found ≡ true
      → (e : PmEntry) → lookup f.path s ≡ some e
      → e.type ≢ no_target
  unfolding search_path_recursive stops_at
  stops-remaps zero path stamp follow_reuse follow_symlink f run found e at = cc
  stops-remaps (suc fuel) path stamp follow_reuse follow_symlink f run found e at =
      elim (Option-cases (find_last is_slash path)) [
        | inl top ↦ λ t. ground (arith, top)
        | inr (i, up) ↦ ground (
          arith,
          up,
          λ (r : search_path_recursive limits fuel s (take i path) (stamp_at (lookup path s) stamp)
                  follow_reuse true
                ≡ some f).
              stops-remaps fuel (take i path) (stamp_at (lookup path s) stamp) follow_reuse true f r
                found e at,
        )
      ]

  -- In a snapshot of symbolic links and mere permission changes, a walk that has not yet followed
  -- more links than the limit allows, with fuel for more than one step beyond the links that it may
  -- still follow, ends with a path or an error, and never throws.
  pub walk_total :
      (fuel : ℕ) (follow_symlink : Bool) (w : Walk)
      → HasLinksOnly s
      → limits.max_symlinks + 1 < fuel + w.num_links_followed
      → w.num_links_followed ≤ limits.max_symlinks
      → (r : Str × ℤ) × (walk limits fuel s follow_symlink w ≡ some (ok r))
  unfolding walk
  walk_total zero follow_symlink w links enough few = absurd (omega arith)
  walk_total (suc fuel) follow_symlink w links enough few =
      let (f, run, a) =
        search_path_total (length w.temp + 1) w.temp w.stamp w.follow_reuse follow_symlink
          (omega arith) in
      elim (Bool-cases f.found) [
        | inr end ↦ ((w.system_path, f.stamp), ground (arith, run, end))
        | inl found ↦
            let (e, at) = reached f found a in
            let is_link : e.type ≡ symlink = ground (
              arith,
              links f.path e at,
              stops-remaps (length w.temp + 1) w.temp w.stamp w.follow_reuse follow_symlink f run
                  found e at,
            ) in
            let n = w.num_links_followed + 1 in
            elim (Bool-cases (ltb limits.max_symlinks n)) [
              | inl many ↦ (
                (w.system_path, minus limits.eloop),
                ground (arith, run, found, at, is_link, many),
              )
              | inr more ↦
                  let path = e.target ++ drop (length f.path) w.system_path in
                  let next : Walk = record {
                    system_path = path;
                    temp = path;
                    stamp = f.stamp;
                    num_links_followed = n;
                    follow_reuse = true;
                  } in
                  let (r, ran) =
                    walk_total fuel follow_symlink next links (omega arith) (ground arith) in
                  (r, ground (arith, run, found, at, is_link, more, ran))
            ]
      ]
