-- ===== src/World/Lookup.antt =====
-- src/lookup.cc: from a user path to the metadata of its inode.
use h_flat.Base.{
  ℕ, zero, suc, Bool, true, false, not, ◌&&◌, ◌++◌, Option, none, some, Str, str, str_eq, eqb,
  if◌then◌else◌, Fault, take, max,
}
use h_flat.Base.Int.{ℤ, is_negative, neg_part, ltb_ℤ}
use h_flat.Paths.{to_string, find_last, is_separator}
use h_flat.LruCache.Defs.{Got, waits, misses, hits, get, add, block}
use h_flat.PathMap.Defs.{to_system_path, CallingType, lookup_call}
use h_flat.Metadata.Defs.{
  hardlink_s, force_update, posix, hardlink_t, is_dir, check_path_permissions,
  inherit_path_permissions,
}
use h_flat.World.State.{
  System, M, ◌>>=◌, ◌>>◌, pure, lift, from_env, done, dies, waiting, no_fuel, load_md, store_md,
  new_metadata_info, md_key, md_dirty, deref,
}
use h_flat.World.Helper.{
  enoent, eagain, einval, get_metadata, put_metadata, lookup_cache_invalidate,
}
use h_flat.World.Util.{database_update}

abbrev pub enotdir : ℕ
enotdir = 20

-- `path.erase(pos)`, at the last separator or behind it if it is the first byte.
abbrev pub parent_path : ℕ → Str → Str
parent_path i path = take (max i 1) path

module _ {S : Type 0} (sys : System S) where
  unfoldable pub system_path_of : ℕ → Str → CallingType → M S (Str × ℤ)
  unfolding to_system_path
  system_path_of fuel user_path ctype w =
      elim (to_system_path sys.limits fuel w.pmap user_path ctype) [
        | none ↦ no_fuel
        | some r ↦ lift r w
      ]

  unfoldable pub lookup_cache_get : Str → M S (Got ℕ)
  unfolding get
  lookup_cache_get key = do
    now ← from_env sys.steady_now
    λ w.
        (lift (get (md_key w) (md_dirty w) sys.ticks key now w.lookup_cache) >>= λ (g, c) w'.
        done (g, record w' { lookup_cache = c }))
          w

  -- `REQ_TRUE(PRIV->lookup_cache.add(key, mdi))`.
  unfoldable pub lookup_cache_add : Str → ℕ → M S (Unit {0})
  unfolding add
  lookup_cache_add key r = do
    now ← from_env sys.steady_now
    λ w.
        (lift (add (md_key w) (md_dirty w) sys.ticks key r now w.lookup_cache) >>= λ (added, c) w'.
        if added then done (tt, record w' { lookup_cache = c }) else dies Fault.assertion)
          w

  unfoldable pub lookup_cache_block : Str → M S Bool
  unfolding block
  lookup_cache_block key w =
      let (blocked, c) = block (md_key w) (md_dirty w) sys.ticks key w.lookup_cache in
      done (blocked, record w { lookup_cache = c })

  -- The error, whether the metadata was cached, and its reference.
  pub record Fetched : Type 0 where
    pub err : ℕ
    pub cached : Bool
    pub mdi : ℕ

  -- Step 2 of `lookup`. A key that could not be blocked is one that another thread loads.
  unfoldable pub fetch : Str → M S Fetched
  unfolding lookup_cache_get lookup_cache_block lookup_cache_add new_metadata_info get_metadata
      lookup_cache_invalidate
  fetch key = do
    g ← lookup_cache_get key
    elim g [
      | waits ↦ λ w. waiting
      | hits r ↦ pure (record { err = 0; cached = true; mdi = r })
      | misses ↦ do
        blocked ← lookup_cache_block key
        if not blocked then (λ w. waiting) else (do
          r ← new_metadata_info key
          err ← get_metadata sys r
          if eqb err enoent
              then (do lookup_cache_add key r; pure (record { err = 0; cached = false; mdi = r }))
              else if eqb err 0
              then pure (record { err = 0; cached = false; mdi = r })
              else (do
                lookup_cache_invalidate sys key
                pure (record { err = err; cached = false; mdi = r })))
    ]

  unfoldable pub get_metadata_userpath : ℕ → Str → M S (ℕ × Option ℕ)
  unfolding system_path_of new_metadata_info get_metadata
  get_metadata_userpath fuel user_path = do
    (key, stamp) ← system_path_of fuel user_path lookup_call
    if is_negative stamp
        then pure (neg_part stamp, none)
        else (do r ← new_metadata_info key; err ← get_metadata sys r; pure (err, some r))

  -- `lookup_parent`, over the `lookup` that it calls.
  unfoldable pub lookup_parent_by : (Str → M S (ℕ × Option ℕ)) → Str → M S (ℕ × Option ℕ)
  unfolding find_last is_dir check_path_permissions load_md
  lookup_parent_by look user_path = elim (find_last is_separator user_path) [
    | none ↦ pure (einval, none)
    | some i ↦ do
      (err, found) ← look (parent_path i user_path)
      if not (eqb err 0) then pure (err, found) else (do
        r ← deref found
        mdi ← load_md r
        if not (is_dir mdi.md.mode)
            then pure (enotdir, found)
            else pure (check_path_permissions sys.context mdi.md.path_permission_children, found))
  ]

  -- The cached stand-in for the source of a hard link.
  unfoldable pub cache_hardlink_source : Str → ℕ → M S (Unit {0})
  unfolding new_metadata_info load_md store_md lookup_cache_add
  cache_hardlink_source key inode_number = do
    r ← new_metadata_info key
    mdi ← load_md r
    store_md r
        (record mdi { md = record mdi.md { type = hardlink_s; inode_number = inode_number } })
    lookup_cache_add key r

  -- Step 4: with the parent's answer, which may be a refusal for lack of permission.
  unfoldable pub refresh_permissions :
      M S (ℕ × Option ℕ) → M S (ℕ × Option ℕ) → ℕ → M S (ℕ × Option ℕ)
  unfolding load_md store_md inherit_path_permissions put_metadata check_path_permissions
  refresh_permissions look_parent again r = do
    (err, parent) ← look_parent
    if not (eqb err 0) && not (eqb err 13) then pure (err, some r) else (do
      p ← deref parent
      mdi_parent ← load_md p
      mdi ← load_md r
      md ← lift (inherit_path_permissions mdi.md mdi_parent.md)
      store_md r (record mdi { md = md })
      err' ← put_metadata sys r
      if eqb err' eagain
          then again
          else if not (eqb err' 0)
          then pure (err', some r)
          else pure (check_path_permissions sys.context md.path_permission, some r))

  abbrev pub hardlink_key : ℕ → Str
  hardlink_key inode_number = str "hardlink_" ++ to_string inode_number

  -- Steps 3 to 4 for an inode that is no link: the stored permissions, if they are not stale.
  unfoldable pub permitted : ℤ → ℕ → M S (ℕ × Option ℕ) → M S (ℕ × Option ℕ) → M S (ℕ × Option ℕ)
  unfolding load_md refresh_permissions check_path_permissions
  permitted stamp r look_parent again = do
    mdi ← load_md r
    if ltb_ℤ mdi.md.path_permission_verified stamp
        then refresh_permissions look_parent again r
        else pure (check_path_permissions sys.context mdi.md.path_permission, some r)

  -- The C result, and the metadata that the call leaves in its second parameter.
  unfoldable pub lookup : ℕ → Str → M S (ℕ × Option ℕ)
  unfolding system_path_of fetch load_md cache_hardlink_source to_string lookup_cache_invalidate
      database_update lookup_cache_add permitted lookup_parent_by
  lookup zero user_path = λ w. no_fuel
  lookup (suc fuel) user_path =
      let look = λ (path : Str). lookup fuel path in
      let again = lookup fuel user_path in
      do
        (key, stamp) ← system_path_of fuel user_path lookup_call
        if is_negative stamp then pure (neg_part stamp, none) else (do
          f ← fetch key
          if not (eqb f.err 0) then pure (f.err, some f.mdi) else (do
            mdi ← load_md f.mdi
            let cache = if f.cached then pure tt else lookup_cache_add key f.mdi
            if eqb mdi.md.inode_number 0 then pure (enoent, some f.mdi) else elim mdi.md.type [
              | hardlink_s ↦ do
                (if f.cached then pure tt else cache_hardlink_source key mdi.md.inode_number)
                look (hardlink_key mdi.md.inode_number)
              | force_update ↦ do
                err ← database_update sys
                lookup_cache_invalidate sys key
                if eqb err 0 then again else pure (err, some f.mdi)
              | posix ↦ do cache; permitted stamp f.mdi (lookup_parent_by look user_path) again
              | hardlink_t ↦ do cache; permitted stamp f.mdi (lookup_parent_by look user_path) again
            ]))
