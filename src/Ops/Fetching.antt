-- ===== src/Ops/Fetching.antt =====
-- The block that a read or a write works on is in the cache, and stays there while it has updates.
use h_flat.Base.{
  ℕ, ◌≡◌, refl, Bool, true, false, not, Option, none, some, Str, eqb, if◌then◌else◌, length, List,
  [], ◌∷◌, ◌++◌, arith, Bool-cases, Exec-cases, inl, inr, get_elem?, str_eq,
}
use h_flat.Data.Block.{new_data_info}
use h_flat.LruCache.Defs.{Got, waits, misses, hits, get, add, block}
use h_flat.LruCache.Present.{Holds, get-hits, add-Holds, get-dirty}
use h_flat.World.State.{
  System, World, M, ◌>>=◌, pure, done, waiting, di_key, di_dirty, new_di, deref,
}
use h_flat.World.Post.{bind-done, if-done}
use h_flat.World.Helper.{data_cache_invalidate}
use h_flat.Ops.Rw.{
  data_cache_get, data_cache_add, data_cache_block, fetch_block, fetch_missing, fetched,
  keep_fetched, block_or_fresh,
}

get_elem?-snoc {ℓ} :
    {A : Type ℓ} (xs : List A) (x : A) → get_elem? (xs ++ (x ∷ [])) (length xs) ≡ some x
get_elem?-snoc [] x = refl
get_elem?-snoc (y ∷ xs) x = get_elem?-snoc xs x

deref_lem :
    {S : Type 0} (got : Option ℕ) (r : ℕ) (w u : World S)
    → deref got w ≡ done (r, u)
    → (got ≡ some r) × (u ≡ w)
deref_lem none r w u ran = absurd (ground (arith, ran))
deref_lem (some s) r w u ran = (ground (arith, ran), ground (arith, ran))

module _ {S : Type 0} (sys : System S) where
  data_cache_get-Holds :
      (key : Str) (r : ℕ) (w u : World S)
      → data_cache_get sys key w ≡ done (hits r, u)
      → Holds key r u.data_cache
  unfolding data_cache_get
  data_cache_get-Holds key r w u ran =
      let (now, s) = sys.steady_now w.env in
      let v : World S = record w { env = s } in
      elim (Exec-cases (get (di_key v) (di_dirty v) sys.ticks key now w.data_cache)) [
        | inl (f, broken) ↦ absurd (ground (arith, broken))
        | inr ((g, c), got) ↦
            let q : (g ≡ hits r) × (u.data_cache ≡ c) = ground (arith, got) in
            get-hits (di_key v) (di_dirty v) sys.ticks key now w.data_cache u.data_cache r
              (ground (arith, got, q))
      ]

  data_cache_add-Holds :
      (key : Str) (r : ℕ) (w u : World S)
      → data_cache_add sys key r w ≡ done (tt, u)
      → Holds key r u.data_cache × (u.data_infos ≡ w.data_infos)
  unfolding data_cache_add
  data_cache_add-Holds key r w u ran =
      let (now, s) = sys.steady_now w.env in
      let v : World S = record w { env = s } in
      elim (Exec-cases (add (di_key v) (di_dirty v) sys.ticks key r now w.data_cache)) [
        | inl (f, broken) ↦ absurd (ground (arith, broken))
        | inr ((true, c), added) ↦
            let q : u.data_cache ≡ c = ground (arith, added) in
            (
              rw q (add-Holds (di_key v) (di_dirty v) sys.ticks key r now w.data_cache c added),
              ground (arith, added),
            )
        | inr ((false, c), added) ↦ absurd (ground (arith, added))
      ]

  keep_fetched-Holds :
      (key : Str) (err : ℕ) (got found : Option ℕ) (w w' : World S)
      → keep_fetched sys key (err, got) w ≡ done ((0, found), w')
      → (r : ℕ) × (found ≡ some r)
        × Holds key r w'.data_cache
        × (got ≡ some r)
        × (w'.data_infos ≡ w.data_infos)
  unfolding keep_fetched
  keep_fetched-Holds key err got found w w' ran =
      let dropped : M S (ℕ × Option ℕ) =
        (data_cache_invalidate sys key) >>= λ _. pure (err, none) in
      let kept : ℕ → M S (ℕ × Option ℕ) = λ r. data_cache_add sys key r >>= λ _. pure (0, some r) in
      elim (if-done (not (eqb err 0)) dropped (deref got >>= kept) w w' (0, found) ran) [
        | inl (failed, rest) ↦
            let (t, u, _, last) =
              bind-done (data_cache_invalidate sys key) (λ _. pure (err, none)) w w' (0, found)
                rest in
            absurd (ground (arith, failed, last))
        | inr (fine, rest) ↦
            let (r, w₁, there, rest₁) = bind-done (deref got) kept w w' (0, found) rest in
            let (is_got, unmoved) = deref_lem got r w w₁ there in
            let (t, u, added, last) =
              bind-done (data_cache_add sys key r) (λ _. pure (0, some r)) w₁ w' (0, found) rest₁ in
            let (holds, same) = data_cache_add-Holds key r w₁ u added in
            let q : (found ≡ some r) × (w' ≡ u) = ground (arith, last) in
            (r, q.0, rw q.1 holds, is_got, rw (q.1, same, unmoved) refl)
      ]

  fetch_missing-Holds :
      (key : Str) (fresh : Bool) (found : Option ℕ) (w w' : World S)
      → fetch_missing sys key fresh w ≡ done ((0, found), w')
      → (r : ℕ) × (found ≡ some r) × Holds key r w'.data_cache
  unfolding fetch_missing
  fetch_missing-Holds key fresh found w w' ran =
      let asked : M S (ℕ × Option ℕ) = block_or_fresh sys key fresh >>= keep_fetched sys key in
      let (blocked, w₁, _, rest) =
        bind-done (data_cache_block sys key) (λ b. if not b then (λ w. waiting) else asked) w w'
          (0, found) ran in
      elim (if-done (not blocked) (λ w. waiting) asked w₁ w' (0, found) rest) [
        | inl (_, stuck) ↦ absurd (ground (arith, stuck))
        | inr (_, rest₁) ↦
            let ((err, got), w₂, _, last) =
              bind-done (block_or_fresh sys key fresh) (keep_fetched sys key) w₁ w' (0, found)
                rest₁ in
            let (r, is_found, holds, _, _) = keep_fetched-Holds key err got found w₂ w' last in
            (r, is_found, holds)
      ]

  -- A block that is not got for the cache, because the file grows, is an empty one.
  fetch_missing-fresh :
      (key : Str) (r : ℕ) (w w' : World S)
      → fetch_missing sys key true w ≡ done ((0, some r), w')
      → get_elem? w'.data_infos r ≡ some (new_data_info key [] [])
  unfolding fetch_missing data_cache_block block_or_fresh new_di
  fetch_missing-fresh key r w w' ran =
      let (blocked, c) = block (di_key w) (di_dirty w) sys.ticks key w.data_cache in
      let w₁ : World S = record w {
        data_cache = c;
        data_infos = w.data_infos ++ (new_data_info key [] [] ∷ []);
      } in
      elim (Bool-cases blocked) [
        | inr other ↦ absurd (ground (arith, other, ran))
        | inl held ↦
            let kept : keep_fetched sys key (0, some (length w.data_infos)) w₁
                ≡ done ((0, some r), w') =
              ground (arith, held, ran) in
            let (r', is_found, _, is_new, same) =
              keep_fetched-Holds key 0 (some (length w.data_infos)) (some r) w₁ w' kept in
            ground
              (arith, is_found, is_new, same, get_elem?-snoc w.data_infos (new_data_info key [] []))
      ]

  fetched-Holds :
      (key : Str) (fresh : Bool) (g : Got ℕ) (found : Option ℕ) (w w' : World S)
      → ((r : ℕ) → g ≡ hits r → Holds key r w.data_cache)
      → fetched sys key fresh g w ≡ done ((0, found), w')
      → (r : ℕ) × (found ≡ some r) × Holds key r w'.data_cache
  unfolding fetched
  fetched-Holds key fresh waits found w w' held ran = absurd (ground (arith, ran))
  fetched-Holds key fresh (hits r) found w w' held ran =
      let q : (found ≡ some r) × (w' ≡ w) = ground (arith, ran) in (r, q.0, rw q.1 (held r refl))
  fetched-Holds key fresh misses found w w' held ran = fetch_missing-Holds key fresh found w w' ran

  -- The block that `do_rw` works on is in the cache under its key.
  pub fetch_block-Holds :
      (key : Str) (fresh : Bool) (found : Option ℕ) (w w' : World S)
      → fetch_block sys key fresh w ≡ done ((0, found), w')
      → (r : ℕ) × (found ≡ some r) × Holds key r w'.data_cache
  unfolding fetch_block
  fetch_block-Holds key fresh found w w' ran =
      let (g, u, got, rest) =
        bind-done (data_cache_get sys key) (fetched sys key fresh) w w' (0, found) ran in
      fetched-Holds key fresh g found u w'
        (λ r hit. data_cache_get-Holds key r w u (ground (arith, got, hit))) rest

  -- A block that is in the cache and has updates is fetched again, at any time, and the blocks stay
  -- as they are.
  pub fetch_block-dirty :
      (key : Str) (fresh : Bool) (r : ℕ) (w : World S)
      → Holds key r w.data_cache
      → di_dirty w r ≡ true
      → (w' : World S) × (fetch_block sys key fresh w ≡ done ((0, some r), w'))
        × (w'.data_infos ≡ w.data_infos)
  unfolding fetch_block data_cache_get fetched
  fetch_block-dirty key fresh r w holds busy =
      let (now, s) = sys.steady_now w.env in
      let v : World S = record w { env = s } in
      let (c', found, _) =
        get-dirty (di_key v) (di_dirty v) sys.ticks key r now w.data_cache holds busy in
      (record v { data_cache = c' }, ground (arith, found), refl)

  -- A block that the cache lacks is empty in a write that makes the file grow.
  pub fetch_block-fresh :
      (key : Str) (r : ℕ) (w u w' : World S)
      → data_cache_get sys key w ≡ done (misses, u)
      → fetch_block sys key true w ≡ done ((0, some r), w')
      → get_elem? w'.data_infos r ≡ some (new_data_info key [] [])
  unfolding fetch_block fetched
  fetch_block-fresh key r w u w' missed ran =
      fetch_missing-fresh key r u w' (ground (arith, missed, ran))
