-- ===== src/LruCache/Adding.antt =====
-- The method `add`: validity, reading back, dirty entries, and the loop's two ends.
use mathlib.Core.List.{reverse-cons}
use h_flat.Base.{
  ℕ, ◌-◌, ◌/◌, ◌≤◌, ◌<◌, ◌≡◌, refl, Bool, true, false, List, [], ◌∷◌, ◌++◌, none, some, Eq, nat_eq,
  lookup, erase, lookup-insert, length, length-erase, ok, fault, undefined, arith, Bool-cases, inl,
  inr, eq_refl, reverse, All, All-reverse, NodupKeys-lookup, ltb, length-reverse,
}
use h_flat.LruCache.Defs.{
  Entry, LruCache, hits, expired, get, evict, push_front, make_room, add, count_key, erase_key,
}
use h_flat.LruCache.Invariant.{IsValid, without, push_front-IsValid}
use h_flat.LruCache.Eviction.{add-cases}

module _ {K : Type 0} ⦃e : Eq K⦄ where
  pub count_key-erase_key : (k : K) (ks : List K) → count_key k (erase_key k ks) ≡ false
  unfolding count_key erase_key
  count_key-erase_key k [] = refl
  count_key-erase_key k (j ∷ ks) = ground (arith, count_key-erase_key k ks)

module _ {K D : Type 0} ⦃e : Eq K⦄ (get_key : D → K) (dirty : D → Bool) (ticks : ℕ) where
  -- If a call of `add` on a valid cache, with a datum under its own key, ends with an answer, the
  -- cache is valid after it.
  pub add-IsValid :
      (k : K) (d : D) (now : ℕ) (c c' : LruCache K D) (b : Bool)
      → get_key d ≡ k
      → IsValid get_key c
      → add get_key dirty ticks k d now c ≡ ok (b, c')
      → IsValid get_key c'
  add-IsValid k d now c c' b is_key v h = elim (add-cases get_key dirty ticks k d now c c' b v h) [
    | inl (_, same) ↦ rw same v
    | inr (_, a) ↦
        rw a.pushed
          (push_front-IsValid get_key dirty ticks k d now a.room is_key a.free a.shrinks.valid)
  ]

  -- If a call of `add` on a valid cache ends with an answer, an entry with updates that are not yet
  -- flushed is still there, under its node: making room never loses it.
  pub add_dirty :
      (k : K) (d : D) (now : ℕ) (c c' : LruCache K D) (b : Bool) (n : ℕ) (x : Entry D)
      → IsValid get_key c
      → add get_key dirty ticks k d now c ≡ ok (b, c')
      → lookup n c.cache ≡ some x
      → dirty x.item ≡ true
      → lookup n c'.cache ≡ some x
  unfolding push_front lookup
  add_dirty k d now c c' b n x v h at busy =
      elim (add-cases get_key dirty ticks k d now c c' b v h) [
        | inl (_, same) ↦ rw same at
        | inr (_, a) ↦
            let kept = a.shrinks.keeps_dirty n x at busy in
            rw a.pushed (ground (arith, kept, a.shrinks.valid.fresh n x kept))
      ]

  no_time : (now : ℕ) → (now - now) / ticks ≡ 0
  no_time now = grind arith

  expired_new :
      (d : D) (now : ℕ) (c : LruCache K D)
      → expired get_key dirty ticks now c (record { item = d; time = now }) ≡ false
  unfolding expired
  expired_new d now c = ground (arith, no_time now)

  get-push_front :
      (k : K) (d : D) (now : ℕ) (r : LruCache K D)
      → (c'' : LruCache K D) × (get get_key dirty ticks k now
            (push_front get_key dirty ticks k d now r)
          ≡ ok (hits d, c''))
  unfolding get push_front lookup
  get-push_front k d now r =
      let c = push_front get_key dirty ticks k d now r in
      let x : Entry D = record { item = d; time = now } in
      (
        record c { cache = (r.next_node, x) ∷ erase r.next_node c.cache },
        ground (
          arith,
          count_key-erase_key k r.blocked_keys,
          lookup-insert k k r.next_node r.lookup_map,
          eq_refl k,
          expired_new d now c,
        ),
      )

  -- After an `add` to a valid cache that answers `true`, a `get` of the key at the same time does
  -- not wait, even if the key was blocked, and finds the datum.
  get-add :
      (k : K) (d : D) (now : ℕ) (c c' : LruCache K D)
      → IsValid get_key c
      → add get_key dirty ticks k d now c ≡ ok (true, c')
      → (c'' : LruCache K D) × (get get_key dirty ticks k now c' ≡ ok (hits d, c''))
  get-add k d now c c' v h = elim (add-cases get_key dirty ticks k d now c c' true v h) [
    | inl (no_add, _) ↦ absurd (ground arith)
    | inr (_, a) ↦ rw a.pushed (get-push_front k d now a.room)
  ]

  abbrev IsClean : LruCache K D → ℕ × Entry D → Type 0
  IsClean c (n, x) = (lookup n c.cache ≡ some x) × (dirty x.item ≡ false)

  All-zip :
      (c : LruCache K D) (l : List (ℕ × Entry D))
      → All (λ (n, x). lookup n c.cache ≡ some x) l
      → All (λ (n, x). dirty x.item ≡ false) l
      → All (IsClean c) l
  All-zip c [] a b = tt
  All-zip c ((n, x) ∷ l) a b = ((a.0, b.0), All-zip c l a.1 b.1)

  -- The loop on a cache of clean entries that is not over its capacity evicts one entry at most, the
  -- last, and ends with room for another.
  evict_clean :
      (l : List (ℕ × Entry D)) (c : LruCache K D)
      → IsValid get_key c
      → All (IsClean c) l
      → length l ≡ length c.cache
      → length c.cache ≤ c.capacity
      → 1 < c.capacity
      → (c' : LruCache K D) × (evict get_key dirty ticks l c ≡ ok c')
        × (length c'.cache < c.capacity)
        × (c'.capacity ≡ c.capacity)
  unfolding evict
  evict_clean [] c v a size fits two = (c, refl, omega arith, refl)
  evict_clean ((n, x) ∷ []) c v a size fits two = (c, ground arith, omega arith, refl)
  evict_clean ((n, x) ∷ (n', x') ∷ rest) c v a size fits two =
      elim (Bool-cases (ltb (length c.cache) c.capacity)) [
        | inl room ↦ (c, ground arith, ground arith, refl)
        | inr full ↦
            let at = v.mapped n x a.0.0 in
            let c' = without get_key (get_key x.item) n c in
            let less = length-erase n x c.cache v.distinct a.0.0 in
            (c', ground (arith, at, stop rest c' (omega arith)), omega (arith, less), refl)
      ]
    where
      stop :
          (l : List (ℕ × Entry D)) (c' : LruCache K D)
          → length c'.cache < c'.capacity
          → evict get_key dirty ticks l c' ≡ ok c'
      stop [] c' h = refl
      stop (y ∷ []) c' h = ground arith
      stop (y ∷ z ∷ l) c' h = ground arith

  -- Adding a new key to a valid cache of clean entries, within a capacity of two or more, succeeds
  -- and does not exceed the capacity.
  add_bounded :
      (k : K) (d : D) (now : ℕ) (c : LruCache K D)
      → IsValid get_key c
      → lookup k c.lookup_map ≡ none
      → All (λ (n, x). dirty x.item ≡ false) c.cache
      → length c.cache ≤ c.capacity
      → 1 < c.capacity
      → (c' : LruCache K D) × (add get_key dirty ticks k d now c ≡ ok (true, c'))
        × (length c'.cache ≤ c.capacity)
  unfolding add make_room push_front
  add_bounded k d now c v free clean fits two =
      let (r, ran, room, same) =
        evict_clean (reverse c.cache) c v
          (All-reverse (IsClean c) c.cache
            (All-zip c c.cache (NodupKeys-lookup c.cache v.distinct) clean))
          (length-reverse c.cache) fits two in
      (push_front get_key dirty ticks k d now r, ground (arith, free, ran), omega arith)

  -- When every entry but the front one is dirty and the cache is full, the loop erases the front
  -- entry and then steps its iterator past the beginning of the list.
  evict_front :
      (l : List (ℕ × Entry D)) (n : ℕ) (x : Entry D) (c : LruCache K D)
      → All (λ (m, y). dirty y.item ≡ true) l
      → dirty x.item ≡ false
      → c.capacity ≤ length c.cache
      → evict get_key dirty ticks (l ++ ((n, x) ∷ [])) c ≡ fault undefined
  unfolding evict
  evict_front [] n x c all clean full = ground arith
  evict_front ((m, y) ∷ []) n x c all clean full = ground arith
  evict_front ((m, y) ∷ (m', y') ∷ l) n x c all clean full =
      ground (arith, evict_front ((m', y') ∷ l) n x c all.1 clean full)

  -- Adding a new key to a full cache whose front entry alone is clean is undefined behaviour.
  pub add_front :
      (k : K) (d : D) (now n : ℕ) (x : Entry D) (l : List (ℕ × Entry D)) (c : LruCache K D)
      → c.cache ≡ (n, x) ∷ l
      → dirty x.item ≡ false
      → All (λ (m, y). dirty y.item ≡ true) l
      → c.capacity ≤ length c.cache
      → lookup k c.lookup_map ≡ none
      → add get_key dirty ticks k d now c ≡ fault undefined
  unfolding add make_room
  add_front k d now n x l c listed clean all full free =
      let stuck : evict get_key dirty ticks (reverse c.cache) c ≡ fault undefined =
        simp (listed, reverse-cons)
          (evict_front (reverse l) n x c (All-reverse (λ (m, y). dirty y.item ≡ true) l all) clean
            full) in
      ground (arith, free, stuck)
