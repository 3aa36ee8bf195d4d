-- ===== src/LruCache/Eviction.antt =====
-- `add` and the loop that makes room: what may be evicted, and when the loop is well defined.
use h_flat.Base.{
  ℕ, ◌≤◌, ◌≡◌, Bool, true, false, List, [], ◌∷◌, none, some, Eq, nat_eq, lookup, lookup-erase,
  NodupKeys, length, length-erase, ok, arith, Bool-cases, inl, inr, eq_refl, reverse, Option-cases,
  All, All-imp, All-reverse, NodupKeys-lookup, Exec-cases, ◌⊎◌, ltb,
}
use h_flat.LruCache.Defs.{Entry, LruCache, expired, evict, push_front, make_room, add}
use h_flat.LruCache.Invariant.{IsValid, without, without-IsValid}

-- What an iteration of the loop keeps: an entry of the list is still what the cache holds under its
-- node, or the node is gone.
abbrev Agrees : {K D : Type 0} → LruCache K D → ℕ × Entry D → Type 0
Agrees {D} c (n, x) = (y : Entry D) → lookup n c.cache ≡ some y → y ≡ x

module _ {K D : Type 0} ⦃e : Eq K⦄ (get_key : D → K) (dirty : D → Bool) (ticks : ℕ) where
  All-Agrees-without :
      (k : K) (n : ℕ) (c : LruCache K D) (l : List (ℕ × Entry D))
      → All (Agrees c) l
      → All (Agrees (without get_key k n c)) l
  All-Agrees-without k n c [] a = tt
  All-Agrees-without k n c ((m, x) ∷ l) (here, a) =
      (λ y h. here y (ground (arith, lookup-erase m n c.cache)), All-Agrees-without k n c l a)

  -- The relation that each iteration keeps between the cache before and after.
  pub record Shrinks (c c' : LruCache K D) : Type 0 where
    pub valid : IsValid get_key c'
    pub keeps_dirty :
        (n : ℕ) (x : Entry D)
        → lookup n c.cache ≡ some x
        → dirty x.item ≡ true
        → lookup n c'.cache ≡ some x
    pub unmapped : (k : K) → lookup k c.lookup_map ≡ none → lookup k c'.lookup_map ≡ none
    pub smaller : length c'.cache ≤ length c.cache

  Shrinks-refl : (c : LruCache K D) → IsValid get_key c → Shrinks c c
  Shrinks-refl c v = record {
    valid = v;
    keeps_dirty = λ n x h d. h;
    unmapped = λ k h. h;
    smaller = omega arith;
  }

  Shrinks-trans : {b c d : LruCache K D} → Shrinks b c → Shrinks c d → Shrinks b d
  Shrinks-trans s t = record {
    valid = t.valid;
    keeps_dirty = λ n x h d. t.keeps_dirty n x (s.keeps_dirty n x h d) d;
    unmapped = λ k h. t.unmapped k (s.unmapped k h);
    smaller = omega (arith, s.smaller, t.smaller);
  }

  -- The entry at the iterator is clean and its key leads to its node.
  Shrinks-without :
      (n : ℕ) (x : Entry D) (c : LruCache K D)
      → IsValid get_key c
      → Agrees c (n, x)
      → dirty x.item ≡ false
      → lookup (get_key x.item) c.lookup_map ≡ some n
      → Shrinks c (without get_key (get_key x.item) n c)
  Shrinks-without n x c v agrees clean at =
      let k = get_key x.item in
      let (y, listed, _) = v.keyed k n at in
      record {
        valid = without-IsValid get_key k n c at v;
        keeps_dirty = λ m z h d. ground (arith, lookup-erase m n c.cache, agrees z, eq_refl n);
        unmapped = λ j h. ground (arith, lookup-erase j k c.lookup_map);
        smaller = omega (arith, length-erase n y c.cache v.distinct listed);
      }

  evict-Shrinks :
      (l : List (ℕ × Entry D)) (c c' : LruCache K D)
      → IsValid get_key c
      → All (Agrees c) l
      → evict get_key dirty ticks l c ≡ ok c'
      → Shrinks c c'
  unfolding evict
  evict-Shrinks [] c c' v a h = let same : c ≡ c' = ground arith in rw (← same) (Shrinks-refl c v)
  evict-Shrinks ((n, x) ∷ []) c c' v a h =
      let same : c ≡ c' = ground arith in rw (← same) (Shrinks-refl c v)
  evict-Shrinks ((n, x) ∷ (n', x') ∷ rest) c c' v (here, a) h =
      let k = get_key x.item in
      elim (Bool-cases (ltb (length c.cache) c.capacity)) [
        | inl room ↦ let same : c ≡ c' = ground arith in rw (← same) (Shrinks-refl c v)
        | inr full ↦ elim (Bool-cases (dirty x.item)) [
          | inl d ↦ evict-Shrinks ((n', x') ∷ rest) c c' v a (ground arith)
          | inr clean ↦
              let at : lookup k c.lookup_map ≡ some n = ground arith in
              Shrinks-trans (Shrinks-without n x c v here clean at) (
                evict-Shrinks rest (without get_key k n c) c' (without-IsValid get_key k n c at v)
                  (All-Agrees-without k n c rest a.1) (ground (arith, at)))
        ]
      ]

  listed-Agrees : (c : LruCache K D) → NodupKeys c.cache → All (Agrees c) (reverse c.cache)
  listed-Agrees c u = All-reverse (Agrees c) c.cache (
      All-imp (λ (n, x). lookup n c.cache ≡ some x) (Agrees c) (λ (n, x) h y g. ground arith)
        c.cache (NodupKeys-lookup c.cache u))

  -- Without an unexpired entry under the key, `add` shrinks the cache and pushes the new entry.
  pub record Added (k : K) (d : D) (now : ℕ) (c c' : LruCache K D) : Type 0 where
    pub room : LruCache K D
    pub shrinks : Shrinks c room
    pub free : lookup k room.lookup_map ≡ none
    pub pushed : c' ≡ push_front get_key dirty ticks k d now room

  make_room-Added :
      (k : K) (d : D) (now : ℕ) (c c' : LruCache K D) (b : Bool)
      → IsValid get_key c
      → lookup k c.lookup_map ≡ none
      → make_room get_key dirty ticks k d now c ≡ ok (b, c')
      → (b ≡ true) × Added k d now c c'
  unfolding make_room
  make_room-Added k d now c c' b v free h =
      elim (Exec-cases (evict get_key dirty ticks (reverse c.cache) c)) [
        | inl (f, broken) ↦ absurd (ground arith)
        | inr (r, ran) ↦
            let s = evict-Shrinks (reverse c.cache) c r v (listed-Agrees c v.distinct) ran in
            (
              ground (arith, ran),
              record {
                room = r;
                shrinks = s;
                free = s.unmapped k free;
                pushed = ground (arith, ran);
              },
            )
      ]

  without-free :
      (k : K) (n : ℕ) (c : LruCache K D) → lookup k (without get_key k n c).lookup_map ≡ none
  without-free k n c = ground (arith, lookup-erase k k c.lookup_map, e.agrees_iff k k)

  -- An expired entry is clean, so removing it is a step of the same kind.
  Shrinks-expired :
      (k : K) (n : ℕ) (x : Entry D) (now : ℕ) (c : LruCache K D)
      → IsValid get_key c
      → lookup k c.lookup_map ≡ some n
      → lookup n c.cache ≡ some x
      → get_key x.item ≡ k
      → expired get_key dirty ticks now c x ≡ true
      → Shrinks c (without get_key k n c)
  unfolding expired
  Shrinks-expired k n x now c v at listed is_key old =
      rw (← is_key) (Shrinks-without n x c v (λ y h. ground arith) (ground arith) (ground arith))

  pub add-cases :
      (k : K) (d : D) (now : ℕ) (c c' : LruCache K D) (b : Bool)
      → IsValid get_key c
      → add get_key dirty ticks k d now c ≡ ok (b, c')
      → ((b ≡ false) × (c' ≡ c)) ⊎ ((b ≡ true) × Added k d now c c')
  unfolding add
  add-cases k d now c c' b v h = elim (Option-cases (lookup k c.lookup_map)) [
    | inl free ↦ inr (make_room-Added k d now c c' b v free (ground arith))
    | inr (n, at) ↦
        let (x, listed, is_key) = v.keyed k n at in
        elim (Bool-cases (expired get_key dirty ticks now c x)) [
          | inr new ↦ inl (ground (arith, at, listed, new))
          | inl old ↦
              let s = Shrinks-expired k n x now c v at listed is_key old in
              let (ret, added) =
                make_room-Added k d now (without get_key k n c) c' b s.valid (without-free k n c)
                  (ground (arith, at, listed, old)) in
              inr (
                ret,
                record {
                  room = added.room;
                  shrinks = Shrinks-trans s added.shrinks;
                  free = added.free;
                  pushed = added.pushed;
                },
              )
        ]
  ]
