-- ===== src/LruCache/Invariant.antt =====
-- The two structures of the cache agree, and every method keeps them so.
use h_flat.Base.{
  ℕ, ◌<◌, ◌≡◌, refl, ◌≢◌, Bool, false, List, ◌∷◌, none, some, Eq, ◌==◌, nat_eq, Dict, lookup,
  insert, erase, lookup-insert, lookup-erase, NodupKeys, erase-NodupKeys, insert-NodupKeys, ok,
  arith, Bool-cases, inl, inr, Option-cases,
}
use h_flat.LruCache.Defs.{
  Entry, LruCache, Got, waits, misses, hits, new_cache, expired, get, push_front, revalidate,
  invalidate, count_key, erase_key,
}

module _ {K D : Type 0} ⦃e : Eq K⦄ (get_key : D → K) where
  -- `lookup` maps exactly the keys of the listed data, each to its node; no node is listed twice.
  pub record IsValid (c : LruCache K D) : Type 0 where
    pub keyed :
        (k : K) (n : ℕ)
        → lookup k c.lookup_map ≡ some n
        → (x : Entry D) × (lookup n c.cache ≡ some x) × (get_key x.item ≡ k)
    pub mapped :
        (n : ℕ) (x : Entry D)
        → lookup n c.cache ≡ some x
        → lookup (get_key x.item) c.lookup_map ≡ some n
    pub fresh : (n : ℕ) (x : Entry D) → lookup n c.cache ≡ some x → n < c.next_node
    pub distinct : NodupKeys c.cache

  -- The cache without a key and its node.
  abbrev pub without : K → ℕ → LruCache K D → LruCache K D
  without k n c = record c { cache = erase n c.cache; lookup_map = erase k c.lookup_map }

  pub without-IsValid :
      (k : K) (n : ℕ) (c : LruCache K D)
      → lookup k c.lookup_map ≡ some n
      → IsValid c
      → IsValid (without k n c)
  without-IsValid k n c h v =
      let (y, at_n, key_y) = v.keyed k n h in
      record {
        keyed = λ j m p.
            let q : (lookup j c.lookup_map ≡ some m) × ((k == j) ≡ false) =
              ground (arith, lookup-erase j k c.lookup_map) in
            let (x, at_m, key_x) = v.keyed j m q.0 in
            (x, ground (arith, lookup-erase m n c.cache, e.agrees_iff k j), key_x);
        mapped = λ m x p.
            let q : (lookup m c.cache ≡ some x) × (m ≢ n) =
              ground (arith, lookup-erase m n c.cache) in
            ground (
              arith,
              lookup-erase (get_key x.item) k c.lookup_map,
              e.agrees_iff k (get_key x.item),
              v.mapped m x q.0,
            );
        fresh = λ m x p. ground (arith, lookup-erase m n c.cache, v.fresh m x);
        distinct = erase-NodupKeys n c.cache v.distinct;
      }

  -- Moving a node to the front changes no node.
  lookup-front :
      (m n : ℕ) (x : Entry D) (l : Dict ℕ (Entry D))
      → lookup n l ≡ some x
      → lookup m ((n, x) ∷ erase n l) ≡ lookup m l
  unfolding lookup
  lookup-front m n x l h = ground (arith, lookup-erase m n l)

  front-IsValid :
      (n : ℕ) (x : Entry D) (c : LruCache K D)
      → lookup n c.cache ≡ some x
      → IsValid c
      → IsValid (record c { cache = (n, x) ∷ erase n c.cache })
  front-IsValid n x c h v = record {
    keyed = λ j m p.
        let (y, at_m, key_y) = v.keyed j m p in
        (y, ground (arith, lookup-front m n x c.cache h), key_y);
    mapped = λ m y p. v.mapped m y (ground (arith, lookup-front m n x c.cache h));
    fresh = λ m y p. v.fresh m y (ground (arith, lookup-front m n x c.cache h));
    distinct = (ground (arith, lookup-erase n n c.cache), erase-NodupKeys n c.cache v.distinct);
  }

  unlisted : (c : LruCache K D) → IsValid c → lookup c.next_node c.cache ≡ none
  unlisted c v = elim (Option-cases (lookup c.next_node c.cache)) [
    | inl absent ↦ absent
    | inr (x, h) ↦
        absurd (let below : c.next_node < c.next_node = v.fresh c.next_node x h in omega arith)
  ]

  -- A new entry under a key that is not mapped.
  pub push_front-IsValid :
      (dirty : D → Bool) (ticks : ℕ) (k : K) (d : D) (now : ℕ) (c : LruCache K D)
      → get_key d ≡ k
      → lookup k c.lookup_map ≡ none
      → IsValid c
      → IsValid (push_front get_key dirty ticks k d now c)
  unfolding push_front lookup
  push_front-IsValid dirty ticks k d now c is_key free v = record {
    keyed = λ j m p. elim (Bool-cases (k == j)) [
      | inl same ↦ (
        record { item = d; time = now },
        ground (arith, lookup-insert j k c.next_node c.lookup_map),
        ground (arith, e.agrees_iff k j),
      )
      | inr other ↦
          let q : lookup j c.lookup_map ≡ some m =
            ground (arith, lookup-insert j k c.next_node c.lookup_map) in
          let (x, at_m, key_x) = v.keyed j m q in (x, ground (arith, v.fresh m x at_m), key_x)
    ];
    mapped = λ m x p. ground (
      arith,
      lookup-insert (get_key x.item) k c.next_node c.lookup_map,
      e.agrees_iff k (get_key x.item),
      v.mapped m x,
    );
    fresh = λ m x p. ground (arith, v.fresh m x);
    distinct = (unlisted c v, v.distinct);
  }

  touch-IsValid :
      (n : ℕ) (x y : Entry D) (c : LruCache K D)
      → lookup n c.cache ≡ some x
      → get_key y.item ≡ get_key x.item
      → IsValid c
      → IsValid (record c { cache = insert n y c.cache })
  touch-IsValid n x y c h same v = record {
    keyed = λ j m p. elim (Bool-cases (n == m)) [
      | inl e₁ ↦ (y, ground (arith, lookup-insert m n y c.cache), ground (arith, v.keyed j m p))
      | inr e₁ ↦
          let (z, at_m, key_z) = v.keyed j m p in
          (z, ground (arith, lookup-insert m n y c.cache), key_z)
    ];
    mapped = λ m z p. ground (arith, lookup-insert m n y c.cache, v.mapped m z, v.mapped n x h);
    fresh = λ m z p. ground (arith, lookup-insert m n y c.cache, v.fresh m z, v.fresh n x h);
    distinct = insert-NodupKeys n y c.cache v.distinct;
  }

  pub reblock-IsValid :
      (bs : List K) (c : LruCache K D) → IsValid c → IsValid (record c { blocked_keys = bs })
  reblock-IsValid bs c v = record {
    keyed = v.keyed;
    mapped = v.mapped;
    fresh = v.fresh;
    distinct = v.distinct;
  }

module _ {K D : Type 0} ⦃e : Eq K⦄ (get_key : D → K) (dirty : D → Bool) (ticks : ℕ) where
  -- A new cache is valid.
  pub new_cache-IsValid :
      (expiration capacity : ℕ) → IsValid get_key (new_cache {K = K} {D = D} expiration capacity)
  unfolding new_cache lookup
  new_cache-IsValid expiration capacity = record {
    keyed = λ k n h. cc;
    mapped = λ n x h. cc;
    fresh = λ n x h. cc;
    distinct = tt;
  }

  -- On a valid cache `get` never fails, and leaves the cache valid.
  pub get-IsValid :
      (k : K) (now : ℕ) (c : LruCache K D)
      → IsValid get_key c
      → (g : Got D) × (c' : LruCache K D) × (get get_key dirty ticks k now c ≡ ok (g, c'))
        × IsValid get_key c'
  unfolding get
  get-IsValid k now c v = elim (Bool-cases (count_key k c.blocked_keys)) [
    | inl b ↦ (waits, c, rw b, v)
    | inr b ↦ elim (Option-cases (lookup k c.lookup_map)) [
      | inl absent ↦ (misses, c, rw (b, absent), v)
      | inr (n, at) ↦
          let (x, listed, _) = v.keyed k n at in
          elim (Bool-cases (expired get_key dirty ticks now c x)) [
            | inl old ↦ (
              misses,
              without get_key k n c,
              ground (arith, at, listed, old),
              without-IsValid get_key k n c at v,
            )
            | inr new ↦ (
              hits x.item,
              record c { cache = (n, x) ∷ erase n c.cache },
              ground (arith, at, listed, new),
              front-IsValid get_key n x c listed v,
            )
          ]
    ]
  ]

  -- On a valid cache `invalidate` never fails: it leaves the cache valid, without the key, and
  -- takes the key off the blocked ones.
  pub invalidate-IsValid :
      (k : K) (c : LruCache K D)
      → IsValid get_key c
      → (c' : LruCache K D) × (invalidate get_key dirty ticks k c ≡ ok c')
        × IsValid get_key c'
        × (lookup k c'.lookup_map ≡ none)
        × (c'.blocked_keys ≡ erase_key k c.blocked_keys)
  unfolding invalidate
  invalidate-IsValid k c v =
      let bs = erase_key k c.blocked_keys in
      elim (Option-cases (lookup k c.lookup_map)) [
        | inl absent ↦ (
          record c { blocked_keys = bs },
          ground (arith, absent),
          reblock-IsValid get_key bs c v,
          absent,
          refl,
        )
        | inr (n, at) ↦ (
          record (without get_key k n c) { blocked_keys = bs },
          ground (arith, at),
          reblock-IsValid get_key bs (without get_key k n c) (without-IsValid get_key k n c at v),
          ground (arith, lookup-erase k k c.lookup_map, e.agrees_iff k k),
          refl,
        )
      ]

  -- On a valid cache `revalidate` never fails, and leaves the cache valid.
  pub revalidate-IsValid :
      (k : K) (now : ℕ) (c : LruCache K D)
      → IsValid get_key c
      → (c' : LruCache K D) × (revalidate get_key dirty ticks k now c ≡ ok c') × IsValid get_key c'
  unfolding revalidate
  revalidate-IsValid k now c v = elim (Option-cases (lookup k c.lookup_map)) [
    | inl absent ↦ (c, ground (arith, absent), v)
    | inr (n, at) ↦
        let (x, listed, _) = v.keyed k n at in
        (
          record c { cache = insert n (record x { time = now }) c.cache },
          ground (arith, at, listed),
          touch-IsValid get_key n x (record x { time = now }) c listed refl v,
        )
  ]
