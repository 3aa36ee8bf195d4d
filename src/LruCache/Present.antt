-- ===== src/LruCache/Present.antt =====
-- A datum that the cache holds under a key: where it comes from, and what finds it.
use h_flat.Base.{
  ℕ, ◌≡◌, refl, Bool, true, false, ◌∷◌, some, Eq, nat_eq, lookup, erase, lookup-insert, ok, arith,
  Bool-cases, Option-cases, Exec-cases, inl, inr, reverse,
}
use h_flat.LruCache.Defs.{
  Entry, LruCache, hits, expired, get, push_front, make_room, add, evict, remove, count_key,
}
use h_flat.LruCache.Adding.{count_key-erase_key}

-- `get` of the key neither waits nor misses, unless the entry has expired.
pub record Holds {K D : Type 0} ⦃e : Eq K⦄ (k : K) (d : D) (c : LruCache K D) : Type 0 where
  pub free : count_key k c.blocked_keys ≡ false
  pub node : ℕ
  pub entry : Entry D
  pub mapped : lookup k c.lookup_map ≡ some node
  pub listed : lookup node c.cache ≡ some entry
  pub same : entry.item ≡ d

module _ {K D : Type 0} ⦃e : Eq K⦄ (get_key : D → K) (dirty : D → Bool) (ticks : ℕ) where
  front-Holds :
      (k : K) (n : ℕ) (x : Entry D) (c : LruCache K D)
      → count_key k c.blocked_keys ≡ false
      → lookup k c.lookup_map ≡ some n
      → Holds k x.item (record c { cache = (n, x) ∷ erase n c.cache })
  unfolding lookup
  front-Holds k n x c free mapped = record {
    free = free;
    node = n;
    entry = x;
    mapped = mapped;
    listed = ground arith;
    same = refl;
  }

  -- What a `get` finds is held after it.
  pub get-hits :
      (k : K) (now : ℕ) (c c' : LruCache K D) (d : D)
      → get get_key dirty ticks k now c ≡ ok (hits d, c')
      → Holds k d c'
  unfolding get remove
  get-hits k now c c' d ran = elim (Bool-cases (count_key k c.blocked_keys)) [
    | inl held ↦ absurd (ground arith)
    | inr free ↦ elim (Option-cases (lookup k c.lookup_map)) [
      | inl absent ↦ absurd (ground arith)
      | inr (n, at) ↦ elim (Option-cases (lookup n c.cache)) [
        | inl missing ↦ absurd (ground arith)
        | inr (x, listed) ↦ elim (Bool-cases (expired get_key dirty ticks now c x)) [
          | inl old ↦ absurd (ground arith)
          | inr new ↦
              let q : (d ≡ x.item) × (c' ≡ record c { cache = (n, x) ∷ erase n c.cache }) =
                ground arith in
              rw (q.0, q.1) (front-Holds k n x c free at)
        ]
      ]
    ]
  ]

  push_front-Holds :
      (k : K) (d : D) (now : ℕ) (c : LruCache K D)
      → Holds k d (push_front get_key dirty ticks k d now c)
  unfolding push_front lookup
  push_front-Holds k d now c = record {
    free = count_key-erase_key k c.blocked_keys;
    node = c.next_node;
    entry = record { item = d; time = now };
    mapped = ground (arith, lookup-insert k k c.next_node c.lookup_map, e.agrees_iff k k);
    listed = ground arith;
    same = refl;
  }

  make_room-Holds :
      (k : K) (d : D) (now : ℕ) (c c' : LruCache K D) (b : Bool)
      → make_room get_key dirty ticks k d now c ≡ ok (b, c')
      → Holds k d c'
  unfolding make_room
  make_room-Holds k d now c c' b ran =
      elim (Exec-cases (evict get_key dirty ticks (reverse c.cache) c)) [
        | inl (f, broken) ↦ absurd (ground arith)
        | inr (r, evicted) ↦
            let q : c' ≡ push_front get_key dirty ticks k d now r = ground arith in
            rw q (push_front-Holds k d now r)
      ]

  -- What is added is held after it.
  pub add-Holds :
      (k : K) (d : D) (now : ℕ) (c c' : LruCache K D)
      → add get_key dirty ticks k d now c ≡ ok (true, c')
      → Holds k d c'
  unfolding add remove
  add-Holds k d now c c' ran = elim (Option-cases (lookup k c.lookup_map)) [
    | inl absent ↦ make_room-Holds k d now c c' true (ground arith)
    | inr (n, at) ↦ elim (Option-cases (lookup n c.cache)) [
      | inl missing ↦ absurd (ground arith)
      | inr (x, listed) ↦ elim (Bool-cases (expired get_key dirty ticks now c x)) [
        | inr new ↦ absurd (ground arith)
        | inl old ↦
            make_room-Holds k d now
              (record c { cache = erase n c.cache; lookup_map = erase k c.lookup_map }) c' true
              (ground arith)
      ]
    ]
  ]

  -- A datum that is held and dirty is found at any time.
  pub get-dirty :
      (k : K) (d : D) (now : ℕ) (c : LruCache K D)
      → Holds k d c
      → dirty d ≡ true
      → (c' : LruCache K D) × (get get_key dirty ticks k now c ≡ ok (hits d, c')) × Holds k d c'
  unfolding get expired
  get-dirty k d now c h busy =
      let c' : LruCache K D = record c { cache = (h.node, h.entry) ∷ erase h.node c.cache } in
      let found : get get_key dirty ticks k now c ≡ ok (hits d, c') =
        ground (arith, h.free, h.mapped, h.listed, h.same) in
      (c', found, get-hits k now c c' d found)
