-- ===== src/LruCache/Defs.antt =====
-- The class template `LRUcache`. An iterator into the `std::list` is the number of its node, and the
-- list holds its nodes by number, the front first; `lookup` maps a key to a node. The functions
-- `get_key` and `dirty` that the constructor takes are parameters, and so is the resolution of the
-- steady clock, in ticks per millisecond; `now` is the reading of that clock. Each method runs under
-- the mutex: a call that waits for `unblocked` answers `waits` and is made again after a wake-up.
use h_flat.Base.{
  ℕ, ◌+◌, ◌-◌, ◌/◌, Bool, true, false, not, ◌&&◌, ◌||◌, List, [], ◌∷◌, Option, none, some, ltb, eqb,
  if◌then◌else◌, Eq, ◌==◌, nat_eq, Dict, lookup, insert, erase, has_key, length, reverse, Exec, ok,
  fault, undefined, ◌>>=◌,
}

-- The data of a cache entry and the time it was stored or revalidated.
pub record Entry (D : Type 0) : Type 0 where
  pub item : D
  pub time : ℕ

pub record LruCache (K D : Type 0) : Type 0 where
  pub cache : Dict ℕ (Entry D)
  pub lookup_map : Dict K ℕ
  pub blocked_keys : List K
  pub expiration_time : ℕ
  pub capacity : ℕ
  pub next_node : ℕ

pub data Got (D : Type 0) : Type 0 where
  waits misses : Got D
  hits : D → Got D

unfoldable pub new_cache : {K D : Type 0} → ℕ → ℕ → LruCache K D
new_cache expiration capacity = record {
  cache = [];
  lookup_map = [];
  blocked_keys = [];
  expiration_time = expiration;
  capacity = capacity;
  next_node = 0;
}

unfoldable pub leads_to : ℕ → Option ℕ → Bool
leads_to n none = false
leads_to n (some m) = eqb n m

module _ {K : Type 0} ⦃e : Eq K⦄ where
  -- `std::unordered_set`: `count` and `erase`.
  unfoldable pub count_key : K → List K → Bool
  count_key k [] = false
  count_key k (j ∷ ks) = j == k || count_key k ks

  unfoldable pub erase_key : K → List K → List K
  erase_key k [] = []
  erase_key k (j ∷ ks) = let rest = erase_key k ks in if j == k then rest else j ∷ rest

module _ {K D : Type 0} ⦃e : Eq K⦄ (get_key : D → K) (dirty : D → Bool) (ticks : ℕ) where
  -- Dirty entries do not expire, and an expiration time of 0 turns expiration off.
  unfoldable pub expired : ℕ → LruCache K D → Entry D → Bool
  expired now c x =
      not (dirty x.item)
      && (not (eqb c.expiration_time 0) && ltb c.expiration_time ((now - x.time) / ticks))

  -- `remove`: `lookup[k]` of a missing key is a fresh iterator, which `std::list::erase` may not take.
  unfoldable pub remove : K → LruCache K D → Exec (LruCache K D)
  remove k c = elim (lookup k c.lookup_map) [
    | none ↦ fault undefined
    | some n ↦ ok (record c { cache = erase n c.cache; lookup_map = erase k c.lookup_map })
  ]

  unfoldable pub get : K → ℕ → LruCache K D → Exec (Got D × LruCache K D)
  unfolding expired remove count_key
  get k now c = if count_key k c.blocked_keys then ok (waits, c) else elim (lookup k c.lookup_map) [
    | none ↦ ok (misses, c)
    | some n ↦ elim (lookup n c.cache) [
      | none ↦ fault undefined
      | some x ↦
          if expired now c x
          then (remove k c >>= λ c'. ok (misses, c'))
          else ok (hits x.item, record c { cache = (n, x) ∷ erase n c.cache })
    ]
  ]

  -- The loop of `add` from the back of the list; the first argument is what lies at the reverse
  -- iterator and in front of it, nearest first. After an erase the reverse iterator stands on the
  -- node in front of the erased one, and `++it` steps over that node: it is not examined. When the
  -- erased node was the front of the list, `++it` decrements `begin()`. Where the key of an entry
  -- leads to another node the model stops: that cache does not satisfy `IsValid`.
  unfoldable pub evict : List (ℕ × Entry D) → LruCache K D → Exec (LruCache K D)
  unfolding remove leads_to
  evict [] c = ok c
  evict ((n, x) ∷ []) c =
      if ltb (length c.cache) c.capacity
      then ok c
      else if dirty x.item
      then ok c
      else fault undefined
  evict ((n, x) ∷ (n', x') ∷ rest) c =
      let passed = evict ((n', x') ∷ rest) c in
      let skipped = λ (c' : LruCache K D). evict rest c' in
      if ltb (length c.cache) c.capacity
      then ok c
      else if dirty x.item
      then passed
      else (if leads_to n (lookup (get_key x.item) c.lookup_map)
          then (remove (get_key x.item) c >>= skipped)
          else fault undefined)

  -- The end of `add`: the new entry in front, its key mapped, and a blocked key released.
  unfoldable pub push_front : K → D → ℕ → LruCache K D → LruCache K D
  push_front k d now c = record c {
    cache = (c.next_node, record { item = d; time = now }) ∷ c.cache;
    lookup_map = insert k c.next_node c.lookup_map;
    blocked_keys = erase_key k c.blocked_keys;
    next_node = c.next_node + 1;
  }

  unfoldable pub make_room : K → D → ℕ → LruCache K D → Exec (Bool × LruCache K D)
  unfolding evict push_front
  make_room k d now c = evict (reverse c.cache) c >>= λ c'. ok (true, push_front k d now c')

  unfoldable pub add : K → D → ℕ → LruCache K D → Exec (Bool × LruCache K D)
  unfolding expired remove make_room
  add k d now c = elim (lookup k c.lookup_map) [
    | none ↦ make_room k d now c
    | some n ↦ elim (lookup n c.cache) [
      | none ↦ fault undefined
      | some x ↦ if expired now c x then (remove k c >>= make_room k d now) else ok (false, c)
    ]
  ]

  unfoldable pub block : K → LruCache K D → Bool × LruCache K D
  block k c =
      if count_key k c.blocked_keys
      then (false, c)
      else (true, record c { blocked_keys = k ∷ c.blocked_keys })

  unfoldable pub revalidate : K → ℕ → LruCache K D → Exec (LruCache K D)
  revalidate k now c = elim (lookup k c.lookup_map) [
    | none ↦ ok c
    | some n ↦ elim (lookup n c.cache) [
      | none ↦ fault undefined
      | some x ↦ ok (record c { cache = insert n (record x { time = now }) c.cache })
    ]
  ]

  unfoldable pub invalidate : K → LruCache K D → Exec (LruCache K D)
  unfolding remove
  invalidate k c = (if has_key k c.lookup_map then remove k c else ok c) >>= λ c'.
      ok (record c' { blocked_keys = erase_key k c'.blocked_keys })
