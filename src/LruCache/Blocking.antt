-- ===== src/LruCache/Blocking.antt =====
-- Key blocking: of several clients that miss a key one loads it, and the others wait for it.
use h_flat.Base.{◌≡◌, Bool, true, false, ℕ, Eq, ok, arith, eq_refl}
use h_flat.LruCache.Defs.{LruCache, Got, waits, get, block, invalidate, count_key}
use h_flat.LruCache.Invariant.{IsValid, invalidate-IsValid}
use h_flat.LruCache.Adding.{count_key-erase_key}

module _ {K D : Type 0} ⦃e : Eq K⦄ (get_key : D → K) (dirty : D → Bool) (ticks : ℕ) where
  -- Once a client has blocked a key, a second `block` of it answers `false` and changes nothing,
  -- and a `get` of it waits, at any time, until the key is released.
  block_once :
      (k : K) (now : ℕ) (c c' : LruCache K D)
      → block get_key dirty ticks k c ≡ (true, c')
      → (block get_key dirty ticks k c' ≡ (false, c'))
        × (get get_key dirty ticks k now c' ≡ ok (waits, c'))
  unfolding block get count_key
  block_once k now c c' h = ground (arith, eq_refl k)

  -- On a valid cache `invalidate` releases the key, and the next `get` of it misses without
  -- waiting.
  get-invalidate :
      (k : K) (now : ℕ) (c : LruCache K D)
      → IsValid get_key c
      → (c' : LruCache K D) × (invalidate get_key dirty ticks k c ≡ ok c')
        × (get get_key dirty ticks k now c' ≡ ok (Got.misses, c'))
  unfolding get
  get-invalidate k now c v =
      let (c', ran, _, gone, released) = invalidate-IsValid get_key dirty ticks k c v in
      (c', ran, ground (arith, gone, released, count_key-erase_key k c.blocked_keys))
