-- ===== src/LruCache/Reach.antt =====
-- The methods of the cache as steps of its clients, in any order and at any time.
use h_flat.Base.{ℕ, ◌≡◌, refl, ap, Bool, Eq, ok, Exec, ◌∷◌, Bool-cases, inl, inr}
use h_flat.LruCache.Defs.{
  LruCache, Got, new_cache, get, add, block, invalidate, revalidate, count_key,
}
use h_flat.LruCache.Invariant.{
  IsValid, new_cache-IsValid, get-IsValid, invalidate-IsValid, revalidate-IsValid, reblock-IsValid,
}
use h_flat.LruCache.Adding.{add-IsValid}

ok-agrees : {A : Type 0} (m : Exec A) (a b : A) → m ≡ ok a → m ≡ ok b → a ≡ b
ok-agrees m a b h k = cc

module _ {K D : Type 0} ⦃e : Eq K⦄ (get_key : D → K) (dirty : D → Bool) (ticks : ℕ) where
  -- One call of a method that returns; a datum is added under its own key.
  pub data Step : LruCache K D → LruCache K D → Type 0 where
    got :
        {c c' : LruCache K D} (k : K) (now : ℕ) (g : Got D)
        → get get_key dirty ticks k now c ≡ ok (g, c')
        → Step c c'
    added :
        {c c' : LruCache K D} (d : D) (now : ℕ) (b : Bool)
        → add get_key dirty ticks (get_key d) d now c ≡ ok (b, c')
        → Step c c'
    blocked : {c : LruCache K D} (k : K) → Step c (block get_key dirty ticks k c).1
    invalidated :
        {c c' : LruCache K D} (k : K) → invalidate get_key dirty ticks k c ≡ ok c' → Step c c'
    revalidated :
        {c c' : LruCache K D} (k : K) (now : ℕ)
        → revalidate get_key dirty ticks k now c ≡ ok c'
        → Step c c'

  pub data Reach : LruCache K D → LruCache K D → Type 0 where
    here : {c : LruCache K D} → Reach c c
    next : {c c' c'' : LruCache K D} → Reach c c' → Step c' c'' → Reach c c''

  get_keeps :
      (k : K) (now : ℕ) (g : Got D) (c c' : LruCache K D)
      → get get_key dirty ticks k now c ≡ ok (g, c')
      → IsValid get_key c
      → IsValid get_key c'
  get_keeps k now g c c' h v =
      let (_, _, ran, valid) = get-IsValid get_key dirty ticks k now c v in
      rw (ap (λ t. t.1) (ok-agrees _ _ _ h ran)) valid

  block-IsValid :
      (k : K) (c : LruCache K D)
      → IsValid get_key c
      → IsValid get_key (block get_key dirty ticks k c).1
  unfolding block
  block-IsValid k c v = elim (Bool-cases (count_key k c.blocked_keys)) [
    | inl b ↦ rw b v
    | inr b ↦ rw b (reblock-IsValid get_key (k ∷ c.blocked_keys) c v)
  ]

  invalidate_keeps :
      (k : K) (c c' : LruCache K D)
      → invalidate get_key dirty ticks k c ≡ ok c'
      → IsValid get_key c
      → IsValid get_key c'
  invalidate_keeps k c c' h v =
      let (_, ran, valid, _, _) = invalidate-IsValid get_key dirty ticks k c v in
      rw (ok-agrees _ _ _ h ran) valid

  revalidate_keeps :
      (k : K) (now : ℕ) (c c' : LruCache K D)
      → revalidate get_key dirty ticks k now c ≡ ok c'
      → IsValid get_key c
      → IsValid get_key c'
  revalidate_keeps k now c c' h v =
      let (_, ran, valid) = revalidate-IsValid get_key dirty ticks k now c v in
      rw (ok-agrees _ _ _ h ran) valid

  Step-IsValid : {c c' : LruCache K D} → Step c c' → IsValid get_key c → IsValid get_key c'
  Step-IsValid (got k now g e) v = get_keeps k now g _ _ e v
  Step-IsValid (added d now b e) v =
      add-IsValid get_key dirty ticks (get_key d) d now _ _ b refl v e
  Step-IsValid (blocked k) v = block-IsValid k _ v
  Step-IsValid (invalidated k e) v = invalidate_keeps k _ _ e v
  Step-IsValid (revalidated k now e) v = revalidate_keeps k now _ _ e v

  kept : {c c' : LruCache K D} → IsValid get_key c → Reach c c' → IsValid get_key c'
  kept v here = v
  kept v (next s t) = Step-IsValid t (kept v s)

  -- Whatever calls its clients make, in any order and at any times, a cache that was new is valid
  -- after them, if each call returns and each datum is added under its own key; and `get`,
  -- `invalidate` and `revalidate` of any key return on it.
  pub Reach-IsValid :
      (expiration capacity : ℕ) (c : LruCache K D)
      → Reach (new_cache expiration capacity) c
      → IsValid get_key c
        × ((k : K) (now : ℕ)
            → (g : Got D) × (c' : LruCache K D) × (get get_key dirty ticks k now c ≡ ok (g, c')))
        × ((k : K) → (c' : LruCache K D) × (invalidate get_key dirty ticks k c ≡ ok c'))
        × ((k : K) (now : ℕ)
            → (c' : LruCache K D) × (revalidate get_key dirty ticks k now c ≡ ok c'))
  Reach-IsValid expiration capacity c r =
      let valid = kept (new_cache-IsValid get_key dirty ticks expiration capacity) r in
      (
        valid,
        λ k now.
            let (g, c', ran, _) = get-IsValid get_key dirty ticks k now c valid in (g, c', ran),
        λ k. let (c', ran, _, _, _) = invalidate-IsValid get_key dirty ticks k c valid in (c', ran),
        λ k now.
            let (c', ran, _) = revalidate-IsValid get_key dirty ticks k now c valid in (c', ran),
      )
