-- ===== src/Ops/Merging.antt =====
-- `put_data` of src/namespace/kinetic_helper.cc: writes of several clients to one block.
use h_flat.Base.{
  ℕ, suc, ◌≤◌, max, ◌≡◌, ◌≢◌, refl, ◌∙◌, [], some, Str, str_eq, ◌==◌, if◌then◌else◌, get_elem?,
  get_elem?-set, set, length, All, arith, eq_refl, ok,
}
use h_flat.Data.Block.{DataInfo, max_block, set_key_version, forget_updates, merge_data_changes}
use h_flat.Data.Update.{byte}
use h_flat.Data.Merge.{covered, IsWrite, merge_data_changes_lem}
use h_flat.LruCache.Defs.{LruCache, revalidate}
use h_flat.LruCache.Invariant.{IsValid, revalidate-IsValid}
use h_flat.World.State.{
  System, World, KineticRecord, require_same_version, load_di, store_di, di_key, di_dirty, done,
}
use h_flat.World.Helper.{put_data, data_cache_revalidate}
use h_flat.World.Versions.{version_of, Versioned}
use h_flat.Ops.Progress.{Readable}

load_di-at :
    {S : Type 0} (r : ℕ) (di : DataInfo) (w : World S)
    → get_elem? w.data_infos r ≡ some di
    → load_di r w ≡ done (di, w)
unfolding load_di
load_di-at r di w at = ground (arith, at)

store_di-at :
    {S : Type 0} (r : ℕ) (di : DataInfo) (w : World S)
    → store_di r di w ≡ done (tt, record w { data_infos = set w.data_infos r di })
unfolding store_di
store_di-at r di w = refl

-- `revalidate` asks neither for the key of a datum nor whether it is dirty.
data_cache_revalidate-ok :
    {S : Type 0} (sys : System S) (k : Str) (key : ℕ → Str) (w : World S)
    → IsValid key w.data_cache
    → (c : LruCache Str ℕ) × (data_cache_revalidate sys k w
        ≡ done (tt, record w { env = (sys.steady_now w.env).1; data_cache = c }))
      × IsValid key c
unfolding data_cache_revalidate revalidate
data_cache_revalidate-ok sys k key w valid =
    let (c, ran, stays) =
      revalidate-IsValid key (di_dirty w) sys.ticks k (sys.steady_now w.env).0 w.data_cache valid in
    (c, ground (arith, ran), stays)

module _ {S : Type 0} (sys : System S) (names : Versioned sys) where
  put_data_current :
      (fuel r : ℕ) (di : DataInfo) (key : ℕ → Str) (w : World S)
      → get_elem? w.data_infos r ≡ some di
      → IsValid key w.data_cache
      → version_of (names.stored di.key w.env) ≡ di.key_version
      → (w' : World S) × (put_data sys (suc fuel) r w ≡ done (0, w'))
        × ((k : Str)
            → names.stored k w'.env ≡ (
                if di.key == k
                then some (record { value = di.d; version = (sys.generate_uuid w.env).0 })
                else names.stored k w.env))
        × (w'.data_infos
            ≡ set w.data_infos r
                (record di { key_version = (sys.generate_uuid w.env).0; updates = [] }))
        × IsValid key w'.data_cache
  unfolding put_data set_key_version forget_updates
  put_data_current fuel r di key w at valid current =
      let (new_version, s₁) = sys.generate_uuid w.env in
      let rec : KineticRecord = record { value = di.d; version = new_version } in
      let same : version_of (names.stored di.key s₁) ≡ di.key_version =
        rw (names.uuid_keeps di.key w.env) current in
      let (accepted, after) = names.put_current di.key di.key_version rec s₁ same in
      let s₂ = (sys.put di.key di.key_version require_same_version rec s₁).1 in
      let di' = record di { key_version = new_version; updates = [] } in
      let w₂ = record w { env = s₂; data_infos = set w.data_infos r di' } in
      let (c, ran, stays) = data_cache_revalidate-ok sys di.key key w₂ valid in
      (
        record w₂ { env = (sys.steady_now s₂).1; data_cache = c },
        ground (
          arith,
          load_di-at r di (record w { env = s₁ }) at,
          accepted,
          store_di-at r di' (record w { env = s₂ }),
          ran,
        ),
        λ j. rw (names.now_keeps j s₂, after j, names.uuid_keeps j w.env) refl,
        refl,
        stays,
      )

-- What a block holds after the regions `di.updates` of `di` were laid over `bytes`.
pub record IsMerged (di : DataInfo) (bytes merged : Str) : Type 0 where
  pub size : length merged ≡ max (length bytes) (length di.d)
  pub reads : (i : ℕ) → byte merged i ≡ (if covered di.updates i then byte di.d i else byte bytes i)

module _ {S : Type 0} (sys : System S) (names : Versioned sys) (reads : Readable sys names) where
  -- The attempt that is refused, up to the one that follows it.
  put_data_refused :
      (fuel r : ℕ) (di : DataInfo) (rec : KineticRecord) (s : Str) (w : World S)
      → get_elem? w.data_infos r ≡ some di
      → names.stored di.key w.env ≡ some rec
      → rec.version ≢ di.key_version
      → merge_data_changes rec.value di ≡ ok (record di { d = s })
      → (e : S) × (put_data sys (suc fuel) r w
          ≡ put_data sys fuel r (record w {
            env = e;
            data_infos = set w.data_infos r (record di { d = s; key_version = rec.version });
          }))
        × ((k : Str) → names.stored k e ≡ names.stored k w.env)
  unfolding put_data set_key_version
  put_data_refused fuel r di rec s w at stored newer merged =
      let (new_version, s₁) = sys.generate_uuid w.env in
      let mine : KineticRecord = record { value = di.d; version = new_version } in
      let differs : version_of (names.stored di.key s₁) ≢ di.key_version =
        rw (names.uuid_keeps di.key w.env, stored) newer in
      let (refusal, kept) = names.put_stale di.key di.key_version mine s₁ differs in
      let s₂ = (sys.put di.key di.key_version require_same_version mine s₁).1 in
      let there : names.stored di.key s₂ ≡ some rec =
        rw (kept di.key, names.uuid_keeps di.key w.env) stored in
      let s₃ = (sys.get di.key s₂).1 in
      let di' = record di { d = s; key_version = rec.version } in
      (
        s₃,
        ground (
          arith,
          load_di-at r di (record w { env = s₁ }) at,
          refusal,
          reads.get_stored di.key rec s₂ there,
          merged,
          store_di-at r di' (record w { env = s₃ }),
        ),
        λ j. rw (reads.get_keeps di.key j s₂, kept j, names.uuid_keeps j w.env) refl,
      )

  -- With a valid data cache and blocks within the size limit, a block that was changed by writes alone
  -- and whose version is not the stored one gets through at its second attempt, so with fuel 2 or more
  -- the call returns 0: the namespace then holds the bytes of this client in every region that it wrote
  -- and elsewhere those of the record that another client had stored, and no other record changes.
  pub put_data_lem :
      (fuel r : ℕ) (di : DataInfo) (rec : KineticRecord) (w : World S)
      → get_elem? w.data_infos r ≡ some di
      → IsValid (di_key w) w.data_cache
      → names.stored di.key w.env ≡ some rec
      → rec.version ≢ di.key_version
      → All (IsWrite (length di.d)) di.updates
      → length di.d ≤ max_block
      → length rec.value ≤ max_block
      → (w' : World S) × (merged : Str) × (version : Str) × (put_data sys (suc (suc fuel)) r w
          ≡ done (0, w'))
        × IsMerged di rec.value merged
        × ((k : Str)
            → names.stored k w'.env ≡ (
                if di.key == k
                then some (record { value = merged; version = version })
                else names.stored k w.env))
  put_data_lem fuel r di rec w at valid stored newer writes small small' =
      let (s, merged, size, bytes) = merge_data_changes_lem rec.value di writes small small' in
      let (e, ran, kept) = put_data_refused (suc fuel) r di rec s w at stored newer merged in
      let di' = record di { d = s; key_version = rec.version } in
      let w₂ = record w { env = e; data_infos = set w.data_infos r di' } in
      let current : version_of (names.stored di.key e) ≡ rec.version =
        rw (kept di.key, stored) refl in
      let (w', again, after, _, _) =
        put_data_current sys names fuel r di' (di_key w) w₂ (get_elem?-set w.data_infos r di di' at)
          valid current in
      (
        w',
        s,
        (sys.generate_uuid e).0,
        ran ∙ again,
        record { size = size; reads = bytes },
        λ j. rw (after j, kept j) refl,
      )

  -- Two clients with valid data caches hold the same block under the same version, the stored one, and
  -- have changed it by writes alone, within the size limit. Both calls return 0, the second one at its
  -- second attempt if the version that the first one writes differs from the old one: no write is lost.
  -- The stored block then holds the bytes of the second client in every region that it wrote, and
  -- elsewhere those of the first one; no other record changes.
  pub put_data_race :
      (fuel r₁ r₂ : ℕ) (di₁ di₂ : DataInfo) (w₁ w₂ : World S)
      → get_elem? w₁.data_infos r₁ ≡ some di₁
      → get_elem? w₂.data_infos r₂ ≡ some di₂
      → IsValid (di_key w₁) w₁.data_cache
      → IsValid (di_key w₂) w₂.data_cache
      → di₂.key ≡ di₁.key
      → di₂.key_version ≡ di₁.key_version
      → version_of (names.stored di₁.key w₁.env) ≡ di₁.key_version
      → (sys.generate_uuid w₁.env).0 ≢ di₁.key_version
      → All (IsWrite (length di₂.d)) di₂.updates
      → length di₁.d ≤ max_block
      → length di₂.d ≤ max_block
      → (w₁' : World S) × (w₂' : World S) × (merged : Str) × (version : Str) × (put_data sys
            (suc fuel)
            r₁
            w₁
          ≡ done (0, w₁'))
        × (put_data sys (suc (suc fuel)) r₂ (record w₂ { env = w₁'.env }) ≡ done (0, w₂'))
        × IsMerged di₂ di₁.d merged
        × ((k : Str)
            → names.stored k w₂'.env ≡ (
                if di₁.key == k
                then some (record { value = merged; version = version })
                else names.stored k w₁.env))
  put_data_race fuel r₁ r₂ di₁ di₂ w₁ w₂ at₁ at₂ valid₁ valid₂ key version current fresh writes
        small₁ small₂ =
      let (w₁', ran₁, after₁, _, _) =
        put_data_current sys names fuel r₁ di₁ (di_key w₁) w₁ at₁ valid₁ current in
      let rec : KineticRecord = record { value = di₁.d; version = (sys.generate_uuid w₁.env).0 } in
      let stored : names.stored di₂.key w₁'.env ≡ some rec =
        rw (key, after₁ di₁.key, eq_refl di₁.key) refl in
      let (w₂', merged, v, ran₂, laid, after₂) =
        put_data_lem fuel r₂ di₂ rec (record w₂ { env = w₁'.env }) at₂ valid₂ stored
          (rw version fresh) writes small₂ small₁ in
      (w₁', w₂', merged, v, ran₁, ran₂, laid, λ k. ground (arith, after₂ k, after₁ k, key))
