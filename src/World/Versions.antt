-- ===== src/World/Versions.antt =====
-- `put_metadata` against a namespace that checks versions: no client overwrites what it has not seen.
use h_flat.Base.{
  ℕ, ◌≡◌, ◌≢◌, refl, [], Option, none, some, Str, str_eq, ◌==◌, if◌then◌else◌, get_elem?, set,
  lookup, arith, eq_refl, ◌∙◌, ok,
}
use h_flat.LruCache.Defs.{LruCache, invalidate, revalidate}
use h_flat.LruCache.Invariant.{IsValid, invalidate-IsValid, revalidate-IsValid}
use h_flat.World.State.{
  System, World, KineticRecord, answer, refused, remote_version_mismatch, require_same_version,
  MetadataInfo, load_md, store_md, md_key, md_dirty, done,
}
use h_flat.World.Helper.{put_metadata, lookup_cache_invalidate, lookup_cache_revalidate, eagain}

-- The version under which a key is stored; a key that is not stored has the empty one.
abbrev pub version_of : Option KineticRecord → Str
version_of none = []
version_of (some rec) = rec.version

-- A namespace that stores records by key and, asked for the same version, replaces a record only if
-- the version that the caller names is the stored one.
pub record Versioned {S : Type 0} (sys : System S) : Type 0 where
  pub stored : Str → S → Option KineticRecord
  pub uuid_keeps : (k : Str) (s : S) → stored k (sys.generate_uuid s).1 ≡ stored k s
  pub now_keeps : (k : Str) (s : S) → stored k (sys.steady_now s).1 ≡ stored k s
  pub put_current :
      (k v : Str) (rec : KineticRecord) (s : S)
      → version_of (stored k s) ≡ v
      → ((sys.put k v require_same_version rec s).0 ≡ answer tt)
        × ((j : Str)
            → stored j (sys.put k v require_same_version rec s).1
              ≡ (if k == j then some rec else stored j s))
  pub put_stale :
      (k v : Str) (rec : KineticRecord) (s : S)
      → version_of (stored k s) ≢ v
      → ((sys.put k v require_same_version rec s).0 ≡ refused remote_version_mismatch)
        × ((j : Str) → stored j (sys.put k v require_same_version rec s).1 ≡ stored j s)

load_md-at :
    {S : Type 0} (r : ℕ) (mdi : MetadataInfo) (w : World S)
    → get_elem? w.metadata_infos r ≡ some mdi
    → load_md r w ≡ done (mdi, w)
unfolding load_md
load_md-at r mdi w at = ground (arith, at)

module _ {S : Type 0} (sys : System S) where
  lookup_cache_invalidate-ok :
      (k : Str) (w : World S) (c : LruCache Str ℕ)
      → invalidate (md_key w) (md_dirty w) sys.ticks k w.lookup_cache ≡ ok c
      → lookup_cache_invalidate sys k w ≡ done (tt, record w { lookup_cache = c })
  unfolding lookup_cache_invalidate
  lookup_cache_invalidate-ok k w c ran = ground (arith, ran)

  -- `revalidate` asks neither for the key of a datum nor whether it is dirty.
  lookup_cache_revalidate-ok :
      (k : Str) (w v : World S) (c : LruCache Str ℕ)
      → revalidate (md_key v) (md_dirty v) sys.ticks k (sys.steady_now w.env).0 w.lookup_cache
        ≡ ok c
      → lookup_cache_revalidate sys k w
        ≡ done (tt, record w { env = (sys.steady_now w.env).1; lookup_cache = c })
  unfolding lookup_cache_revalidate revalidate
  lookup_cache_revalidate-ok k w v c ran = ground (arith, ran)

module _ {S : Type 0} (sys : System S) (names : Versioned sys) where
  -- With a valid lookup cache, metadata whose version is not the stored one is refused with EAGAIN:
  -- the namespace stays as it is, and the metadata leaves the lookup cache, so that the next lookup
  -- reads it anew; the metadata that are in memory stay as they are, and the cache valid.
  pub put_metadata_stale :
      (r : ℕ) (mdi : MetadataInfo) (w : World S)
      → get_elem? w.metadata_infos r ≡ some mdi
      → IsValid (md_key w) w.lookup_cache
      → version_of (names.stored mdi.system_path w.env) ≢ mdi.key_version
      → (w' : World S) × (put_metadata sys r w ≡ done (eagain, w'))
        × ((k : Str) → names.stored k w'.env ≡ names.stored k w.env)
        × (lookup mdi.system_path w'.lookup_cache.lookup_map ≡ none)
        × (w'.metadata_infos ≡ w.metadata_infos)
        × IsValid (md_key w) w'.lookup_cache
  unfolding put_metadata
  put_metadata_stale r mdi w at valid stale =
      let (new_version, s₁) = sys.generate_uuid w.env in
      let k = mdi.system_path in
      let rec : KineticRecord = record { value = sys.serialize_md mdi.md; version = new_version } in
      let differs : version_of (names.stored k s₁) ≢ mdi.key_version =
        λ e. stale (rw (← names.uuid_keeps k w.env) e) in
      let (refusal, kept) = names.put_stale k mdi.key_version rec s₁ differs in
      let s₂ = (sys.put k mdi.key_version require_same_version rec s₁).1 in
      let (c', ran, stays, gone, _) =
        invalidate-IsValid (md_key w) (md_dirty w) sys.ticks k w.lookup_cache valid in
      let w₁ = record w { env = s₁ } in
      let w₂ = record w { env = s₂ } in
      (
        record w { env = s₂; lookup_cache = c' },
        ground (arith, load_md-at r mdi w₁ at, refusal, lookup_cache_invalidate-ok sys k w₂ c' ran),
        λ j. rw (kept j, names.uuid_keeps j w.env) refl,
        gone,
        refl,
        stays,
      )

  store_md-at :
      (r : ℕ) (mdi : MetadataInfo) (w : World S)
      → store_md r mdi w ≡ done (tt, record w { metadata_infos = set w.metadata_infos r mdi })
  unfolding store_md
  store_md-at r mdi w = refl

  -- With a valid lookup cache, metadata whose version is the stored one is written: the namespace
  -- holds it under its path with a fresh version, which the metadata takes on, and no other record
  -- changes.
  pub put_metadata_current :
      (r : ℕ) (mdi : MetadataInfo) (w : World S)
      → get_elem? w.metadata_infos r ≡ some mdi
      → IsValid (md_key w) w.lookup_cache
      → version_of (names.stored mdi.system_path w.env) ≡ mdi.key_version
      → (w' : World S) × (put_metadata sys r w ≡ done (0, w'))
        × ((k : Str)
            → names.stored k w'.env ≡ (
                if mdi.system_path == k
                then some (record {
                  value = sys.serialize_md mdi.md;
                  version = (sys.generate_uuid w.env).0;
                })
                else names.stored k w.env))
        × (w'.metadata_infos
            ≡ set w.metadata_infos r (record mdi { key_version = (sys.generate_uuid w.env).0 }))
  unfolding put_metadata
  put_metadata_current r mdi w at valid current =
      let (new_version, s₁) = sys.generate_uuid w.env in
      let k = mdi.system_path in
      let rec : KineticRecord = record { value = sys.serialize_md mdi.md; version = new_version } in
      let same : version_of (names.stored k s₁) ≡ mdi.key_version =
        rw (names.uuid_keeps k w.env) current in
      let (accepted, after) = names.put_current k mdi.key_version rec s₁ same in
      let s₂ = (sys.put k mdi.key_version require_same_version rec s₁).1 in
      let mdi' = record mdi { key_version = new_version } in
      let w₂ = record w { env = s₂; metadata_infos = set w.metadata_infos r mdi' } in
      let (now, s₃) = sys.steady_now s₂ in
      let (c', ran, _) =
        revalidate-IsValid (md_key w) (md_dirty w) sys.ticks k now w.lookup_cache valid in
      (
        record w₂ { env = s₃; lookup_cache = c' },
        ground (
          arith,
          load_md-at r mdi (record w { env = s₁ }) at,
          accepted,
          store_md-at r mdi' (record w { env = s₂ }),
          lookup_cache_revalidate-ok sys k w₂ w c' ran,
        ),
        λ j. rw (names.now_keeps j s₂, after j, names.uuid_keeps j w.env) refl,
        refl,
      )

  -- Two clients with valid lookup caches hold the metadata of the same path under the same version,
  -- the stored one. The first to write succeeds; the other one, whatever it changed, is refused
  -- with EAGAIN, provided that the new version differs from the old one. The namespace then holds under
  -- the path what the first client wrote, with its new version, and every other record as before: no
  -- update is lost.
  pub put_metadata_race :
      (r₁ r₂ : ℕ) (mdi₁ mdi₂ : MetadataInfo) (w₁ w₂ : World S)
      → get_elem? w₁.metadata_infos r₁ ≡ some mdi₁
      → get_elem? w₂.metadata_infos r₂ ≡ some mdi₂
      → IsValid (md_key w₁) w₁.lookup_cache
      → IsValid (md_key w₂) w₂.lookup_cache
      → mdi₂.system_path ≡ mdi₁.system_path
      → mdi₂.key_version ≡ mdi₁.key_version
      → version_of (names.stored mdi₁.system_path w₁.env) ≡ mdi₁.key_version
      → (sys.generate_uuid w₁.env).0 ≢ mdi₁.key_version
      → (w₁' : World S) × (w₂' : World S) × (put_metadata sys r₁ w₁ ≡ done (0, w₁'))
        × (put_metadata sys r₂ (record w₂ { env = w₁'.env }) ≡ done (eagain, w₂'))
        × ((k : Str)
            → names.stored k w₂'.env ≡ (
                if mdi₁.system_path == k
                then some (record {
                  value = sys.serialize_md mdi₁.md;
                  version = (sys.generate_uuid w₁.env).0;
                })
                else names.stored k w₁.env))
  put_metadata_race r₁ r₂ mdi₁ mdi₂ w₁ w₂ at₁ at₂ valid₁ valid₂ path version current fresh =
      let k = mdi₁.system_path in
      let (w₁', written, after, _) = put_metadata_current r₁ mdi₁ w₁ at₁ valid₁ current in
      let now_stored : version_of (names.stored k w₁'.env) ≡ (sys.generate_uuid w₁.env).0 =
        rw (after k, eq_refl k) refl in
      let stale : version_of (names.stored mdi₂.system_path w₁'.env) ≢ mdi₂.key_version =
        rw (path, version, now_stored) fresh in
      let (w₂', refused_it, kept, _, _, _) =
        put_metadata_stale r₂ mdi₂ (record w₂ { env = w₁'.env }) at₂ valid₂ stale in
      (w₁', w₂', written, refused_it, λ j. kept j ∙ after j)
