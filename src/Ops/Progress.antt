-- ===== src/Ops/Progress.antt =====
-- `put_metadata_forced` gets through: an update that meets a newer version is made on that version.
use h_flat.Base.{
  ℕ, zero, suc, ◌∷◌, ◌≡◌, ◌≢◌, refl, sym, ◌∙◌, [], List, none, some, Str, str_eq, ◌==◌,
  if◌then◌else◌, get_elem?, get_elem?-set, set, arith,
}
use mathlib.Core.Path.{fun_ext, subst}
use h_flat.LruCache.Defs.{LruCache}
use h_flat.LruCache.Invariant.{IsValid}
use h_flat.Metadata.Defs.{Metadata}
use h_flat.World.State.{
  System, World, KineticRecord, answer, MetadataInfo, load_md, store_md, md_key, done,
}
use h_flat.World.Helper.{put_metadata, put_metadata_forced, get_metadata, take_metadata, eagain}
use h_flat.World.Versions.{version_of, Versioned, put_metadata_current, put_metadata_stale}
use h_flat.Ops.Sync.{change_md}

-- A namespace that answers with the record that it stores.
pub record Readable {S : Type 0} (sys : System S) (names : Versioned sys) : Type 0 where
  pub get_stored :
      (k : Str) (rec : KineticRecord) (s : S)
      → names.stored k s ≡ some rec
      → (sys.get k s).0 ≡ answer rec
  pub get_keeps : (k j : Str) (s : S) → names.stored j (sys.get k s).1 ≡ names.stored j s

abbrev key_at : List MetadataInfo → ℕ → Str
key_at xs q = elim (get_elem? xs q) [ none ↦ [] | some mdi ↦ mdi.system_path ]

-- The keys of the metadata in memory do not change with what else it holds.
key_at-set :
    (xs : List MetadataInfo) (r : ℕ) (old new : MetadataInfo)
    → get_elem? xs r ≡ some old
    → new.system_path ≡ old.system_path
    → (q : ℕ) → key_at (set xs r new) q ≡ key_at xs q
key_at-set [] r old new at same q = refl
key_at-set (x ∷ xs) zero old new at same zero = ground arith
key_at-set (x ∷ xs) zero old new at same (suc q) = refl
key_at-set (x ∷ xs) (suc r) old new at same zero = refl
key_at-set (x ∷ xs) (suc r) old new at same (suc q) = key_at-set xs r old new at same q

IsValid-set :
    (xs : List MetadataInfo) (r : ℕ) (old new : MetadataInfo) (c : LruCache Str ℕ)
    → get_elem? xs r ≡ some old
    → new.system_path ≡ old.system_path
    → IsValid (key_at xs) c
    → IsValid (key_at (set xs r new)) c
IsValid-set xs r old new c at same valid = rw (fun_ext (key_at-set xs r old new at same)) valid

module _ {S : Type 0} (sys : System S) where
  pub change_md_lem :
      (r : ℕ) (f : Metadata → Metadata) (mdi : MetadataInfo) (w : World S)
      → get_elem? w.metadata_infos r ≡ some mdi
      → change_md sys r f w
        ≡ done (
          tt,
          record w { metadata_infos = set w.metadata_infos r (record mdi { md = f mdi.md }) },
        )
  unfolding change_md load_md store_md
  change_md_lem r f mdi w at = ground (arith, at)

  get_metadata_lem :
      (r : ℕ) (mdi : MetadataInfo) (rec : KineticRecord) (md : Metadata) (w : World S)
      → get_elem? w.metadata_infos r ≡ some mdi
      → (sys.get mdi.system_path w.env).0 ≡ answer rec
      → sys.parse_md rec.value ≡ some md
      → get_metadata sys r w
        ≡ done (
          0,
          record w {
            env = (sys.get mdi.system_path w.env).1;
            metadata_infos =
                set w.metadata_infos r (record mdi { md = md; key_version = rec.version });
          },
        )
  unfolding get_metadata take_metadata load_md store_md
  get_metadata_lem r mdi rec md w at got parsed = ground (arith, at, got, parsed)

module _ {S : Type 0} (sys : System S) (names : Versioned sys) (reads : Readable sys names) where
  -- The attempt after a refusal, from the world `w₂` that this leaves.
  second_attempt :
      (r : ℕ) (f : Metadata → Metadata) (mdi : MetadataInfo) (rec : KineticRecord) (md : Metadata)
      (w₂ : World S)
      → get_elem? w₂.metadata_infos r ≡ some mdi
      → IsValid (key_at w₂.metadata_infos) w₂.lookup_cache
      → names.stored mdi.system_path w₂.env ≡ some rec
      → sys.parse_md rec.value ≡ some md
      → (w₃ : World S) × (w₄ : World S) × (w₅ : World S) × (version : Str) × (get_metadata sys r w₂
          ≡ done (0, w₃))
        × (change_md sys r f w₃ ≡ done (tt, w₄))
        × (put_metadata sys r w₄ ≡ done (0, w₅))
        × ((k : Str)
            → names.stored k w₅.env ≡ (
                if mdi.system_path == k
                then some (record { value = sys.serialize_md (f md); version = version })
                else names.stored k w₂.env))
  second_attempt r f mdi rec md w₂ at valid stored parsed =
      let k = mdi.system_path in
      let mdi₃ = record mdi { md = md; key_version = rec.version } in
      let w₃ = record w₂ {
        env = (sys.get k w₂.env).1;
        metadata_infos = set w₂.metadata_infos r mdi₃;
      } in
      let at₃ = get_elem?-set w₂.metadata_infos r mdi mdi₃ at in
      let valid₃ = IsValid-set w₂.metadata_infos r mdi mdi₃ w₂.lookup_cache at refl valid in
      let mdi₄ = record mdi₃ { md = f md } in
      let w₄ = record w₃ { metadata_infos = set w₃.metadata_infos r mdi₄ } in
      let at₄ = get_elem?-set w₃.metadata_infos r mdi₃ mdi₄ at₃ in
      let valid₄ = IsValid-set w₃.metadata_infos r mdi₃ mdi₄ w₃.lookup_cache at₃ refl valid₃ in
      let current : version_of (names.stored k w₄.env) ≡ mdi₄.key_version =
        rw (reads.get_keeps k k w₂.env, stored) refl in
      let (w₅, written, after, _) = put_metadata_current sys names r mdi₄ w₄ at₄ valid₄ current in
      (
        w₃,
        w₄,
        w₅,
        (sys.generate_uuid w₄.env).0,
        get_metadata_lem sys r mdi rec md w₂ at (reads.get_stored k rec w₂.env stored) parsed,
        change_md_lem sys r f mdi₃ w₃ at₃,
        written,
        λ j. rw (after j, reads.get_keeps k j w₂.env) refl,
      )

  after_refusal :
      (fuel r : ℕ) (f : Metadata → Metadata) (mdi : MetadataInfo) (rec : KineticRecord)
      (md : Metadata) (w w₁ w₂ : World S)
      → change_md sys r f w ≡ done (tt, w₁)
      → put_metadata sys r w₁ ≡ done (eagain, w₂)
      → ((k : Str) → names.stored k w₂.env ≡ names.stored k w.env)
      → get_elem? w₂.metadata_infos r ≡ some mdi
      → IsValid (key_at w₂.metadata_infos) w₂.lookup_cache
      → names.stored mdi.system_path w.env ≡ some rec
      → sys.parse_md rec.value ≡ some md
      → (w' : World S) × (version : Str) × (put_metadata_forced sys
            (suc (suc fuel))
            r
            (change_md sys r f)
            w
          ≡ done (0, w'))
        × ((k : Str)
            → names.stored k w'.env ≡ (
                if mdi.system_path == k
                then some (record { value = sys.serialize_md (f md); version = version })
                else names.stored k w.env))
  unfolding put_metadata_forced
  after_refusal fuel r f mdi rec md w w₁ w₂ changed refused kept at valid stored parsed =
      let (w₃, w₄, w₅, version, got, changed_again, written, after) =
        second_attempt r f mdi rec md w₂ at valid (kept mdi.system_path ∙ stored) parsed in
      (
        w₅,
        version,
        ground (arith, changed, refused, got, changed_again, written),
        λ j. rw (after j, kept j) refl,
      )

  -- With a valid lookup cache, an update of metadata in memory whose version is not the stored one
  -- gets through at its second attempt, so with fuel 2 or more the call returns 0: it is made on the
  -- metadata which another client had stored, not on those in memory, and no other record changes.
  pub put_metadata_forced_lem :
      (fuel r : ℕ) (f : Metadata → Metadata) (mdi : MetadataInfo) (rec : KineticRecord)
      (md : Metadata) (w : World S)
      → get_elem? w.metadata_infos r ≡ some mdi
      → IsValid (md_key w) w.lookup_cache
      → names.stored mdi.system_path w.env ≡ some rec
      → rec.version ≢ mdi.key_version
      → sys.parse_md rec.value ≡ some md
      → (w' : World S) × (version : Str) × (put_metadata_forced sys
            (suc (suc fuel))
            r
            (change_md sys r f)
            w
          ≡ done (0, w'))
        × ((k : Str)
            → names.stored k w'.env ≡ (
                if mdi.system_path == k
                then some (record { value = sys.serialize_md (f md); version = version })
                else names.stored k w.env))
  put_metadata_forced_lem fuel r f mdi rec md w at valid stored newer parsed =
      let mdi₁ = record mdi { md = f mdi.md } in
      let w₁ = record w { metadata_infos = set w.metadata_infos r mdi₁ } in
      let at₁ = get_elem?-set w.metadata_infos r mdi mdi₁ at in
      let stale : version_of (names.stored mdi.system_path w₁.env) ≢ mdi₁.key_version =
        rw stored newer in
      let valid₁ = IsValid-set w.metadata_infos r mdi mdi₁ w.lookup_cache at refl valid in
      let (w₂, refused, kept, _, infos, valid₂) =
        put_metadata_stale sys names r mdi₁ w₁ at₁ valid₁ stale in
      after_refusal fuel r f mdi₁ rec md w w₁ w₂ (change_md_lem sys r f mdi w at) refused kept
        (subst (λ xs. get_elem? xs r ≡ some mdi₁) (sym infos) at₁)
        (subst (λ xs. IsValid (key_at xs) w₂.lookup_cache) (sym infos) valid₂) stored parsed
