-- ===== src/Ops/Move.antt =====
-- What `rename_regular` does to a namespace that checks versions.
use h_flat.Base.{
  ℕ, ◌≡◌, ◌≢◌, refl, ◌∙◌, [], none, some, Str, str_eq, str_beq_iff, ◌==◌, if◌then◌else◌, get_elem?,
  get_elem?-set, get_elem?-set_other, set, arith, Bool-cases, inl, inr,
}
use h_flat.Metadata.Defs.{update_ac_time}
use h_flat.World.State.{
  System, World, KineticRecord, answer, require_same_version, ignore_version, MetadataInfo, load_md,
  done,
}
use h_flat.World.Helper.{eio}
use h_flat.World.Versions.{version_of, Versioned}
use h_flat.Ops.Progress.{change_md_lem}
use h_flat.Ops.Rename.{rename_regular}

-- A namespace in which a record that is stored can be deleted whatever its version, and which a look
-- at the clock does not change.
pub record Erasing {S : Type 0} (sys : System S) (names : Versioned sys) : Type 0 where
  pub time_keeps : (k : Str) (s : S) → names.stored k (sys.time s).1 ≡ names.stored k s
  pub delete_stored :
      (k : Str) (rec : KineticRecord) (s : S)
      → names.stored k s ≡ some rec
      → ((sys.delete k [] ignore_version s).0 ≡ answer tt)
        × ((j : Str)
            → names.stored j (sys.delete k [] ignore_version s).1
              ≡ (if k == j then none else names.stored j s))

module _ {S : Type 0} (sys : System S) (names : Versioned sys) (erases : Erasing sys names) where
  -- The metadata of a file whose key is stored moves to another key: a key with no version gets them,
  -- with their times updated, and the old key goes; a key with a version makes the call fail with EIO
  -- and no record changes. All other records stay as they are.
  pub rename_regular_lem :
      (to from : ℕ) (mdi_to mdi_from : MetadataInfo) (rec : KineticRecord) (w : World S)
      → get_elem? w.metadata_infos to ≡ some mdi_to
      → get_elem? w.metadata_infos from ≡ some mdi_from
      → from ≢ to
      → mdi_to.system_path ≢ mdi_from.system_path
      → names.stored mdi_from.system_path w.env ≡ some rec
      → (w' : World S) × (rename_regular sys to from w
          ≡ done (if version_of (names.stored mdi_to.system_path w.env) == [] then 0 else eio, w'))
        × ((k : Str)
            → names.stored k w'.env ≡ (
                if version_of (names.stored mdi_to.system_path w.env) == []
                then (if mdi_from.system_path == k
                    then none
                    else if mdi_to.system_path == k
                    then some (record {
                      value = sys.serialize_md (update_ac_time (sys.time w.env).0 mdi_from.md);
                      version = mdi_to.key_version;
                    })
                    else names.stored k w.env)
                else names.stored k w.env))
  unfolding rename_regular load_md
  rename_regular_lem to from mdi_to mdi_from rec w at_to at_from distinct apart stored =
      let (now, s₁) = sys.time w.env in
      let moved = record mdi_from { md = update_ac_time now mdi_from.md } in
      let w₁ = record w { env = s₁ } in
      let infos = set w.metadata_infos from moved in
      let changed = change_md_lem sys from (update_ac_time now) mdi_from w₁ at_from in
      let here = get_elem?-set w.metadata_infos from mdi_from moved at_from in
      let there = get_elem?-set_other w.metadata_infos from to moved distinct ∙ at_to in
      let k = mdi_to.system_path in
      let new : KineticRecord = record {
        value = sys.serialize_md moved.md;
        version = mdi_to.key_version;
      } in
      let s₂ = (sys.put k [] require_same_version new s₁).1 in
      elim (Bool-cases (version_of (names.stored k w.env) == [])) [
        | inl free ↦
            let unversioned : version_of (names.stored k s₁) ≡ [] =
              rw (erases.time_keeps k w.env)
                ((str_beq_iff (version_of (names.stored k w.env)) []).0 free) in
            let (accepted, after) = names.put_current k [] new s₁ unversioned in
            let source : names.stored mdi_from.system_path s₂ ≡ some rec = ground (
              arith,
              after mdi_from.system_path,
              str_beq_iff k mdi_from.system_path,
              erases.time_keeps mdi_from.system_path w.env,
            ) in
            let (gone, rest) = erases.delete_stored mdi_from.system_path rec s₂ source in
            (
              record w {
                env = (sys.delete mdi_from.system_path [] ignore_version s₂).1;
                metadata_infos = infos;
              },
              ground (arith, changed, here, there, accepted, gone, free),
              λ j. rw (free, rest j, after j, erases.time_keeps j w.env) refl,
            )
        | inr taken ↦
            let versioned : version_of (names.stored k s₁) ≢ [] = λ e. ground (
              arith,
              taken,
              str_beq_iff (version_of (names.stored k w.env)) [],
              erases.time_keeps k w.env,
            ) in
            let (refusal, kept) = names.put_stale k [] new s₁ versioned in
            (
              record w { env = s₂; metadata_infos = infos },
              ground (arith, changed, here, there, refusal, taken),
              λ j. rw (taken, kept j, erases.time_keeps j w.env) refl,
            )
      ]
