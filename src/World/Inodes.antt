-- ===== src/World/Inodes.antt =====
-- `generate_inode_number` of src/util.cc over several clients of one namespace.
use h_flat.Base.{
  ℕ, suc, ◌+◌, ◌≡◌, ◌≢◌, refl, sym, ◌∙◌, [], some, Str, eqb, true, ◌≤◌, ap, ◌⊎◌, inl, inr, arith,
  Bool-cases,
}
use mathlib.Core.Path.{subst}
use h_flat.Paths.{to_string}
use h_flat.World.State.{
  System, World, M, answer, Run, other_failure, refused, remote_not_found, require_same_version,
  done,
}
use h_flat.World.Helper.{eio}
use h_flat.World.Util.{
  inode_base_key, base_version, u16_max, set_inum_base, claim_inode_base,
  grab_inode_generation_token, generate_inode_number,
}

-- What a namespace answers about the key of the inode numbers, whose version is a number, or which is
-- missing at first. Both requests may fail; a write that is answered with a failure may yet have
-- stored the next number.
pub record Counting {S : Type 0} (sys : System S) : Type 0 where
  pub token : S → ℕ
  pub read_token :
      (s : S)
      → (((sys.get_version (inode_base_key sys) s).0 ≡ refused remote_not_found) × (token s ≡ 0))
        ⊎ (((v : Str) × ((sys.get_version (inode_base_key sys) s).0 ≡ answer v)
              × (sys.stoll v ≡ some (token s)))
            ⊎ ((sys.get_version (inode_base_key sys) s).0 ≡ refused other_failure))
  pub read_keeps : (s : S) → token (sys.get_version (inode_base_key sys) s).1 ≡ token s
  pub claim_token :
      (s : S) (n : ℕ)
      → token s ≡ n
      → let r =
          sys.put
            (inode_base_key sys)
            (base_version sys n)
            require_same_version
            (record { value = []; version = to_string (n + u16_max) })
            s in
        ((r.0 ≡ answer tt) × (token r.1 ≡ n + u16_max))
        ⊎ ((r.0 ≡ refused other_failure) × (n ≤ token r.1))

pub done-agrees : {A : Type 0} (a b : A) (r : Run A) → r ≡ done a → r ≡ done b → a ≡ b
done-agrees a b r h k = cc

-- The call that a client of the full block makes gets it a new one.
abbrev pub IsRefreshed : {S : Type 0} → System S → ℕ → World S → Type 0
IsRefreshed {S} sys fuel w =
    eqb (w.inum_counter + 1) u16_max ≡ true
    → (w' : World S) × (grab_inode_generation_token sys fuel
          (record w { inum_counter = w.inum_counter + 1 })
        ≡ done (0, w'))

module _ {S : Type 0} (sys : System S) (counts : Counting sys) where
  claim_lem :
      (again : M S ℕ) (w w' : World S)
      → counts.token w.env ≡ w.inum_base
      → claim_inode_base sys again w ≡ done (0, w')
      → (w'.inum_base ≡ w.inum_base)
        × (counts.token w'.env ≡ w.inum_base + u16_max)
        × (w'.inum_counter ≡ w.inum_counter)
  unfolding claim_inode_base
  claim_lem again w w' same ran =
      let s =
        (sys.put (inode_base_key sys) (base_version sys w.inum_base) require_same_version
          (record { value = []; version = to_string (w.inum_base + u16_max) }) w.env).1 in
      elim (counts.claim_token w.env w.inum_base same) [
        | inl (accepted, after) ↦
            subst
              (λ (u : World S).
                (u.inum_base ≡ w.inum_base)
                × (counts.token u.env ≡ w.inum_base + u16_max)
                × (u.inum_counter ≡ w.inum_counter))
              (ap (λ t. t.1)
                (done-agrees (0, record w { env = s }) (0, w') _ (rw accepted refl) ran))
              (refl, after, refl)
        | inr (failed, _) ↦ absurd (
            ground (
              arith,
              ap (λ t. t.0)
                  (done-agrees (eio, record w { env = s }) (0, w') _ (rw failed refl) ran),
            ))
      ]

  pub grab_lem :
      (fuel : ℕ) (w w' : World S)
      → grab_inode_generation_token sys (suc fuel) w ≡ done (0, w')
      → (w'.inum_base ≡ counts.token w.env)
        × (counts.token w'.env ≡ counts.token w.env + u16_max)
        × (w'.inum_counter ≡ w.inum_counter)
  unfolding grab_inode_generation_token set_inum_base
  grab_lem fuel w w' ran =
      let s₁ = (sys.get_version (inode_base_key sys) w.env).1 in
      let n = counts.token w.env in
      let again = grab_inode_generation_token sys fuel in
      elim (counts.read_token w.env) [
        | inl (missing, none_yet) ↦
            let w₁ = record w { env = s₁; inum_base = 0 } in
            let (base, token, counter) =
              claim_lem again w₁ w' (counts.read_keeps w.env ∙ none_yet)
                (sym (rw missing refl) ∙ ran) in
            (base ∙ sym none_yet, rw none_yet token, counter)
        | inr (inl (v, found, number)) ↦
            claim_lem again (record w { env = s₁; inum_base = n }) w' (counts.read_keeps w.env)
              (sym (rw (found, number) refl) ∙ ran)
        | inr (inr failed) ↦ absurd (
            ground (
              arith,
              ap (λ t. t.0)
                  (done-agrees (eio, record w { env = s₁ }) (0, w') _ (rw failed refl) ran),
            ))
      ]

  -- A number is the next one of the block of its client, or else the first one of a new block, which
  -- the client got.
  pub generate_lem :
      (fuel : ℕ) (w : World S)
      → IsRefreshed sys (suc fuel) w
      → (n : ℕ) × (w' : World S) × (generate_inode_number sys (suc fuel) w ≡ done (n, w'))
        × (((suc w.inum_counter ≢ u16_max)
              × (n ≡ w.inum_base + suc w.inum_counter)
              × (w'.inum_base ≡ w.inum_base)
              × (w'.inum_counter ≡ suc w.inum_counter)
              × (counts.token w'.env ≡ counts.token w.env))
            ⊎ ((n ≡ counts.token w.env)
                × (w'.inum_base ≡ counts.token w.env)
                × (w'.inum_counter ≡ 0)
                × (counts.token w'.env ≡ counts.token w.env + u16_max)))
  unfolding generate_inode_number
  generate_lem fuel w refreshed = elim (Bool-cases (eqb (w.inum_counter + 1) u16_max)) [
    | inl last ↦
        let (w', ran) = refreshed last in
        let (base, token, _) =
          grab_lem fuel (record w { inum_counter = w.inum_counter + 1 }) w' ran in
        (
          w'.inum_base,
          record w' { inum_counter = 0 },
          ground (arith, last, ran),
          inr (base, base, refl, token),
        )
    | inr more ↦ (
      w.inum_base + (w.inum_counter + 1),
      record w { inum_counter = w.inum_counter + 1 },
      ground (arith, more),
      inl (ground (arith, more), omega arith, refl, omega arith, refl),
    )
  ]
