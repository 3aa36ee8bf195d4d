-- ===== src/Cluster/Evaluating.antt =====
-- What the evaluation of the results of a write says of the drives of its partition.
use h_flat.Base.{
  ℕ, zero, suc, ◌+◌, ◌≡◌, refl, sym, ap, ◌∙◌, true, false, List, [], ◌∷◌, Option, none, some,
  get_elem?, arith, Option-cases, inl, inr, eqb_iff, Bool-cases,
}
use h_flat.World.State.{done}
use h_flat.Cluster.State.{
  Names, Net, Partition, PartitionRef, Drive, Status, Code, ok_code, is_red, is_ok,
  is_cluster_version_mismatch, partition_at, load_partition,
}
use h_flat.Cluster.Repair.{first_green}
use h_flat.Cluster.Membership.{disable_drive}
use h_flat.Cluster.Quorum.{
  same_code, code_number, fails_drive, result_at, all_equal, first_failed, first_mismatch,
  evaluate_write,
}
use h_flat.Cluster.Post.{load_partition_lem}
use h_flat.World.Post.{Run-cases}

-- Each drive but the red ones, from drive `i` on, answered with a code.
pub Answered : Code → List Status → ℕ → List Drive → Type 0
Answered code results i [] = Unit
Answered code results i (d ∷ ds) =
    (is_red d.status ≡ false → (s : Status) × (get_elem? results i ≡ some s) × (s.code ≡ code))
    × Answered code results (i + 1) ds

same_code_lem : (a b : Code) → same_code a b ≡ true → a ≡ b
same_code_lem a b e = ground (arith, eqb_iff (code_number a) (code_number b))

fails_drive_lem : (c : Code) → fails_drive c ≡ true → is_ok c ≡ false
fails_drive_lem c e = ground arith

is_ok_lem : (c : Code) → is_ok c ≡ true → c ≡ ok_code
is_ok_lem c e = ground arith

pub first_mismatch_lem :
    (ss : List Status) (s : Status) → first_mismatch ss ≡ some s → is_ok s.code ≡ false
unfolding first_mismatch
first_mismatch_lem [] s e = absurd (ground arith)
first_mismatch_lem (t ∷ ts) s e = elim (Bool-cases (is_cluster_version_mismatch t.code)) [
  | inl here ↦ ground (arith, here)
  | inr not_here ↦ first_mismatch_lem ts s (ground (arith, not_here))
]

module _ {S : Type 0} where
  result_at_lem :
      (results : List Status) (i : ℕ) (w : Names S) (s : Status) (v : Names S)
      → result_at results i w ≡ done (s, v)
      → (v ≡ w) × (get_elem? results i ≡ some s)
  unfolding result_at
  result_at_lem results i w s v e = elim (Option-cases (get_elem? results i)) [
    | inl past ↦ absurd (ground (arith, past))
    | inr (t, at) ↦ (ground (arith, at), ground (arith, at))
  ]

  all_equal_lem :
      (code : Code) (results : List Status) (i : ℕ) (ds : List Drive) (w v : Names S)
      → all_equal code results i ds w ≡ done (true, v)
      → (v ≡ w) × Answered code results i ds
  unfolding all_equal Answered
  all_equal_lem code results i [] w v e = (ground arith, tt)
  all_equal_lem code results i (d ∷ ds) w v e = elim (Bool-cases (is_red d.status)) [
    | inl down ↦
        let (at, answered) = all_equal_lem code results (i + 1) ds w v (ground (arith, down)) in
        (at, (λ up. absurd (ground (arith, up, down)), answered))
    | inr up ↦ elim (Run-cases (result_at results i w)) [
      | inl stuck ↦ absurd (ground (arith, up, stuck))
      | inr (s, u, got) ↦ elim (Run-cases (all_equal code results (i + 1) ds u)) [
        | inl stuck ↦ absurd (ground (arith, up, got, stuck))
        | inr (same, u', rest) ↦
            let (at, found) = result_at_lem results i w s u got in
            let (at', answered) =
              all_equal_lem code results (i + 1) ds u v (ground (arith, up, got, rest)) in
            (
              at' ∙ at,
              (
                λ _. (s, found, same_code_lem s.code code (ground (arith, up, got, rest))),
                answered,
              ),
            )
      ]
    ]
  ]

  first_failed_lem :
      (results : List Status) (i : ℕ) (ds : List Drive) (w v : Names S) (o : Option (ℕ × Status))
      → first_failed results i ds w ≡ done (o, v)
      → (v ≡ w) × ((j : ℕ) (s : Status) → o ≡ some (j, s) → is_ok s.code ≡ false)
  unfolding first_failed
  first_failed_lem results i [] w v o e = (ground arith, λ j s f. absurd (ground arith))
  first_failed_lem results i (d ∷ ds) w v o e = elim (Bool-cases (is_red d.status)) [
    | inl down ↦ first_failed_lem results (i + 1) ds w v o (ground (arith, down))
    | inr up ↦ elim (Run-cases (result_at results i w)) [
      | inl stuck ↦ absurd (ground (arith, up, stuck))
      | inr (s, u, got) ↦
          let (at, found) = result_at_lem results i w s u got in
          elim (Bool-cases (fails_drive s.code)) [
            | inl fails ↦ (
              ground (arith, up, got, fails),
              λ j t f. fails_drive_lem t.code (ground (arith, up, got, fails)),
            )
            | inr keeps ↦
                let (at', healthy) =
                  first_failed_lem results (i + 1) ds u v o (ground (arith, up, got, keeps)) in
                (at' ∙ at, healthy)
          ]
    ]
  ]

  equal_case :
      (ref : PartitionRef) (results : List Status) (w w' w₁ w₂ w₃ : Names S) (g : ℕ) (p : Partition)
      (sg s : Status)
      → load_partition ref w ≡ done (p, w₁)
      → result_at results g w₁ ≡ done (sg, w₂)
      → all_equal sg.code results 0 p.drives w₂ ≡ done (true, w₃)
      → (s ≡ sg) × (w' ≡ w₃)
      → is_ok s.code ≡ true
      → (p : Partition) × (partition_at ref w' ≡ some p) × Answered ok_code results 0 p.drives
  equal_case ref results w w' w₁ w₂ w₃ g p sg s loaded got equal same good =
      let (at, found) = load_partition_lem ref w p w₁ loaded in
      let (at', _) = result_at_lem results g w₁ sg w₂ got in
      let (at'', answered) = all_equal_lem sg.code results 0 p.drives w₂ w₃ equal in
      let is_sg = ap (λ (t : Status). t.code) (sym same.0) in
      let stays = ap (partition_at ref) (same.1 ∙ at'' ∙ at' ∙ at) in
      (p, stays ∙ found, rw (is_sg ∙ is_ok_lem s.code good) at answered)

module _ {S : Type 0} (net : Net S) where
  pub evaluate_write_lem :
      (fuel : ℕ) (ref : PartitionRef) (results : List Status) (w w' : Names S) (s : Status)
      → evaluate_write net fuel ref results w ≡ done (s, w')
      → is_ok s.code ≡ true
      → (p : Partition) × (partition_at ref w' ≡ some p) × Answered ok_code results 0 p.drives
  unfolding evaluate_write
  evaluate_write_lem zero ref results w w' s e good = absurd (ground arith)
  evaluate_write_lem (suc fuel) ref results w w' s e good =
      elim (Run-cases (load_partition ref w)) [
        | inl stuck ↦ absurd (ground (arith, stuck))
        | inr (p, w₁, loaded) ↦ elim (Option-cases (first_green 0 p.drives)) [
          | inl none_green ↦ absurd (ground (arith, loaded, none_green))
          | inr (g, green) ↦ elim (Run-cases (result_at results g w₁)) [
            | inl stuck ↦ absurd (ground (arith, loaded, green, stuck))
            | inr (sg, w₂, got) ↦ elim (Run-cases (all_equal sg.code results 0 p.drives w₂)) [
              | inl stuck ↦ absurd (ground (arith, loaded, green, got, stuck))
              | inr (true, w₃, equal) ↦
                  equal_case ref results w w' w₁ w₂ w₃ g p sg s loaded got equal
                    (ground (arith, loaded, green, got, equal)) good
              | inr (false, w₃, unequal) ↦ elim (Run-cases (first_failed results 0 p.drives w₃)) [
                | inl stuck ↦ absurd (ground (arith, loaded, green, got, unequal, stuck))
                | inr (none, w₄, failed) ↦
                    absurd (ground (arith, loaded, green, got, unequal, failed))
                | inr (some (i, f), w₄, failed) ↦
                    elim (Run-cases (disable_drive net fuel ref i w₄)) [
                      | inl stuck ↦
                          absurd (ground (arith, loaded, green, got, unequal, failed, stuck))
                      | inr (true, w₅, disabled) ↦
                          evaluate_write_lem fuel ref results w₅ w' s
                            (ground (arith, loaded, green, got, unequal, failed, disabled)) good
                      | inr (false, w₅, kept) ↦
                          let bad =
                            (first_failed_lem results 0 p.drives w₃ w₄ (some (i, f)) failed).1 i f
                              refl in
                          absurd (ground (arith, loaded, green, got, unequal, failed, kept, bad))
                    ]
              ]
            ]
          ]
        ]
      ]
