-- ===== src/Cluster/Safety.antt =====
-- What a write that succeeds says of the drives of its partition.
use h_flat.Base.{
  ℕ, zero, suc, ◌+◌, ◌≡◌, sym, ap, ◌∙◌, true, false, List, [], ◌∷◌, Option, none, some, Str, arith,
  Option-cases, inl, inr,
}
use h_flat.World.State.{done}
use h_flat.Cluster.State.{
  Names, Net, N, ◌>>=◌, pure, Partition, PartitionRef, Drive, Status, ok_code, connection_error,
  status_of, is_red, is_ok, partition_at, load_partition,
}
use h_flat.Cluster.Drives.{drive_to_connection, get_partition_update}
use h_flat.Cluster.Quorum.{first_mismatch, log_write, on_drives, write_operation}
use h_flat.Cluster.Repair.{deref_connection}
use h_flat.Cluster.Post.{bind-done, if-done, pure-done, load_partition_lem}
use h_flat.Cluster.Evaluating.{Answered, first_mismatch_lem, evaluate_write_lem}
use h_flat.World.Post.{Run-cases}

module _ {S : Type 0} (net : Net S) (op : ℕ → N S Status) where
  -- The operation was carried out on the drives of a partition, from drive `i` on, one after the other:
  -- over the connection to each drive that is not red, with its answer among the results.
  pub data CarriedOut (p : Partition)
      : ℕ → List Drive → Names S → List Status → Names S → Type 0 where
    no_drive : (i : ℕ) (w : Names S) → CarriedOut p i [] w [] w
    red_drive :
        (i : ℕ) (d : Drive) (ds : List Drive) (w w' : Names S) (ss : List Status)
        → is_red d.status ≡ true
        → CarriedOut p (i + 1) ds w ss w'
        → CarriedOut p i (d ∷ ds) w (status_of connection_error ∷ ss) w'
    asked_drive :
        (i c : ℕ) (d : Drive) (ds : List Drive) (w w₁ w₂ w' : Names S) (s : Status)
        (ss : List Status)
        → is_red d.status ≡ false
        → drive_to_connection net p i w ≡ done (some c, w₁)
        → op c w₁ ≡ done (s, w₂)
        → CarriedOut p (i + 1) ds w₂ ss w'
        → CarriedOut p i (d ∷ ds) w (s ∷ ss) w'

  deref_connection_lem :
      (con : Option ℕ) (w u : Names S) (c : ℕ)
      → deref_connection con w ≡ done (c, u)
      → (con ≡ some c) × (u ≡ w)
  deref_connection_lem none w u c e = absurd (ground (arith, e))
  deref_connection_lem (some d) w u c e = (ground (arith, e), ground (arith, e))

  carried_to :
      (p : Partition) (i : ℕ) (ds : List Drive) (w u w' : Names S) (ss results : List Status)
      → ss ≡ results
      → u ≡ w'
      → CarriedOut p i ds w ss u
      → CarriedOut p i ds w results w'
  carried_to p i ds w u w' ss results same stays h = rw (← same, ← stays) h

  on_drives-CarriedOut :
      (p : Partition) (i : ℕ) (ds : List Drive) (w w' : Names S) (results : List Status)
      → on_drives net op p i ds w ≡ done (results, w')
      → CarriedOut p i ds w results w'
  unfolding on_drives
  on_drives-CarriedOut p i [] w w' results e =
      let (same, stays) = pure-done [] results w w' e in
      carried_to p i [] w w w' [] results same stays (no_drive i w)
  on_drives-CarriedOut p i (d ∷ ds) w w' results e =
      let rest : N S (List Status) = on_drives net op p (i + 1) ds in
      let asked : N S (List Status) = drive_to_connection net p i >>= λ con.
      deref_connection con >>= λ c. op c >>= λ s. rest >>= λ ss. pure (s ∷ ss) in
      elim (if-done (is_red d.status) (rest >>= λ ss. pure (status_of connection_error ∷ ss)) asked
        w w' results e) [
          | inl (down, e₁) ↦
              let (ss, u, ran, e₂) =
                bind-done rest (λ ss. pure (status_of connection_error ∷ ss)) w w' results e₁ in
              let (same, stays) = pure-done (status_of connection_error ∷ ss) results u w' e₂ in
              carried_to p i (d ∷ ds) w u w' (status_of connection_error ∷ ss) results same stays
                (red_drive i d ds w u ss down (on_drives-CarriedOut p (i + 1) ds w u ss ran))
          | inr (up, e₁) ↦
              let (con, w₁, opened, e₂) =
                bind-done (drive_to_connection net p i)
                  (λ con. deref_connection con >>= λ c. op c >>= λ s. rest >>= λ ss. pure (s ∷ ss))
                  w w' results e₁ in
              let (c, u₁, there, e₃) =
                bind-done (deref_connection con) (λ c. op c >>= λ s. rest >>= λ ss. pure (s ∷ ss))
                  w₁ w' results e₂ in
              let (is_con, unmoved) = deref_connection_lem con w₁ u₁ c there in
              let (s, w₂, ran_op, e₄) =
                bind-done (op c) (λ s. rest >>= λ ss. pure (s ∷ ss)) u₁ w' results e₃ in
              let (ss, u, ran, e₅) = bind-done rest (λ ss. pure (s ∷ ss)) w₂ w' results e₄ in
              let (same, stays) = pure-done (s ∷ ss) results u w' e₅ in
              carried_to p i (d ∷ ds) w u w' (s ∷ ss) results same stays (
                asked_drive i c d ds w w₁ w₂ u s ss up
                  (opened ∙ ap (λ (o : Option ℕ). done (o, w₁)) is_con)
                  (ap (op c) (sym unmoved) ∙ ran_op)
                  (on_drives-CarriedOut p (i + 1) ds w₂ u ss ran))
        ]

  module _ (ref : PartitionRef) (key : Str) where
    -- The attempts of a write, each with its fuel and the state it starts from: one that a drive refuses,
    -- because the version of the cluster is another, is followed by the next one after an update of the
    -- partition.
    pub data Attempts : ℕ → Names S → ℕ → Names S → Type 0 where
      last_one : (fuel : ℕ) (w : Names S) → Attempts fuel w fuel w
      outdated :
          (fuel fuel' : ℕ) (w v w₁ w₂ w' : Names S) (q : Partition) (results : List Status)
          (r : Status)
          → partition_at ref w ≡ some q
          → CarriedOut q 0 q.drives w results v
          → log_write net fuel ref key v ≡ done (tt, w₁)
          → first_mismatch results ≡ some r
          → get_partition_update net fuel ref w₁ ≡ done (true, w₂)
          → Attempts fuel w₂ fuel' w'
          → Attempts (suc fuel) w fuel' w'

    -- The last attempt of a write, which starts in state `v`: the operation was carried out on the drives
    -- that the partition then has, and the drives that are not red in it at the end answered OK.
    pub record Done (fuel : ℕ) (w w' : Names S) : Type 0 where
      pub left : ℕ
      pub v : Names S
      pub v' : Names S
      pub partition : Partition
      pub results : List Status
      pub reached : Attempts fuel w left v
      pub current : partition_at ref v ≡ some partition
      pub carried : CarriedOut partition 0 partition.drives v results v'
      pub final : Partition
      pub at_end : partition_at ref w' ≡ some final
      pub answered : Answered ok_code results 0 final.drives

    -- A write that succeeds carried its operation out, in its last attempt, on all the drives that its
    -- partition then had and that were not red, and each drive that is not red in the partition at the
    -- end answered, in that attempt, that it was done well.
    pub write_operation_lem :
        (fuel : ℕ) (w w' : Names S) (s : Status)
        → write_operation net fuel ref key op w ≡ done (s, w')
        → is_ok s.code ≡ true
        → Done fuel w w'
    unfolding write_operation
    write_operation_lem zero w w' s e good = absurd (ground arith)
    write_operation_lem (suc fuel) w w' s e good = elim (Run-cases (load_partition ref w)) [
      | inl stuck ↦ absurd (ground (arith, stuck))
      | inr (q, v, loaded) ↦ elim (Run-cases (on_drives net op q 0 q.drives v)) [
        | inl stuck ↦ absurd (ground (arith, loaded, stuck))
        | inr (results, v', ran) ↦
            let (at, current) = load_partition_lem ref w q v loaded in
            let carried : CarriedOut q 0 q.drives w results v' =
              rw (← at) (on_drives-CarriedOut q 0 q.drives v v' results ran) in
            elim (Run-cases (log_write net fuel ref key v')) [
              | inl stuck ↦ absurd (ground (arith, loaded, ran, stuck))
              | inr (u, w₁, logged) ↦ elim (Option-cases (first_mismatch results)) [
                | inl agreed ↦
                    let (p, at_end, answered) =
                      evaluate_write_lem net fuel ref results w₁ w' s
                        (ground (arith, loaded, ran, logged, agreed)) good in
                    record {
                      left = suc fuel;
                      v = w;
                      v' = v';
                      partition = q;
                      results = results;
                      reached = last_one (suc fuel) w;
                      current = current;
                      carried = carried;
                      final = p;
                      at_end = at_end;
                      answered = answered;
                    }
                | inr (r, differs) ↦ elim (Run-cases (get_partition_update net fuel ref w₁)) [
                  | inl stuck ↦ absurd (ground (arith, loaded, ran, logged, differs, stuck))
                  | inr (true, w₂, updated) ↦
                      let later =
                        write_operation_lem fuel w₂ w' s
                          (ground (arith, loaded, ran, logged, differs, updated)) good in
                      record {
                        left = later.left;
                        v = later.v;
                        v' = later.v';
                        partition = later.partition;
                        results = later.results;
                        reached =
                            outdated fuel later.left w v' w₁ w₂ later.v q results r current carried
                              logged differs updated later.reached;
                        current = later.current;
                        carried = later.carried;
                        final = later.final;
                        at_end = later.at_end;
                        answered = later.answered;
                      }
                  | inr (false, w₂, kept) ↦
                      let bad = first_mismatch_lem results r differs in
                      absurd (ground (arith, loaded, ran, logged, differs, kept, bad))
                ]
              ]
            ]
      ]
    ]
