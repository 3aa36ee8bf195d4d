-- ===== src/Cluster/Reading.antt =====
-- Where the answer of a read comes from.
use h_flat.Base.{
  ℕ, zero, suc, ◌≡◌, sym, ap, ◌∙◌, Bool, true, false, Option, arith, if◌then◌else◌, inl, inr, ◌⊎◌,
}
use h_flat.World.State.{done}
use h_flat.Cluster.State.{
  Names, Net, N, PartitionRef, Status, is_green, is_ok, pure, is_cluster_version_mismatch,
  load_partition, ◌>>=◌,
}
use h_flat.Cluster.Drives.{drive_to_connection, get_partition_update}
use h_flat.Cluster.Membership.{pick_drive, disable_drive}
use h_flat.Cluster.Quorum.{fails_reader, read_operation}
use h_flat.Cluster.Repair.{or_left}
use h_flat.Cluster.Post.{bind-done, if-done, load_partition_lem}
use h_flat.Cluster.Retries.{
  mismatch_lem, fails_reader_lem, other_answer, attempt, IsRetried, tried, Attempt, pick_drive_lem,
  earlier, finished,
}

module _ {S : Type 0} (net : Net S) where
  -- What `readOperation` makes of an answer, with the call that starts again.
  abbrev decided :
      {A : Type 0}
      → ℕ
      → PartitionRef
      → ℕ
      → (Option A → N S (Status × Option A))
      → Option A
      → Status × Option A
      → N S (Status × Option A)
  decided fuel ref i again held r =
      if is_cluster_version_mismatch r.0.code
      then (do
        updated ← get_partition_update net fuel ref
        if updated then again (or_left r.1 held) else pure (r.0, or_left r.1 held))
      else if fails_reader r.0.code
      then (do
        disabled ← disable_drive net fuel ref i
        if disabled then again (or_left r.1 held) else pure (r.0, or_left r.1 held))
      else pure (r.0, or_left r.1 held)

  abbrev one_attempt :
      {A : Type 0}
      → ℕ
      → PartitionRef
      → (ℕ → N S (Status × Option A))
      → (Option A → N S (Status × Option A))
      → Option A
      → N S (Status × Option A)
  one_attempt fuel ref op again held = do
    p ← load_partition ref
    i ← pick_drive net fuel is_green p
    con ← drive_to_connection net p i
    r ← attempt con op
    decided fuel ref i again held r

  decided_lem :
      {A : Type 0} {P : Type 0} (fuel : ℕ) (ref : PartitionRef) (i : ℕ)
      (again : Option A → N S (Status × Option A)) (held g got : Option A) (s s' : Status)
      (w w' : Names S)
      → decided fuel ref i again held (s', g) w ≡ done ((s, got), w')
      → is_ok s.code ≡ true
      → ((h : Option A) (v : Names S)
          → IsRetried net fuel ref i s' w v
          → again h v ≡ done ((s, got), w')
          → P)
      → P
        ⊎ ((fails_reader s'.code ≡ false)
            × (pure {A = Status × Option A} (s', or_left g held) w ≡ done ((s, got), w')))
  decided_lem fuel ref i again held g got s s' w w' e good rest =
      elim (if-done (is_cluster_version_mismatch s'.code) _ _ w w' (s, got) e) [
        | inl (mismatch, e') ↦
            let (updated, v, ran, e'') =
              bind-done (get_partition_update net fuel ref) _ w w' (s, got) e' in
            elim (if-done updated _ _ v w' (s, got) e'') [
              | inl (good_update, more) ↦ inl (
                  rest (or_left g held) v
                    (inl (mismatch, ran ∙ ap (λ (b : Bool). done (b, v)) good_update)) more)
              | inr (_, end_of) ↦ inl (
                  other_answer s s' (or_left g held) got v w' end_of (mismatch_lem s'.code mismatch)
                    good)
            ]
        | inr (_, e') ↦ elim (if-done (fails_reader s'.code) _ _ w w' (s, got) e') [
          | inl (failed, e'') ↦
              let (disabled, v, ran, e₃) =
                bind-done (disable_drive net fuel ref i) _ w w' (s, got) e'' in
              elim (if-done disabled _ _ v w' (s, got) e₃) [
                | inl (good_update, more) ↦ inl (
                    rest (or_left g held) v
                      (inr (failed, ran ∙ ap (λ (b : Bool). done (b, v)) good_update)) more)
                | inr (_, end_of) ↦ inl (
                    other_answer s s' (or_left g held) got v w' end_of
                      (fails_reader_lem s'.code failed) good)
              ]
          | inr fine ↦ inr fine
        ]
      ]

  one_attempt_lem :
      {A : Type 0} (fuel : ℕ) (ref : PartitionRef) (op : ℕ → N S (Status × Option A))
      (again : Option A → N S (Status × Option A)) (held got : Option A) (w w' : Names S)
      (s : Status)
      → one_attempt fuel ref op again held w ≡ done ((s, got), w')
      → is_ok s.code ≡ true
      → ((h : Option A) (v : Names S)
          → again h v ≡ done ((s, got), w')
          → Attempt net ref op fuel v s got w')
      → Attempt net ref op (suc fuel) w s got w'
  one_attempt_lem fuel ref op again_it held got w w' s e good rest =
      let (p, w₁, loaded, e₁) = bind-done (load_partition ref) _ w w' (s, got) e in
      let (i, w₂, picked, e₂) = bind-done (pick_drive net fuel is_green p) _ w₁ w' (s, got) e₁ in
      let (con, w₃, opened, e₃) = bind-done (drive_to_connection net p i) _ w₂ w' (s, got) e₂ in
      let ((s', g), w₄, ran, e₄) =
        bind-done (attempt con op) (decided fuel ref i again_it held) w₃ w' (s, got) e₃ in
      let (stays, current) = load_partition_lem ref w p w₁ loaded in
      let chosen = ap (pick_drive net fuel is_green p) (sym stays) ∙ picked in
      elim (decided_lem fuel ref i again_it held g got s s' w₄ w' e₄ good (λ h v why more.
        earlier net ref op fuel (suc fuel) w v w' s got
          (λ left u others.
            tried fuel left i con p w w₂ w₃ w₄ v u s' g current chosen opened ran why others)
          (rest h v more))) [
            | inl there ↦ there
            | inr (fine, end_of) ↦
                let (d, listed, green) = pick_drive_lem net fuel is_green p w₁ w₂ i picked in
                finished net fuel ref op g held got s s' w w₂ w₃ w₄ w' p i d con current chosen
                  listed green opened ran fine end_of
          ]

  -- A read that is answered with OK is the answer of a drive that was green in its partition at the last
  -- of the read's attempts, over the connection to it, and the state is the one that this attempt left;
  -- what the drive answered with is what the caller gets. An attempt that is not the last one ended with
  -- an update of the partition or with the drive disabled.
  pub read_operation_lem :
      {A : Type 0} (fuel : ℕ) (ref : PartitionRef) (op : ℕ → N S (Status × Option A))
      (held got : Option A) (w w' : Names S) (s : Status)
      → read_operation net fuel ref op held w ≡ done ((s, got), w')
      → is_ok s.code ≡ true
      → Attempt net ref op fuel w s got w'
  unfolding read_operation
  read_operation_lem zero ref op held got w w' s e good = absurd (ground (arith, e))
  read_operation_lem (suc fuel) ref op held got w w' s e good =
      one_attempt_lem fuel ref op (read_operation net fuel ref op) held got w w' s e good
        (λ h v more. read_operation_lem fuel ref op h got v w' s more good)
