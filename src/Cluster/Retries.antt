-- ===== src/Cluster/Retries.antt =====
-- The attempts of `readOperation` of src/namespace/distributed_kinetic_namespace.cc, each with the drive that it picks.
use h_flat.Base.{
  ℕ, zero, suc, ◌≡◌, refl, sym, ap, ◌∙◌, Bool, true, false, List, Option, none, some, get_elem?,
  arith, if◌then◌else◌, Option-cases, Bool-cases, inl, inr, ◌⊎◌,
}
use h_flat.World.State.{done}
use h_flat.Cluster.State.{
  Names, Net, N, Partition, PartitionRef, Drive, DriveStatus, Status, Code, is_green, is_ok, pure,
  status_of, connection_error, is_cluster_version_mismatch, partition_at, drive_of,
}
use h_flat.Cluster.Drives.{drive_to_connection, get_partition_update}
use h_flat.Cluster.Membership.{pick_drive, disable_drive}
use h_flat.Cluster.Quorum.{fails_reader}
use h_flat.Cluster.Repair.{or_left}
use h_flat.Cluster.Post.{pure-done, drive_of_lem}
use h_flat.World.Post.{Run-cases}

pub mismatch_lem : (c : Code) → is_cluster_version_mismatch c ≡ true → is_ok c ≡ false
mismatch_lem c h = ground (arith, h)

pub fails_reader_lem : (c : Code) → fails_reader c ≡ true → is_ok c ≡ false
fails_reader_lem c h = ground (arith, h)

-- An answer that is not OK is not one that is.
pub other_answer :
    {S A : Type 0} {P : Type 0} (s s' : Status) (g got : Option A) (w v : Names S)
    → pure {A = Status × Option A} (s', g) w ≡ done ((s, got), v)
    → is_ok s'.code ≡ false
    → is_ok s.code ≡ true
    → P
other_answer s s' g got w v e bad good =
    let (same, _) = pure-done (s', g) (s, got) w v e in
    absurd (ground (arith, ap (λ r. is_ok r.0.code) same, bad, good))

abbrev pub attempt :
    {S A : Type 0} → Option ℕ → (ℕ → N S (Status × Option A)) → N S (Status × Option A)
attempt con op = elim con [ none ↦ pure (status_of connection_error, none) | some c ↦ op c ]

module _ {S : Type 0} (net : Net S) where
  pub pick_drive_lem :
      (fuel : ℕ) (f : DriveStatus → Bool) (p : Partition) (w v : Names S) (i : ℕ)
      → pick_drive net fuel f p w ≡ done (i, v)
      → (d : Drive) × (get_elem? p.drives i ≡ some d) × (f d.status ≡ true)
  unfolding pick_drive
  pick_drive_lem zero f p w v i e = absurd (ground (arith, e))
  pick_drive_lem (suc fuel) f p w v i e =
      let (j, s) = net.uniform (h_flat.Base.length p.drives) w.env in
      let w₁ = record w { env = s } in
      elim (Run-cases (drive_of p j w₁)) [
        | inl stuck ↦ absurd (ground (arith, e, stuck))
        | inr (d, w₂, got) ↦
            let (_, at) = drive_of_lem p j w₁ d w₂ got in
            elim (Bool-cases (f d.status)) [
              | inl chosen ↦ (d, ground (arith, e, got, chosen, at), chosen)
              | inr other ↦ pick_drive_lem fuel f p w₂ v i (ground (arith, e, got, other))
            ]
      ]

  -- Why a read is tried again: a newer version of the partition was found, or the drive was disabled.
  abbrev pub IsRetried : ℕ → PartitionRef → ℕ → Status → Names S → Names S → Type 0
  IsRetried fuel ref i s w v =
      ((is_cluster_version_mismatch s.code ≡ true)
        × (get_partition_update net fuel ref w ≡ done (true, v)))
      ⊎ ((fails_reader s.code ≡ true) × (disable_drive net fuel ref i w ≡ done (true, v)))

  -- The attempts of a read, each with its fuel and the state it starts from.
  pub data Retries {A : Type 0} (ref : PartitionRef) (op : ℕ → N S (Status × Option A))
      : ℕ → Names S → ℕ → Names S → Type 0 where
    last_one : (fuel : ℕ) (w : Names S) → Retries ref op fuel w fuel w
    tried :
        (fuel fuel' i : ℕ) (con : Option ℕ) (p : Partition) (w w₂ w₃ w₄ v w' : Names S) (s : Status)
        (g : Option A)
        → partition_at ref w ≡ some p
        → pick_drive net fuel is_green p w ≡ done (i, w₂)
        → drive_to_connection net p i w₂ ≡ done (con, w₃)
        → attempt con op w₃ ≡ done ((s, g), w₄)
        → IsRetried fuel ref i s w₄ v
        → Retries ref op fuel v fuel' w'
        → Retries ref op (suc fuel) w fuel' w'

  -- The attempt that a read answers with, the last one of its attempts: a green drive of the partition,
  -- as it then is, picked in it, with its connection, and the operation over that.
  pub record Attempt {A : Type 0} (ref : PartitionRef) (op : ℕ → N S (Status × Option A)) (fuel : ℕ)
      (w : Names S) (s : Status) (got : Option A) (w' : Names S) : Type 0 where
    pub left : ℕ
    pub before : Names S
    pub partition : Partition
    pub index : ℕ
    pub drive : Drive
    pub connection : ℕ
    pub picked : Names S
    pub connected : Names S
    pub answer : Option A
    pub reached : Retries ref op fuel w (suc left) before
    pub current : partition_at ref before ≡ some partition
    pub chosen : pick_drive net left is_green partition before ≡ done (index, picked)
    pub listed : get_elem? partition.drives index ≡ some drive
    pub green : is_green drive.status ≡ true
    pub opened : drive_to_connection net partition index picked ≡ done (some connection, connected)
    pub kept : (a : A) → answer ≡ some a → got ≡ some a
    pub ran : op connection connected ≡ done ((s, answer), w')

  -- An attempt in front of the others.
  pub earlier :
      {A : Type 0} (ref : PartitionRef) (op : ℕ → N S (Status × Option A)) (fuel fuel' : ℕ)
      (w v w' : Names S) (s : Status) (got : Option A)
      → ((left : ℕ) (u : Names S) → Retries ref op fuel v left u → Retries ref op fuel' w left u)
      → Attempt ref op fuel v s got w'
      → Attempt ref op fuel' w s got w'
  earlier ref op fuel fuel' w v w' s got longer a = record {
    left = a.left;
    before = a.before;
    partition = a.partition;
    index = a.index;
    drive = a.drive;
    connection = a.connection;
    picked = a.picked;
    connected = a.connected;
    answer = a.answer;
    reached = longer (suc a.left) a.before a.reached;
    current = a.current;
    chosen = a.chosen;
    listed = a.listed;
    green = a.green;
    opened = a.opened;
    kept = a.kept;
    ran = a.ran;
  }

  attempt_lem :
      {A : Type 0} (con : Option ℕ) (op : ℕ → N S (Status × Option A)) (g : Option A) (s : Status)
      (w v : Names S)
      → attempt con op w ≡ done ((s, g), v)
      → fails_reader s.code ≡ false
      → (c : ℕ) × (con ≡ some c) × (op c w ≡ done ((s, g), v))
  attempt_lem none op g s w v e fine =
      let (same, _) = pure-done (status_of connection_error, none) (s, g) w v e in
      absurd (ground (arith, ap (λ r. fails_reader r.0.code) same, fine))
  attempt_lem (some c) op g s w v e fine = (c, refl, e)

  kept_lem : {A : Type 0} (a : A) (g held : Option A) → g ≡ some a → or_left g held ≡ some a
  kept_lem a none held e = absurd (ground (arith, e))
  kept_lem a (some b) held e = e

  pub finished :
      {A : Type 0} (fuel : ℕ) (ref : PartitionRef) (op : ℕ → N S (Status × Option A))
      (g held got : Option A) (s s' : Status) (w w₂ w₃ w₄ w' : Names S) (p : Partition) (i : ℕ)
      (d : Drive) (con : Option ℕ)
      → partition_at ref w ≡ some p
      → pick_drive net fuel is_green p w ≡ done (i, w₂)
      → get_elem? p.drives i ≡ some d
      → is_green d.status ≡ true
      → drive_to_connection net p i w₂ ≡ done (con, w₃)
      → attempt con op w₃ ≡ done ((s', g), w₄)
      → fails_reader s'.code ≡ false
      → pure {A = Status × Option A} (s', or_left g held) w₄ ≡ done ((s, got), w')
      → Attempt ref op (suc fuel) w s got w'
  finished {A} fuel ref op g held got s s' w w₂ w₃ w₄ w' p i d con current chosen listed green
        open_it ran fine end_of =
      let (c, connected, answered) = attempt_lem con op g s' w₃ w₄ ran fine in
      let (same, left) =
        pure-done {A = Status × Option A} (s', or_left g held) (s, got) w₄ w' end_of in
      record {
        left = fuel;
        before = w;
        reached = last_one (suc fuel) w;
        chosen = chosen;
        partition = p;
        index = i;
        drive = d;
        connection = c;
        picked = w₂;
        connected = w₃;
        opened = open_it ∙ ap (λ (o : Option ℕ). done (o, w₃)) connected;
        kept = λ a e. ap (λ (r : Status × Option A). r.1) (sym same) ∙ kept_lem a g held e;
        answer = g;
        current = current;
        listed = listed;
        green = green;
        ran =
            answered
            ∙ (ap (λ (t : Status × Option A). done ((t.0, g), w₄)) same
                ∙ ap (λ (u : Names S). done ((s, g), u)) left);
      }
