-- ===== src/Cluster/Post.antt =====
-- What holds of a call's result and the state it leaves, if it returns.
use h_flat.Base.{
  Bool, true, false, if◌then◌else◌, ◌≡◌, refl, ◌⊎◌, some, get_elem?, ℕ, Option-cases, inl, inr,
  arith,
}
use h_flat.World.State.{done}
use h_flat.World.Post.{Run-cases}
use h_flat.Cluster.State.{
  Names, N, ◌>>=◌, ◌>>◌, pure, Partition, PartitionRef, Drive, partition_at, load_partition,
  drive_of,
}

pub load_partition_lem :
    {S : Type 0} (ref : PartitionRef) (w : Names S) (p : Partition) (v : Names S)
    → load_partition ref w ≡ done (p, v)
    → (v ≡ w) × (partition_at ref w ≡ some p)
unfolding load_partition
load_partition_lem ref w p v e = elim (Option-cases (partition_at ref w)) [
  | inl missing ↦ absurd (ground (arith, missing))
  | inr (q, at) ↦ (ground (arith, at), ground (arith, at))
]

pub drive_of_lem :
    {S : Type 0} (p : Partition) (i : ℕ) (w : Names S) (d : Drive) (v : Names S)
    → drive_of p i w ≡ done (d, v)
    → (v ≡ w) × (get_elem? p.drives i ≡ some d)
unfolding drive_of
drive_of_lem p i w d v e = elim (Option-cases (get_elem? p.drives i)) [
  | inl missing ↦ absurd (ground (arith, missing))
  | inr (q, at) ↦ (ground (arith, at), ground (arith, at))
]

-- A call that is made of two returns only if both do.
pub bind-done :
    {S A B : Type 0} (m : N S A) (f : A → N S B) (w v : Names S) (b : B)
    → (m >>= f) w ≡ done (b, v)
    → (a : A) × (u : Names S) × (m w ≡ done (a, u)) × (f a u ≡ done (b, v))
bind-done m f w v b e = elim (Run-cases (m w)) [
  | inl stuck ↦ absurd (ground (arith, stuck, e))
  | inr (a, u, ran) ↦ (a, u, ran, ground (arith, ran, e))
]

pub then-done :
    {S B : Type 0} (m : N S (Unit {0})) (k : N S B) (w v : Names S) (b : B)
    → (m >> k) w ≡ done (b, v)
    → (u : Names S) × (m w ≡ done (tt, u)) × (k u ≡ done (b, v))
then-done m k w v b e = let (t, u, ran, rest) = bind-done m (λ _. k) w v b e in (u, ran, rest)

pub if-done :
    {S B : Type 0} (c : Bool) (m n : N S B) (w v : Names S) (b : B)
    → (if c then m else n) w ≡ done (b, v)
    → ((c ≡ true) × (m w ≡ done (b, v))) ⊎ ((c ≡ false) × (n w ≡ done (b, v)))
if-done true m n w v b e = inl (refl, e)
if-done false m n w v b e = inr (refl, e)

pub pure-done :
    {S A : Type 0} (a b : A) (w v : Names S) → pure a w ≡ done (b, v) → (a ≡ b) × (w ≡ v)
pure-done a b w v e = (ground (arith, e), ground (arith, e))
