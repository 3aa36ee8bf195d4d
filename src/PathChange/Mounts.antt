-- ===== src/PathChange/Mounts.antt =====
-- The loop of `change` over mount points that a path does not lie below.
use h_flat.Base.{
  ℕ, ◌≡◌, refl, false, List, [], ◌∷◌, ◌++◌, Str, str_eq, str_beq, ◌==◌, length, take, none, All,
  arith,
}
use h_flat.Paths.{find_first, colon}
use h_flat.World.State.{done}
use h_flat.PathChange.{below_mounts}

-- The path does not start with the mount point.
abbrev pub IsElsewhere : Str → Str → Type 0
IsElsewhere mnt path = (take (length mnt) path == mnt) ≡ false

pub below_mounts_elsewhere :
    (hash : Str → ℕ) (mounts : List Str) (path : Str)
    → All (λ mnt. IsElsewhere mnt path) mounts
    → below_mounts hash mounts path ≡ done path
unfolding below_mounts
below_mounts_elsewhere hash [] path apart = refl
below_mounts_elsewhere hash (mnt ∷ mounts) path (other, others) =
    ground (arith, other, below_mounts_elsewhere hash mounts path others)

pub below_mounts_skip :
    (hash : Str → ℕ) (before mounts : List Str) (path : Str)
    → All (λ mnt. IsElsewhere mnt path) before
    → below_mounts hash (before ++ mounts) path ≡ below_mounts hash mounts path
unfolding below_mounts
below_mounts_skip hash [] mounts path apart = refl
below_mounts_skip hash (mnt ∷ before) mounts path (other, others) =
    ground (arith, other, below_mounts_skip hash before mounts path others)

-- A mount point without a colon that a path does not start with is not the start of one either that
-- differs from the path only behind a colon.
pub IsElsewhere-colon :
    (mnt front path tail : Str)
    → find_first colon mnt ≡ none
    → IsElsewhere mnt (front ++ path)
    → IsElsewhere mnt (front ++ (colon ∷ tail))
unfolding find_first str_beq
IsElsewhere-colon [] front path tail plain other = absurd (ground (arith, other))
IsElsewhere-colon (k ∷ mnt) [] path tail plain other = ground (arith, plain)
IsElsewhere-colon (k ∷ mnt) (c ∷ front) path tail plain other =
    ground (arith, plain, other, IsElsewhere-colon mnt front path tail)
