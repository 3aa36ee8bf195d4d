-- ===== src/Cluster/State.antt =====
-- `hflat::Partition` of src/proto/replication.proto, the state of `DistributedKineticNamespace`, and
-- the monad of its calls. The client library of the drives is the parameter `Net`: a connection is a
-- number that it hands out. The threads of a call run in the order in which they are started.
use h_flat.Base.{
  ℕ, ◌+◌, ◌-◌, ◌%◌, ◌^◌, Bool, true, false, List, Option, none, some, Str, Dict, get_elem?, set,
  Fault,
}
use h_flat.World.State.{KineticRecord, WriteMode, Run, done, dies, waiting, no_fuel}

pub data DriveStatus : Type 0 where
  green yellow red : DriveStatus

pub record Drive : Type 0 where
  pub status : DriveStatus
  pub host : Str
  pub port : ℕ

pub record Partition : Type 0 where
  pub cluster_version : ℕ
  pub partition_id : Option ℕ
  pub drives : List Drive
  pub log_id : Option ℕ

-- The status codes that the program tells apart.
pub data Code : Type 0 where
  ok_code not_found version_mismatch cluster_version_mismatch : Code
  not_authorized connection_error other_error further_code : Code

pub record Status : Type 0 where
  pub code : Code
  pub expected_cluster_version : ℕ

-- What a call leaves in a pointer that it takes by reference is `none` where it leaves the pointer as
-- it is. `parse_partition` is what `ParseFromString` leaves in its message.
pub record Net (S : Type 0) : Type 0 where
  pub connect : Str → ℕ → S → Option ℕ × S
  pub no_op : ℕ → S → Status × S
  pub set_client_cluster_version : ℕ → ℕ → S → S
  pub set_cluster_version : ℕ → ℕ → S → S
  pub get : ℕ → Str → S → (Status × Option KineticRecord) × S
  pub get_version : ℕ → Str → S → (Status × Option Str) × S
  pub put : ℕ → Str → Str → WriteMode → KineticRecord → S → Status × S
  pub delete : ℕ → Str → Str → WriteMode → S → Status × S
  pub get_key_range : ℕ → Str → Bool → Str → Bool → ℕ → S → (Status × List Str) × S
  pub uniform : ℕ → S → ℕ × S
  pub hash : Str → ℕ
  pub serialize_partition : Partition → Str
  pub parse_partition : Str → Partition

-- `local_copy` is the partition that `GetKeyRange` copies into a variable.
pub record Names (S : Type 0) : Type 0 where
  pub cluster_map : List Partition
  pub log_partition : Partition
  pub local_copy : Partition
  pub connection_map : Dict (Str × ℕ) ℕ
  pub direntry_clustersize : ℕ
  pub env : S

-- What a `Partition &` refers to.
pub data PartitionRef : Type 0 where
  mapped : ℕ → PartitionRef
  logging copied : PartitionRef

abbrev pub N : Type 0 → Type 0 → Type 0
N S A = Names S → Run (A × Names S)

infixl 5 ◌>>=◌ ◌>>◌
abbrev pub ◌>>=◌ : {S A B : Type 0} → N S A → (A → N S B) → N S B
◌>>=◌ m f w = elim (m w) [
  | done (a, w') ↦ f a w'
  | dies e ↦ dies e
  | waiting ↦ waiting
  | no_fuel ↦ no_fuel
]

abbrev pub ◌>>◌ : {S B : Type 0} → N S (Unit {0}) → N S B → N S B
m >> k = m >>= λ _. k

abbrev pub pure : {S A : Type 0} → A → N S A
pure a w = done (a, w)

abbrev pub from_env : {S A : Type 0} → (S → A × S) → N S A
from_env f w = let (a, s) = f w.env in done (a, record w { env = s })

abbrev pub in_env : {S : Type 0} → (S → S) → N S (Unit {0})
in_env f w = done (tt, record w { env = f w.env })

abbrev pub is_green : DriveStatus → Bool
is_green green = true
is_green yellow = false
is_green red = false

abbrev pub is_red : DriveStatus → Bool
is_red green = false
is_red yellow = false
is_red red = true

abbrev pub is_ok : Code → Bool
is_ok ok_code = true
is_ok _ = false

abbrev pub is_not_found : Code → Bool
is_not_found not_found = true
is_not_found _ = false

abbrev pub is_version_mismatch : Code → Bool
is_version_mismatch version_mismatch = true
is_version_mismatch _ = false

abbrev pub is_cluster_version_mismatch : Code → Bool
is_cluster_version_mismatch cluster_version_mismatch = true
is_cluster_version_mismatch _ = false

abbrev pub is_other_error : Code → Bool
is_other_error other_error = true
is_other_error _ = false

-- The cluster version is an unsigned 64-bit field.
abbrev pub version_up : ℕ → ℕ
version_up v = (v + 1) % 2 ^ 64

abbrev pub version_down : ℕ → ℕ
version_down v = (v + 2 ^ 64 - 1) % 2 ^ 64

abbrev pub status_of : Code → Status
status_of code = record { code = code; expected_cluster_version = 0 }

-- The partition with another status of one of its drives.
unfoldable pub set_drive_status : ℕ → DriveStatus → Partition → Partition
set_drive_status i status p = elim (get_elem? p.drives i) [
  | none ↦ p
  | some d ↦ record p { drives = set p.drives i (record d { status = status }) }
]

-- The partition that a reference stands for, in a state.
unfoldable pub partition_at : {S : Type 0} → PartitionRef → Names S → Option Partition
partition_at (mapped i) w = get_elem? w.cluster_map i
partition_at logging w = some w.log_partition
partition_at copied w = some w.local_copy

module _ {S : Type 0} where
  unfoldable pub load_partition : PartitionRef → N S Partition
  unfolding partition_at
  load_partition r w = elim (partition_at r w) [
    | none ↦ dies Fault.undefined
    | some p ↦ done (p, w)
  ]

  unfoldable pub store_partition : PartitionRef → Partition → N S (Unit {0})
  store_partition (mapped i) p w = done (tt, record w { cluster_map = set w.cluster_map i p })
  store_partition logging p w = done (tt, record w { log_partition = p })
  store_partition copied p w = done (tt, record w { local_copy = p })

  -- `p.drives(i)`, which checks its index.
  unfoldable pub drive_of : Partition → ℕ → N S Drive
  drive_of p i w = elim (get_elem? p.drives i) [
    | none ↦ dies Fault.assertion
    | some d ↦ done (d, w)
  ]
