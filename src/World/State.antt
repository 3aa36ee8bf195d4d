-- ===== src/World/State.antt =====
-- `hflat_priv`, the objects that its caches point to, and the monad of a call. What lies outside the
-- repository is the parameter `System`: the drives behind `KineticNamespace`, the protobuf
-- encoding, the clocks and the UUIDs, over an environment state of their own. The objects of type
-- `MetadataInfo` and `DataInfo` that `shared_ptr`s share lie on a heap, and a reference is a
-- position in it. One call runs at a time.
use h_flat.Base.{
  ℕ, Bool, false, List, [], ◌∷◌, ◌++◌, Option, none, some, Str, eqb, if◌then◌else◌, length,
  get_elem?, set, Exec, ok, fault, Fault,
}
use h_flat.Base.Int.{ℤ}
use h_flat.Data.Block.{DataInfo, has_updates}
use h_flat.LruCache.Defs.{LruCache}
use h_flat.PathMap.Defs.{PathMapDb, Limits}
use h_flat.PathMap.Update.{DbEntry, DbSnapshot}
use h_flat.Metadata.Defs.{Metadata, User}

-- The status codes that the program tells apart.
pub data Failure : Type 0 where
  remote_not_found remote_version_mismatch other_failure : Failure

pub data Reply (A : Type 0) : Type 0 where
  answer : A → Reply A
  refused : Failure → Reply A

pub data WriteMode : Type 0 where
  require_same_version ignore_version : WriteMode

pub record KineticRecord : Type 0 where
  pub value : Str
  pub version : Str

pub record System (S : Type 0) : Type 0 where
  pub get : Str → S → Reply KineticRecord × S
  pub put : Str → Str → WriteMode → KineticRecord → S → Reply (Unit {0}) × S
  pub delete : Str → Str → WriteMode → S → Reply (Unit {0}) × S
  pub get_version : Str → S → Reply Str × S
  pub get_key_range : Str → Str → ℕ → S → List Str × S
  pub generate_uuid : S → Str × S
  pub steady_now : S → ℕ × S
  pub time : S → ℕ × S
  pub stoll : Str → Option ℕ
  pub serialize_md : Metadata → Str
  pub parse_md : Str → Option Metadata
  pub serialize_entry : DbEntry → Str
  pub parse_entry : Str → Option DbEntry
  pub serialize_snapshot : DbSnapshot → Str
  pub parse_snapshot : Str → Option DbSnapshot
  pub ticks : ℕ
  pub limits : Limits
  pub context : User
  pub block_size : ℕ
  pub posix_full : Bool

-- `MetadataInfo`; `dirty_data` refers to a data block that a write changed.
pub record MetadataInfo : Type 0 where
  pub system_path : Str
  pub key_version : Str
  pub md : Metadata
  pub dirty_data : Option ℕ

pub record World (S : Type 0) : Type 0 where
  pub metadata_infos : List MetadataInfo
  pub data_infos : List DataInfo
  pub lookup_cache : LruCache Str ℕ
  pub data_cache : LruCache Str ℕ
  pub pmap : PathMapDb
  pub inum_base : ℕ
  pub inum_counter : ℕ
  pub env : S

-- How a call ends: with a result and the new world; or its process does; or it waits for a key that
-- another thread has blocked; or the fuel of the model ran out.
pub data Run (A : Type 0) : Type 0 where
  done : A → Run A
  dies : Fault → Run A
  waiting : Run A
  no_fuel : Run A

abbrev pub M : Type 0 → Type 0 → Type 0
M S A = World S → Run (A × World S)

infixl 5 ◌>>=◌ ◌>>◌
abbrev pub ◌>>=◌ : {S A B : Type 0} → M S A → (A → M S B) → M S B
◌>>=◌ m f w = elim (m w) [
  | done (a, w') ↦ f a w'
  | dies e ↦ dies e
  | waiting ↦ waiting
  | no_fuel ↦ no_fuel
]

abbrev pub ◌>>◌ : {S B : Type 0} → M S (Unit {0}) → M S B → M S B
m >> k = m >>= λ _. k

abbrev pub pure : {S A : Type 0} → A → M S A
pure a w = done (a, w)

abbrev pub from_env : {S A : Type 0} → (S → A × S) → M S A
from_env f w = let (a, s) = f w.env in done (a, record w { env = s })

abbrev pub lift : {S A : Type 0} → Exec A → M S A
lift (ok a) w = done (a, w)
lift (fault e) w = dies e

-- `new MetadataInfo(key)`: the proto defaults, and "0" as the key version.
abbrev pub no_metadata : Metadata
no_metadata = record {
  type = h_flat.Metadata.Defs.posix;
  atime = 0;
  mtime = 0;
  ctime = 0;
  uid = 0;
  gid = 0;
  mode = 0;
  inode_number = 0;
  link_count = 1;
  size = 0;
  blocks = 0;
  xattr = [];
  path_permission_verified = ℤ.pos 0;
  path_permission = [];
  path_permission_children = [];
}

abbrev pub fresh_metadata_info : Str → MetadataInfo
fresh_metadata_info key = record {
  system_path = key;
  key_version = b'0' ∷ [];
  md = no_metadata;
  dirty_data = none;
}

-- `if (err) return err;`
abbrev pub unless_err : {S : Type 0} → ℕ → M S ℕ → M S ℕ
unless_err err k = if eqb err 0 then k else pure err

-- A `shared_ptr` that may be null.
abbrev pub deref : {S : Type 0} → Option ℕ → M S ℕ
deref none w = dies Fault.undefined
deref (some r) w = done (r, w)

-- `REQ_0` and `REQ_TRUE`, which end the process.
abbrev pub req_0 : {S : Type 0} → M S ℕ → M S (Unit {0})
req_0 m = m >>= λ err. if eqb err 0 then pure tt else λ w. dies Fault.assertion

module _ {S : Type 0} where
  unfoldable pub new_metadata_info : Str → M S ℕ
  new_metadata_info key w = done (
    length w.metadata_infos,
    record w { metadata_infos = w.metadata_infos ++ (fresh_metadata_info key ∷ []) },
  )

  -- Reading through a reference that the heap lacks does not happen: references come from `new`.
  unfoldable pub load_md : ℕ → M S MetadataInfo
  load_md r w = elim (get_elem? w.metadata_infos r) [
    | none ↦ dies Fault.undefined
    | some mdi ↦ done (mdi, w)
  ]

  unfoldable pub store_md : ℕ → MetadataInfo → M S (Unit {0})
  store_md r mdi w = done (tt, record w { metadata_infos = set w.metadata_infos r mdi })

  unfoldable pub new_di : DataInfo → M S ℕ
  new_di di w = done (length w.data_infos, record w { data_infos = w.data_infos ++ (di ∷ []) })

  unfoldable pub load_di : ℕ → M S DataInfo
  load_di r w = elim (get_elem? w.data_infos r) [
    | none ↦ dies Fault.undefined
    | some di ↦ done (di, w)
  ]

  unfoldable pub store_di : ℕ → DataInfo → M S (Unit {0})
  store_di r di w = done (tt, record w { data_infos = set w.data_infos r di })

  -- `getKey` and `dirty` of the two caches, as the heap stands.
  abbrev pub md_key : World S → ℕ → Str
  md_key w r = elim (get_elem? w.metadata_infos r) [ none ↦ [] | some mdi ↦ mdi.system_path ]

  abbrev pub di_key : World S → ℕ → Str
  di_key w r = elim (get_elem? w.data_infos r) [ none ↦ [] | some di ↦ di.key ]

  abbrev pub di_dirty : World S → ℕ → Bool
  di_dirty w r = elim (get_elem? w.data_infos r) [ none ↦ false | some di ↦ has_updates di ]

  abbrev pub md_dirty : World S → ℕ → Bool
  md_dirty w r = elim (get_elem? w.metadata_infos r) [
    | none ↦ false
    | some mdi ↦ elim mdi.dirty_data [ none ↦ false | some d ↦ di_dirty w d ]
  ]
