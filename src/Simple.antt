-- ===== src/Simple.antt =====
-- `SimpleKineticNamespace` of src/namespace/simple_kinetic_namespace.cc: a single drive, over the client
-- library `Net`. The namespace's state is its connection.
use h_flat.Base.{ℕ, Bool, false, if◌then◌else◌, List, Option, Str, str}
use h_flat.World.State.{KineticRecord, WriteMode}
use h_flat.Cluster.Capacity.{Floats, Capacity}
use h_flat.Cluster.State.{Net, Drive, Status, green, is_ok}

-- The drive of the constructor without arguments.
abbrev pub localhost : Drive
localhost = record { status = green; host = str "localhost"; port = 8123 }

module _ {S : Type 0} (net : Net S) where
  -- The constructors: without a connection, `none`, they throw.
  unfoldable pub connect : Drive → S → Option ℕ × S
  connect d = net.connect d.host d.port

  unfoldable pub self_check : ℕ → S → Bool × S
  self_check con s = let (status, s') = net.no_op con s in (is_ok status.code, s')

  unfoldable pub get : ℕ → Str → S → (Status × Option KineticRecord) × S
  get con key = net.get con key

  unfoldable pub delete : ℕ → Str → Str → WriteMode → S → Status × S
  delete con key version mode = net.delete con key version mode

  unfoldable pub put : ℕ → Str → Str → WriteMode → KineticRecord → S → Status × S
  put con key current_version mode r = net.put con key current_version mode r

  unfoldable pub get_version : ℕ → Str → S → (Status × Option Str) × S
  get_version con key = net.get_version con key

  -- Neither end of the range is in it.
  unfoldable pub get_key_range : ℕ → Str → Str → ℕ → S → (Status × List Str) × S
  get_key_range con start end max = net.get_key_range con start false end false max

  -- The capacity of the caller stays as it is if the drive does not answer.
  unfoldable pub get_capacity :
      {F : Type 0} → Floats S F → ℕ → Capacity F → S → (Status × Capacity F) × S
  get_capacity floats con cap s =
      let ((status, answer), s') = floats.get_log con s in
      ((status, if is_ok status.code then answer else cap), s')
