-- ===== src/Tests/Inodes.antt =====
-- Two clients that mount the file system and generate a number each.
use h_flat.Base.{
  ℕ, zero, suc, ◌+◌, ◌≡◌, refl, ◌⊎◌, inl, inr, [], ◌∷◌, Option, none, some, Str, true, ap,
}
use h_flat.LruCache.Defs.{LruCache}
use h_flat.World.State.{
  System, World, Reply, answer, refused, remote_not_found, other_failure, no_metadata,
}
use h_flat.World.Inodes.{Counting}
use h_flat.World.Apart.{Clients, with_world}

-- The namespace is the number of the next block.
abbrev stored_version : ℕ → Reply Str
stored_version zero = refused remote_not_found
stored_version (suc n) = answer (suc n ∷ [])

abbrev number_of : Str → Option ℕ
number_of [] = none
number_of (n ∷ s) = some n

abbrev counter : System ℕ
counter = record {
  get = λ k s. (refused remote_not_found, s);
  put = λ k v mode rec s. (answer tt, s + 65535);
  delete = λ k v mode s. (answer tt, s);
  get_version = λ k s. (stored_version s, s);
  get_key_range = λ a b n s. ([], s);
  generate_uuid = λ s. ([], s);
  steady_now = λ s. (0, s);
  time = λ s. (0, s);
  stoll = number_of;
  serialize_md = λ md. [];
  parse_md = λ s. some no_metadata;
  serialize_entry = λ e. [];
  parse_entry = λ s. none;
  serialize_snapshot = λ e. [];
  parse_snapshot = λ s. none;
  ticks = 1;
  limits = record {
    path_max = 4096;
    name_max = 255;
    max_symlinks = 32;
    enametoolong = 36;
    eloop = 40;
  };
  context = record { uid = 1; gid = 1 };
  block_size = 8;
  posix_full = true;
}

read_counter :
    (s : ℕ)
    → ((stored_version s ≡ refused remote_not_found) × (s ≡ 0))
      ⊎ (((v : Str) × (stored_version s ≡ answer v) × (number_of v ≡ some s))
          ⊎ (stored_version s ≡ refused other_failure))
read_counter zero = inl (refl, refl)
read_counter (suc n) = inr (inl (suc n ∷ [], refl, refl))

abbrev counting : Counting counter
counting = record {
  token = λ s. s;
  read_token = read_counter;
  read_keeps = λ s. refl;
  claim_token = λ s n same. inl (refl, ap (λ m. m + 65535) same);
}

abbrev no_cache : LruCache Str ℕ
no_cache = record {
  cache = [];
  lookup_map = [];
  blocked_keys = [];
  expiration_time = 100;
  capacity = 2;
  next_node = 0;
}

abbrev client : ℕ → ℕ → ℕ → World ℕ
client base used token = record {
  metadata_infos = [];
  data_infos = [];
  lookup_cache = no_cache;
  data_cache = no_cache;
  pmap = record { snapshot_version = 0; snapshot = [] };
  inum_base = base;
  inum_counter = used;
  env = token;
}

abbrev nobody : Clients ℕ
nobody = record { worlds = λ i. none; env = 0; issued = [] }

abbrev both : ℕ → Option (World ℕ)
both = with_world 1 (client 65535 1 131070) (
    with_world 0 (client 0 1 131070)
      (with_world 1 (client 65535 0 131070) (with_world 0 (client 0 0 65535) (λ i. none))))

abbrev served : Clients ℕ
served = record { worlds = both; env = 131070; issued = 65536 ∷ 1 ∷ [] }
