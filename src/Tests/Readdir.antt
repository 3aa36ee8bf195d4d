-- ===== src/Tests/Readdir.antt =====
-- A directory with two entries, one of them under a name with a zero byte.
use h_flat.Base.{
  ℕ, zero, suc, ◌+◌, ◌≡◌, refl, List, [], ◌∷◌, ◌++◌, none, some, Str, str, str_eq, str_beq, ◌==◌,
  if◌then◌else◌, take, drop, arith, map, true,
}
use h_flat.Base.Int.{pos}
use h_flat.LruCache.Defs.{LruCache}
use h_flat.Metadata.Defs.{Metadata, check_access}
use h_flat.Paths.{c_string, to_string}
use h_flat.World.State.{
  System, World, MetadataInfo, Run, answer, no_metadata, fresh_metadata_info, load_md, done, dies,
  waiting, no_fuel,
}
use h_flat.World.Lookup.{lookup}
use h_flat.Ops.Create.{direntry_key}
use h_flat.Ops.Stat.{back_or, hflat_readdir}
use h_flat.Ops.Readdir.{Listing, first_key, last_key, hflat_readdir_lem}

abbrev plain : Str
plain = str "a|b"

abbrev with_zero : Str
with_zero = b'c' ∷ 0 ∷ b'd' ∷ []

abbrev directory : Metadata
directory = record no_metadata {
  uid = 1;
  gid = 1;
  mode = 0o040755;
  inode_number = 42;
  path_permission_verified = pos 1;
}

abbrev first_entry : Str
first_entry = str "42|" ++ plain

abbrev second_entry : Str
second_entry = str "42|" ++ with_zero

abbrev entries_behind : Str → List Str
entries_behind key =
    if key == str "42|"
    then first_entry ∷ second_entry ∷ []
    else if key == first_entry
    then second_entry ∷ []
    else []

-- Every key but those of the entries holds the directory.
abbrev drive : System ℕ
drive = record {
  get = λ k s. (answer (record { value = []; version = [] }), s);
  put = λ k v mode rec s. (answer tt, s);
  delete = λ k v mode s. (answer tt, s);
  get_version = λ k s. (answer [], s);
  get_key_range = λ a b n s. (take n (entries_behind a), suc s);
  generate_uuid = λ s. ([], s);
  steady_now = λ s. (0, s);
  time = λ s. (0, s);
  stoll = λ s. none;
  serialize_md = λ md. [];
  parse_md = λ s. some directory;
  serialize_entry = λ e. [];
  parse_entry = λ s. none;
  serialize_snapshot = λ e. [];
  parse_snapshot = λ s. none;
  ticks = 1;
  limits = record {
    path_max = 4096;
    name_max = 255;
    max_symlinks = 32;
    enametoolong = 36;
    eloop = 40;
  };
  context = record { uid = 1; gid = 1 };
  block_size = 8;
  posix_full = true;
}

abbrev no_cache : LruCache Str ℕ
no_cache = record {
  cache = [];
  lookup_map = [];
  blocked_keys = [];
  expiration_time = 100;
  capacity = 2;
  next_node = 0;
}

abbrev at_start : World ℕ
at_start = record {
  metadata_infos = [];
  data_infos = [];
  lookup_cache = no_cache;
  data_cache = no_cache;
  pmap = record { snapshot_version = 0; snapshot = [] };
  inum_base = 0;
  inum_counter = 0;
  env = 0;
}

abbrev world_of : {A : Type 0} → Run (A × World ℕ) → World ℕ
world_of (done r) = r.1
world_of (dies e) = at_start
world_of waiting = at_start
world_of no_fuel = at_start

abbrev after_lookup : World ℕ
after_lookup = world_of (lookup drive 9 (str "/") at_start)

abbrev info : MetadataInfo
info = record (fresh_metadata_info (str "/")) { md = directory; key_version = [] }

entries_page :
    (s n : ℕ)
    → take 100
        (entries_behind (back_or (first_key directory) (take n (first_entry ∷ second_entry ∷ []))))
      ≡ take 100 (drop n (first_entry ∷ second_entry ∷ []))
unfolding str_beq to_string
entries_page s zero = refl
entries_page s (suc zero) = refl
entries_page s (suc (suc zero)) = refl
entries_page s (suc (suc (suc n))) = refl

abbrev listing : Listing drive (first_key directory) (last_key directory)
listing = record {
  keys = λ s. first_entry ∷ second_entry ∷ [];
  page = entries_page;
  keeps = λ s from. refl;
}

found : lookup drive 9 (str "/") at_start ≡ done ((0, some 0), after_lookup)
unfolding lookup str_beq to_string h_flat.Base.lookup
found = refl

loaded : load_md 0 after_lookup ≡ done (info, after_lookup)
unfolding lookup load_md str_beq to_string h_flat.Base.lookup
loaded = refl

readable : check_access drive.context directory 4 ≡ 0
unfolding check_access
readable = refl

held : (first_entry ∷ second_entry ∷ []) ≡ map (direntry_key drive 42) (plain ∷ with_zero ∷ [])
unfolding direntry_key
held = refl

hflat_readdir_lem_example :
    (w' : World ℕ) × (hflat_readdir drive 9 (str "/") at_start
      ≡ done ((0, map c_string (plain ∷ with_zero ∷ [])), w'))
hflat_readdir_lem_example =
    hflat_readdir_lem drive 9 0 (str "/") info (plain ∷ with_zero ∷ []) at_start after_lookup
      listing found loaded readable held (omega arith)

cut_at_zero : map c_string (plain ∷ with_zero ∷ []) ≡ str "a|b" ∷ str "c" ∷ []
unfolding c_string
cut_at_zero = refl
