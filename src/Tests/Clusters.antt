-- ===== src/Tests/Clusters.antt =====
-- Three drives of one partition, the third of which fails a write.
use h_flat.Base.{
  ℕ, ◌+◌, ◌%◌, ◌<◌, ◌≤◌, ◌≡◌, refl, true, [], ◌∷◌, none, some, Str, str, length, eqb, if◌then◌else◌,
  arith, Dict, lookup, insert, str_beq, erase,
}
use h_flat.Paths.{find_first}
use h_flat.World.State.{require_same_version, done}
use h_flat.Cluster.State.{
  Names, Net, Partition, mapped, Drive, DriveStatus, green, red, Status, Code, ok_code,
  connection_error, status_of, N, from_env,
}
use h_flat.Cluster.Quorum.{write_operation, read_operation}
use h_flat.Cluster.Operations.{range_on, get_key_range}
use h_flat.Cluster.Ranges.{IsSorted, get_key_range_lem}
use h_flat.Cluster.Retries.{Attempt}
use h_flat.Cluster.Reading.{read_operation_lem}
use h_flat.Cluster.Membership.{disable_drive}
use h_flat.Cluster.Safety.{Done, write_operation_lem}
use h_flat.Cluster.Disabling.{OutOfService, disable_drive_lem}
use h_flat.Cluster.Repair.{partition_index}
use h_flat.Cluster.Keys.{entry_key, partition_index-entry_key}

-- The connection to a port is the port; the drive at port 2 does not store anything.
abbrev answer_of : ℕ → Status
answer_of c = status_of (if eqb c 2 then connection_error else ok_code)

abbrev net : Net ℕ
net = record {
  connect = λ host port s. (some port, s);
  no_op = λ c s. (status_of ok_code, s);
  set_client_cluster_version = λ c v s. s;
  set_cluster_version = λ c v s. s;
  get = λ c k s. ((status_of Code.not_found, none), s);
  get_version = λ c k s. ((status_of Code.not_found, none), s);
  put = λ c k v mode r s. (answer_of c, s);
  delete = λ c k v mode s. (status_of ok_code, s);
  get_key_range = λ c a ai b bi n s. ((status_of ok_code, []), s);
  uniform = λ n s. (s % n, s + 1);
  hash = length;
  serialize_partition = λ p. [];
  parse_partition =
      λ s. record { cluster_version = 0; partition_id = none; drives = []; log_id = none };
}

abbrev drive : ℕ → DriveStatus → Drive
drive port status = record { status = status; host = str "d"; port = port }

abbrev partition : ℕ → DriveStatus → Partition
partition version third = record {
  cluster_version = version;
  partition_id = some 0;
  drives = drive 0 green ∷ drive 1 green ∷ drive 2 third ∷ [];
  log_id = none;
}

abbrev no_partition : Partition
no_partition = record { cluster_version = 0; partition_id = none; drives = []; log_id = none }

abbrev cluster : Partition → Dict (Str × ℕ) ℕ → Names ℕ
cluster p connections = record {
  cluster_map = p ∷ [];
  log_partition = no_partition;
  local_copy = no_partition;
  connection_map = connections;
  direntry_clustersize = 2;
  env = 0;
}

abbrev at_start : Names ℕ
at_start = cluster (partition 0 green) []

abbrev store : ℕ → N ℕ Status
store c =
    from_env (net.put c (str "k") [] require_same_version (record { value = []; version = [] }))

abbrev after : Names ℕ
after = cluster (partition 1 red) (((str "d", 0), 0) ∷ ((str "d", 1), 1) ∷ [])

written :
    write_operation net 3 (mapped 0) (str "k") store at_start ≡ done (status_of ok_code, after)
unfolding write_operation lookup insert str_beq erase
written = refl

write_operation_lem_example : Done net store (mapped 0) (str "k") 3 at_start after
write_operation_lem_example =
    write_operation_lem net store (mapped 0) (str "k") 3 at_start after (status_of ok_code) written
      refl

disabled :
    disable_drive net 2 (mapped 0) 2 at_start
    ≡ done (true, cluster (partition 1 red) (((str "d", 0), 0) ∷ ((str "d", 1), 1) ∷ []))
unfolding disable_drive lookup insert str_beq erase
disabled = refl

disable_drive_lem_example : OutOfService (mapped 0) 2 after
disable_drive_lem_example = disable_drive_lem net 2 (mapped 0) 2 at_start after disabled

partition_index-entry_key_example :
    (j : ℕ) × (j < 2)
    × (partition_index length 2 3 (entry_key (str "70") (str "a"))
        ≡ (partition_index length 2 3 (entry_key (str "70") []) + j) % 3)
unfolding find_first
partition_index-entry_key_example =
    partition_index-entry_key length 2 3 (str "70") (str "a") (omega arith) (omega arith) refl
      (ground arith)

-- Each drive lists two keys.
abbrev listing : Net ℕ
listing = record net {
  get_key_range = λ c a ai b bi n s. ((status_of ok_code, str "b" ∷ str "a" ∷ []), s);
}

abbrev after_read : Names ℕ
after_read = record (cluster (partition 0 green) (((str "d", 0), 0) ∷ [])) { env = 1 }

read :
    read_operation listing 2 (mapped 0) (range_on listing [] (str "z") 3) none at_start
    ≡ done ((status_of ok_code, some (str "b" ∷ str "a" ∷ [])), after_read)
unfolding read_operation lookup insert str_beq range_on
read = refl

read_operation_lem_example :
    Attempt listing
      (mapped 0)
      (range_on listing [] (str "z") 3)
      2
      at_start
      (status_of ok_code)
      (some (str "b" ∷ str "a" ∷ []))
      after_read
read_operation_lem_example =
    read_operation_lem listing 2 (mapped 0) (range_on listing [] (str "z") 3) none
      (some (str "b" ∷ str "a" ∷ [])) at_start after_read (status_of ok_code) read refl

abbrev after_listing : Names ℕ
after_listing = record (cluster (partition 0 green) (((str "d", 0), 0) ∷ ((str "d", 1), 1) ∷ [])) {
  local_copy = partition 0 green;
  env = 2;
}

listed :
    get_key_range listing 2 (str "k") (str "z") 3 [] at_start
    ≡ done ((status_of ok_code, str "a" ∷ str "a" ∷ str "b" ∷ []), after_listing)
unfolding get_key_range lookup insert str_beq
listed = refl

get_key_range_lem_example :
    IsSorted (str "a" ∷ str "a" ∷ str "b" ∷ []) × (length (str "a" ∷ str "a" ∷ str "b" ∷ []) ≤ 3)
get_key_range_lem_example =
    get_key_range_lem listing 2 (str "k") (str "z") 3 [] at_start after_listing (status_of ok_code)
      (str "a" ∷ str "a" ∷ str "b" ∷ []) listed refl
