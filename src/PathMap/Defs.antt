-- ===== src/PathMap/Defs.antt =====
-- `PathMapDB`. The versions are numbers, since they start at 0 and only grow; a time stamp is a
-- signed integer, because an error is reported in its place as a negative number. Each method is
-- one step: its lock, and its wait for the readers, let no other call come between.
use h_flat.Base.{
  ℕ, zero, suc, ◌+◌, ◌-◌, Bool, true, false, not, ◌&&◌, [], ◌++◌, Option, none, some, Str, str_eq,
  eqb, ltb, if◌then◌else◌, length, take, drop, map, Dict, lookup, Exec, ok, fault, out_of_range,
}
use h_flat.Base.Int.{ℤ, pos, negsuc, max_ℤ}
use h_flat.Paths.{find_first, find_first_from, find_last, is_slash, slash, colon}

-- `hflat::MappingType`; `unset` is the value 0 that `operator[]` gives to a new entry.
pub data MappingType : Type 0 where
  move symlink no_target reuse unset : MappingType

pub record PmEntry : Type 0 where
  pub type : MappingType
  pub target : Str
  pub permission_time_stamp : ℤ

abbrev pub Snapshot : Type 0
Snapshot = Dict Str PmEntry

pub record PathMapDb : Type 0 where
  pub snapshot_version : ℕ
  pub snapshot : Snapshot

pub data CallingType : Type 0 where
  lookup_call readlink_call : CallingType

-- The limits that the system's headers define.
pub record Limits : Type 0 where
  pub path_max : ℕ
  pub name_max : ℕ
  pub max_symlinks : ℕ
  pub enametoolong : ℕ
  pub eloop : ℕ

abbrev pub minus : ℕ → ℤ
minus e = negsuc (e - 1)

unfoldable pub new_path_map_db : PathMapDb
new_path_map_db = record { snapshot_version = 0; snapshot = [] }

-- How many bytes `erase(pos, end - pos + 1)` takes at most: with no slash `end` is `npos`, and the
-- count wraps around, to 0 if `pos` is 0 and otherwise to more than any path holds.
unfoldable pub erase_virtual : ℕ → Option ℕ → Str → Str
erase_virtual zero none path = path
erase_virtual (suc i) none path = take (suc i) path
erase_virtual i (some end) path = take i path ++ drop (end + 1) path

unfoldable pub slashes_back : Str → Str
slashes_back = map (λ c. if eqb c colon then slash else c)

unfoldable pub iointercept : Str → Str
unfolding erase_virtual slashes_back find_first find_first_from
iointercept path = elim (find_first colon path) [
  | none ↦ path
  | some i ↦ slashes_back (erase_virtual i (find_first_from slash i path) path)
]

-- The test of `searchPathRecursive` on a path that it found in the snapshot.
unfoldable pub remaps : Bool → Bool → MappingType → Bool
remaps follow_reuse follow_symlink no_target = false
remaps follow_reuse follow_symlink symlink = follow_symlink
remaps follow_reuse follow_symlink reuse = follow_reuse
remaps follow_reuse follow_symlink move = true
remaps follow_reuse follow_symlink unset = true

-- `snapshot.count(path)` together with that test.
unfoldable pub stops_at : Bool → Bool → Option PmEntry → Bool
unfolding remaps
stops_at follow_reuse follow_symlink none = false
stops_at follow_reuse follow_symlink (some e) = remaps follow_reuse follow_symlink e.type

unfoldable pub stamp_at : Option PmEntry → ℤ → ℤ
stamp_at none stamp = stamp
stamp_at (some e) stamp = max_ℤ stamp e.permission_time_stamp

-- `path.size() - 1 - pos`: with `npos` the unsigned difference is the whole size.
unfoldable pub last_component : Str → Option ℕ → ℕ
last_component path none = length path
last_component path (some i) = length path - 1 - i

-- The answer of a search, with the path and the time stamp as it leaves them.
pub record Found : Type 0 where
  pub found : Bool
  pub path : Str
  pub stamp : ℤ

-- The variables of the loop in `toSystemPath`.
pub record Walk : Type 0 where
  pub system_path : Str
  pub temp : Str
  pub stamp : ℤ
  pub num_links_followed : ℕ
  pub follow_reuse : Bool

unfoldable pub follows_symlink : CallingType → Bool
follows_symlink lookup_call = false
follows_symlink readlink_call = true

abbrev pub is_symlink : MappingType → Bool
is_symlink symlink = true
is_symlink _ = false

abbrev pub is_move : MappingType → Bool
is_move move = true
is_move _ = false

abbrev pub is_reuse : MappingType → Bool
is_reuse reuse = true
is_reuse _ = false

module _ (limits : Limits) where
  -- `none` means that the fuel ran out; the paths get shorter, so one more than the length is enough.
  unfoldable pub search_path_recursive : ℕ → Snapshot → Str → ℤ → Bool → Bool → Option Found
  unfolding stops_at stamp_at last_component
  search_path_recursive zero s path stamp follow_reuse follow_symlink = none
  search_path_recursive (suc fuel) s path stamp follow_reuse follow_symlink =
      let entry = lookup path s in
      let stamp' = stamp_at entry stamp in
      let at_slash = find_last is_slash path in
      let up = λ (i : ℕ). search_path_recursive fuel s (take i path) stamp' follow_reuse true in
      if stops_at follow_reuse follow_symlink entry
      then some (record { found = true; path = path; stamp = stamp' })
      else if ltb limits.name_max (last_component path at_slash)
      then some (record { found = false; path = path; stamp = minus limits.enametoolong })
      else elim at_slash [
        | none ↦ some (record { found = false; path = path; stamp = stamp' })
        | some i ↦ up i
      ]

  abbrev pub search_path : Snapshot → Str → ℤ → Bool → Bool → Option Found
  search_path s path = search_path_recursive (length path + 1) s path

  -- `none` means that the fuel ran out. A `found` path is in the snapshot, so `at` does not throw.
  unfoldable pub walk : ℕ → Snapshot → Bool → Walk → Option (Exec (Str × ℤ))
  unfolding search_path_recursive
  walk zero s follow_symlink w = none
  walk (suc fuel) s follow_symlink w =
      let again = walk fuel s follow_symlink in
      elim (search_path s w.temp w.stamp w.follow_reuse follow_symlink) [
        | none ↦ none
        | some f ↦
            if not f.found then some (ok (w.system_path, f.stamp)) else elim (lookup f.path s) [
              | none ↦ some (fault out_of_range)
              | some e ↦
                  let links = w.num_links_followed + (if is_symlink e.type then 1 else 0) in
                  let path = e.target ++ drop (length f.path) w.system_path in
                  if is_symlink e.type && ltb limits.max_symlinks links
                  then some (ok (w.system_path, minus limits.eloop))
                  else again (record {
                    system_path = path;
                    temp = path;
                    stamp = f.stamp;
                    num_links_followed = links;
                    follow_reuse = not (is_move e.type);
                  })
            ]
      ]

  unfoldable pub to_system_path : ℕ → PathMapDb → Str → CallingType → Option (Exec (Str × ℤ))
  unfolding walk iointercept follows_symlink
  to_system_path fuel db user_path ctype =
      let path = iointercept user_path in
      if ltb limits.path_max (length path)
      then some (ok (path, minus limits.enametoolong))
      else walk fuel db.snapshot (follows_symlink ctype) (record {
        system_path = path;
        temp = path;
        stamp = pos 0;
        num_links_followed = 0;
        follow_reuse = true;
      })
