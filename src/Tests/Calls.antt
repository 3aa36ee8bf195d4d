-- ===== src/Tests/Calls.antt =====
-- Attributes of a file, a change of its owner, and a read from a short block.
use h_flat.Base.{
  ◌≤◌, ◌≡◌, ◌++◌, refl, true, [], ◌∷◌, List, Option, none, some, Str, str, ltb, if◌then◌else◌,
  length, Dict, lookup, insert, erase, str_eq, ◌==◌, arith,
}
use h_flat.Metadata.Defs.{Metadata, User}
use h_flat.World.State.{System, KineticRecord, Reply, Failure, no_metadata}
use h_flat.Ops.Rw.{read_buffer}
use h_flat.Ops.Xattr.{set_xattr, list_names, erange}
use h_flat.Ops.Listing.{names_size, joined_names, list_names_lem}
use h_flat.World.Util.{path_to_filename}
use h_flat.Paths.{find_last, find_first}
use h_flat.Ops.Rename.{recovery_entry}
use h_flat.Ops.Fsck.{recovery_origin, recovery_target, ends_with_slash}
use h_flat.Ops.Keys.{recovery_origin-recovery_entry}
use h_flat.Ops.Attributes.{attr_value, attr_value-set_xattr}

abbrev attributes : List (Str × Str)
attributes = (str "color", str "red") ∷ (str "size", str "big") ∷ []

attr_value-set_xattr_example :
    attr_value (str "size") (set_xattr (str "color") (str "blue") attributes) ≡ (
      if str "color" == str "size"
      then some (str "color", str "blue")
      else attr_value (str "size") attributes)
attr_value-set_xattr_example =
    attr_value-set_xattr (str "color") (str "size") (str "blue") attributes

abbrev owner : User
owner = record { uid = 1; gid = 1 }

abbrev program : Metadata
program = record no_metadata { uid = 1; gid = 1; mode = 0o104755 }

-- A drive that keeps its records in a map and does not look at versions.
abbrev found : Option KineticRecord → Reply KineticRecord
found none = Reply.refused Failure.remote_not_found
found (some r) = Reply.answer r

abbrev Drive : Type 0
Drive = Dict Str KineticRecord

abbrev drive : System Drive
drive = record {
  get = λ k s. (found (lookup k s), s);
  put = λ k v mode r s. (Reply.answer tt, insert k r s);
  delete = λ k v mode s. (Reply.answer tt, erase k s);
  get_version = λ k s. (Reply.refused Failure.remote_not_found, s);
  get_key_range = λ a b n s. ([], s);
  generate_uuid = λ s. ([], s);
  steady_now = λ s. (0, s);
  time = λ s. (0, s);
  stoll = λ s. none;
  serialize_md = λ md. [];
  parse_md = λ s. none;
  serialize_entry = λ e. [];
  parse_entry = λ s. none;
  serialize_snapshot = λ e. [];
  parse_snapshot = λ s. none;
  ticks = 1;
  limits = record {
    path_max = 4096;
    name_max = 255;
    max_symlinks = 32;
    enametoolong = 36;
    eloop = 40;
  };
  context = owner;
  block_size = 8;
  posix_full = true;
}

bytes_read : read_buffer drive 4 1 (7 ∷ 8 ∷ 9 ∷ []) ≡ 8 ∷ 9 ∷ 0 ∷ 0 ∷ []
unfolding read_buffer
bytes_read = refl

list_names_lem_example :
    (list_names 0 0 attributes ≡ (0, names_size attributes, []))
    × ((list_names 20 0 attributes).0 ≡ (if ltb 20 (names_size attributes) then erange else 0))
    × ((if ltb 20 (names_size attributes)
          then list_names 20 0 attributes
          else (0, names_size attributes, joined_names attributes))
        ≡ list_names 20 0 attributes)
    × (length (list_names 20 0 attributes).2 ≤ 20)
list_names_lem_example = list_names_lem 20 attributes (omega arith)

recovery_origin-recovery_entry_example :
    (recovery_origin (recovery_entry (str "/a/x") (str "/b/y")) ≡ str "/a/x")
    × (recovery_target (str "/b") (recovery_entry (str "/a/x") (str "/b/y"))
        ≡ (if ends_with_slash (str "/b") then str "/b" else str "/b" ++ str "/")
          ++ path_to_filename (str "/b/y"))
unfolding find_last find_first path_to_filename
recovery_origin-recovery_entry_example =
    recovery_origin-recovery_entry (str "/a/x") (str "/b/y") (str "/b") refl refl

mark_read : recovery_target (str "/b") (recovery_entry (str "/a/x") (str "/b/y")) ≡ str "/b/y"
unfolding recovery_target recovery_entry path_to_filename find_first find_last
mark_read = refl
