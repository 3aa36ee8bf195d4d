-- ===== src/Tests/Moves.antt =====
-- A directory that is moved, a file below it, and the way back.
use h_flat.Base.{
  ◌+◌, ◌≤◌, ◌≡◌, ◌++◌, refl, [], none, some, Option-cases, Str, str, str_eq, lookup, lookup-nil,
  length, get_or, get_or-take, take, inl, inr, ok, arith, ap, length-take,
}
use h_flat.Base.Int.{pos}
use h_flat.Paths.{find_first, find_last, is_slash}
use h_flat.PathMap.Defs.{Limits, PathMapDb, to_system_path, lookup_call, last_component}
use h_flat.PathMap.Update.{add_directory_move, reuse_name}
use h_flat.PathMap.Components.{IsShort}
use h_flat.PathMap.Moves.{add_directory_move-add_directory_move}
use h_flat.PathMap.Redirect.{IsPlain, IsMove, to_system_path-add_directory_move}

abbrev limits : Limits
limits = record { path_max = 4096; name_max = 255; max_symlinks = 1; enametoolong = 36; eloop = 40 }

abbrev at_start : PathMapDb
at_start = record { snapshot_version = 0; snapshot = [] }

IsShort-length : (path : Str) → length path ≤ 255 → IsShort limits path
unfolding last_component
IsShort-length path h n = elim (Option-cases (find_last is_slash (take n path))) [
  | inl top ↦ ground (arith, top, length-take n path)
  | inr (i, at) ↦ ground (arith, at, length-take n path)
]

IsPlain-short :
    (path : Str)
    → find_first h_flat.Paths.colon path ≡ none
    → length path ≤ 255
    → IsPlain limits [] path
IsPlain-short path plain h = record {
  plain = plain;
  fits = omega (arith, h);
  short = IsShort-length path h;
  absent = λ n. lookup-nil (take n path);
}

-- `/a` to `/b`, with a file `x` below.
below : IsMove (str "/a") (str "/b") (str "/x")
below = record {
  origin_ends = inr refl;
  target_ends = inr refl;
  not_inside =
      λ n ends e. ground (arith, ap (λ (t : Str). get_or t 1 0) e, get_or-take n (str "/b/x") 1 0);
  not_above =
      λ n ends e. ground (arith, ap (λ (t : Str). get_or t 1 0) e, get_or-take n (str "/a/x") 1 0);
  origin_absolute = refl;
  target_absolute = refl;
}

to_system_path-add_directory_move_example :
    (db' : PathMapDb) × (add_directory_move (str "/a") (str "/b") at_start ≡ ok db')
    × (to_system_path limits 2 db' (str "/b/x") lookup_call ≡ some (ok (str "/a/x", pos 0)))
    × (to_system_path limits 2 db' (str "/a/x") lookup_call
        ≡ some (ok (reuse_name (0 + 1) ++ str "/x", pos 0)))
unfolding find_first reuse_name h_flat.Paths.to_string
to_system_path-add_directory_move_example =
    to_system_path-add_directory_move limits 0 (str "/a") (str "/b") (str "/x") at_start lookup_call
      refl refl below (IsPlain-short (str "/a/x") refl (omega arith))
      (IsPlain-short (str "/b/x") refl (omega arith))
      (IsShort-length (reuse_name 1 ++ str "/x") (omega arith))
      (λ n. lookup-nil (take n (reuse_name 1 ++ str "/x")))

add_directory_move-add_directory_move_example :
    (db₁ : PathMapDb) × (db₂ : PathMapDb) × (add_directory_move (str "/a") (str "/b") at_start
      ≡ ok db₁)
    × (add_directory_move (str "/b") (str "/a") db₁ ≡ ok db₂)
    × ((k : Str) → lookup k db₂.snapshot ≡ lookup k at_start.snapshot)
unfolding find_first
add_directory_move-add_directory_move_example =
    add_directory_move-add_directory_move (str "/a") (str "/b") at_start refl refl
      (λ e. ground (arith, ap (λ (t : Str). get_or t 1 0) e)) (lookup-nil (str "/a"))
      (lookup-nil (str "/b"))
