-- ===== src/Ops/Keys.antt =====
-- Keys that one handler writes and another one reads: directory entries, and the marks of a rename.
use h_flat.Base.{
  ℕ, ◌≡◌, refl, sym, ap, ◌∙◌, Bool, true, [], ◌∷◌, ◌++◌, none, some, Str, str, eqb, if◌then◌else◌,
  length, arith, inr, append_assoc, take-length, drop_past,
}
use h_flat.Paths.{find_first, find_first-append, find_first-to_string, find_last, to_string}
use h_flat.World.State.{System}
use h_flat.World.Util.{path_to_filename}
use h_flat.Ops.Create.{direntry_key}
use h_flat.Ops.Rename.{recovery_entry}
use h_flat.Ops.Stat.{name_of_key}
use h_flat.Ops.Fsck.{recovery_origin, recovery_target, ends_with_slash}

abbrev bar : ℕ
bar = b'|'

find_last-append :
    (p : ℕ → Bool) (xs : Str) (c : ℕ) (ys : Str)
    → p c ≡ true
    → find_last p ys ≡ none
    → find_last p (xs ++ (c ∷ ys)) ≡ some (length xs)
unfolding find_last
find_last-append p [] c ys h k = ground (arith, h, k)
find_last-append p (x ∷ xs) c ys h k = ground (arith, find_last-append p xs c ys h k)

-- What stands behind the first bar of the key of an entry is the name that it was created under.
pub name_of_key-direntry_key :
    {S : Type 0} (sys : System S) (inode_number : ℕ) (filename : Str)
    → name_of_key (direntry_key sys inode_number filename) ≡ filename
unfolding name_of_key direntry_key
name_of_key-direntry_key sys inode_number filename =
    let digits = to_string inode_number in
    let at =
      find_first-append bar digits filename
        (find_first-to_string bar inode_number (inr (omega arith))) in
    ground (arith, at, drop_past digits bar filename)

recovery_origin_after :
    (xs from : Str)
    → find_last (λ c. eqb c bar) from ≡ none
    → recovery_origin (xs ++ (bar ∷ from)) ≡ from
unfolding recovery_origin
recovery_origin_after xs from plain =
    ground (arith, find_last-append (λ c. eqb c bar) xs bar from refl plain, drop_past xs bar from)

recovery_target_before :
    (dir name rest : Str)
    → find_first bar name ≡ none
    → recovery_target dir (name ++ (bar ∷ rest))
      ≡ (if ends_with_slash dir then dir else dir ++ str "/") ++ name
unfolding recovery_target
recovery_target_before dir name rest plain =
    ground (arith, find_first-append bar name rest plain, take-length name (bar ∷ rest))

-- What the check of a directory reads out of the mark that a rename left in it is what the rename was
-- called with: its origin, and the target's name below the path of the directory. Neither the origin
-- nor that name has a bar in it.
pub recovery_origin-recovery_entry :
    (from to dir : Str)
    → find_last (λ c. eqb c bar) from ≡ none
    → find_first bar (path_to_filename to) ≡ none
    → (recovery_origin (recovery_entry from to) ≡ from)
      × (recovery_target dir (recovery_entry from to)
          ≡ (if ends_with_slash dir then dir else dir ++ str "/") ++ path_to_filename to)
unfolding recovery_entry
recovery_origin-recovery_entry from to dir plain_from plain_to =
    let name = path_to_filename to in
    let whole : recovery_entry from to ≡ (name ++ str "|recovery") ++ (bar ∷ from) =
      sym (append_assoc name (str "|recovery") (bar ∷ from)) in
    (
      ap recovery_origin whole ∙ recovery_origin_after (name ++ str "|recovery") from plain_from,
      recovery_target_before dir name (str "recovery|" ++ from) plain_to,
    )
