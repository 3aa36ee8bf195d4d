-- ===== src/Metadata/Reachability.antt =====
-- The restrictions that a directory puts on what is below it, and whom they keep out.
use h_flat.Base.{
  ◌⊎◌, ℕ, ◌≤◌, ◌≡◌, refl, ◌≢◌, Bool, true, false, ◌&&◌, List, [], ◌∷◌, ◌++◌, eqb, leb,
  if◌then◌else◌, length, ok, fault, undefined, arith, Bool-cases, inl, inr, Exec-cases,
  append_assoc, ◌∙◌, ap,
}
use h_flat.Metadata.Defs.{
  Metadata, User, ReachabilityEntry, introduced, restrictions, has_bits, erase_equal,
  erase_duplicates, store_children, contains, all_contained, compute_path_permission_children,
  check_path_permissions, denies, equal, eacces, exec_user, exec_group, exec_other,
}

-- POSIX search permission: the class of the user decides, and only its bit counts.
pub may_search : Bool → Bool → Bool → ℕ → ℕ → User → Bool
may_search user group other uid gid u =
    if eqb u.uid uid then user else if eqb u.gid gid then group else other

abbrev pub search_user : Metadata → Bool
search_user md = has_bits md.mode exec_user

abbrev pub search_group : Metadata → Bool
search_group md = has_bits md.mode exec_group

abbrev pub search_other : Metadata → Bool
search_other md = has_bits md.mode exec_other

-- A directory that nobody may search introduces entries against its owner and its group only: a
-- user who is neither passes the check.
pub check_path_permissions-stranger :
    (md : Metadata) (u : User)
    → search_user md ≡ false
    → search_group md ≡ false
    → search_other md ≡ false
    → u.uid ≢ md.uid
    → u.gid ≢ md.gid
    → (check_path_permissions u (introduced md) ≡ 0)
      × (may_search (search_user md) (search_group md) (search_other md) md.uid md.gid u ≡ false)
unfolding introduced check_path_permissions restrictions may_search
check_path_permissions-stranger md u no_user no_group no_other p q = (
  rw (no_user, no_group, no_other) (ground arith),
  rw (no_user, no_group, no_other) (ground arith),
)

pub check_path_permissions-append :
    (u : User) (xs ys : List ReachabilityEntry)
    → check_path_permissions u (xs ++ ys)
      ≡ (if eqb (check_path_permissions u xs) 0 then check_path_permissions u ys else eacces)
unfolding check_path_permissions
check_path_permissions-append u [] ys = refl
check_path_permissions-append u (x ∷ xs) ys = ground (arith, check_path_permissions-append u xs ys)

equal-denies :
    (u : User) (p x : ReachabilityEntry) → equal p x ≡ true → denies p.type u p ≡ denies x.type u x
unfolding equal denies
equal-denies u p x h = ground arith

erase_equal-check :
    (u : User) (p : ReachabilityEntry) (v v' : List ReachabilityEntry)
    → denies p.type u p ≡ false
    → erase_equal p v ≡ ok v'
    → check_path_permissions u v' ≡ check_path_permissions u v
unfolding erase_equal check_path_permissions
erase_equal-check u p [] v' d h = ground arith
erase_equal-check u p (x ∷ []) v' d h = ground arith
erase_equal-check u p (x ∷ y ∷ ys) v' d h = elim (Bool-cases (equal p x)) [
  | inl same ↦ elim (Exec-cases (erase_equal p ys)) [
    | inl (f, broken) ↦ absurd (ground (arith, same, broken))
    | inr (r, ran) ↦
        ground (arith, same, ran, erase_equal-check u p ys r d ran, equal-denies u p x same)
  ]
  | inr other ↦ elim (Exec-cases (erase_equal p (y ∷ ys))) [
    | inl (f, broken) ↦ absurd (ground (arith, other, broken))
    | inr (r, ran) ↦
        let whole : v' ≡ x ∷ r = ground (arith, other, ran) in
        rw whole (ground (arith, erase_equal-check u p (y ∷ ys) r d ran))
  ]
]

erase_duplicates-check :
    (u : User) (ps v v' : List ReachabilityEntry)
    → check_path_permissions u ps ≡ 0
    → erase_duplicates ps v ≡ ok v'
    → check_path_permissions u v' ≡ check_path_permissions u v
unfolding erase_duplicates check_path_permissions
erase_duplicates-check u [] v v' h run = ground arith
erase_duplicates-check u (p ∷ ps) v v' h run = elim (Exec-cases (erase_equal p v)) [
  | inl (f, broken) ↦ absurd (ground (arith, broken))
  | inr (r, ran) ↦ ground (arith, ran, erase_duplicates-check u ps r v', erase_equal-check u p v r)
]

-- Where the loop that leaves out what a parent already enforces ends, it loses no restriction: the
-- inherited entries and what is left of the new ones decide together as they do with all of the new
-- ones.
pub check_path_permissions-erase_duplicates :
    (u : User) (ps v v' : List ReachabilityEntry)
    → erase_duplicates ps v ≡ ok v'
    → check_path_permissions u (ps ++ v') ≡ check_path_permissions u (ps ++ v)
check_path_permissions-erase_duplicates u ps v v' run = ground (
  arith,
  check_path_permissions-append u ps v,
  check_path_permissions-append u ps v',
  erase_duplicates-check u ps v v',
)

erase_duplicates_last :
    (ps : List ReachabilityEntry) (e : ReachabilityEntry)
    → contains e ps ≡ true
    → erase_duplicates ps (e ∷ []) ≡ fault undefined
unfolding erase_duplicates contains
erase_duplicates_last [] e h = cc
erase_duplicates_last (p ∷ ps) e h = ground (arith, erase_duplicates_last ps e)

-- A directory that introduces a single entry, one that it also inherits, as a private directory
-- inside a private directory of the same owner does, takes the loop past the end of its vector.
pub compute_path_permission_children_nested :
    (md : Metadata) (e : ReachabilityEntry)
    → introduced md ≡ e ∷ []
    → contains e md.path_permission ≡ true
    → compute_path_permission_children md ≡ fault undefined
unfolding compute_path_permission_children
compute_path_permission_children_nested md e one inherited =
    ground (arith, one, erase_duplicates_last md.path_permission e inherited)

introduced-length : (md : Metadata) → length (introduced md) ≤ 2
unfolding introduced restrictions
introduced-length md = ground arith

contains_self :
    (e : ReachabilityEntry) (xs ys : List ReachabilityEntry) → contains e (xs ++ (e ∷ ys)) ≡ true
unfolding contains equal
contains_self e [] ys = ground arith
contains_self e (x ∷ xs) ys = ground (arith, contains_self e xs ys)

all_contained-append : (xs ys : List ReachabilityEntry) → all_contained ys (xs ++ ys) ≡ true
unfolding all_contained
all_contained-append xs [] = refl
all_contained-append xs (y ∷ ys) = ground (
  arith,
  contains_self y xs ys,
  all_contained-append (xs ++ (y ∷ [])) ys,
  append_assoc xs (y ∷ []) ys,
)

store_children_again :
    (v : List ReachabilityEntry) (md : Metadata)
    → ((((store_children v md).0 ≡ false) × ((store_children v md).1 ≡ md))
        ⊎ ((store_children v md).1.path_permission_children ≡ v))
      × (store_children v (store_children v md).1 ≡ (false, (store_children v md).1))
unfolding store_children
store_children_again v md = elim (Bool-cases same) [
  | inl e ↦ (inl (rw e (refl, refl)), ground (arith, e))
  | inr e ↦ (inr (rw e refl), ground (arith, e, all_contained-append [] v))
]
  where
    same : Bool
    same =
        eqb (length md.path_permission_children) (length v)
        && all_contained v md.path_permission_children

kept :
    (v : List ReachabilityEntry) (md : Metadata)
    → ((store_children v md).1.path_permission ≡ md.path_permission)
      × (introduced (store_children v md).1 ≡ introduced md)
unfolding store_children introduced
kept v md = elim (Bool-cases same) [
  | inl e ↦ (ground (arith, e), rw e refl)
  | inr e ↦ (ground (arith, e), rw e refl)
]
  where
    same : Bool
    same =
        eqb (length md.path_permission_children) (length v)
        && all_contained v md.path_permission_children

short : (n : ℕ) → n ≤ 2 → leb n 2 ≡ true
short n h = ground arith

computed :
    (md : Metadata)
    → md.path_permission ≡ []
    → compute_path_permission_children md ≡ ok (store_children (introduced md) md)
unfolding compute_path_permission_children
computed md h = rw (h, small) refl
  where
    small : leb (length (introduced md)) 2 ≡ true
    small = short (length (introduced md)) (introduced-length md)

-- Without inherited entries the computation of the children's entries succeeds: it reports no change
-- and makes none, or it stores what the directory introduces; made again it reports no change and
-- changes nothing.
compute_path_permission_children_again :
    (md : Metadata)
    → md.path_permission ≡ []
    → (changed : Bool) × (md' : Metadata) × (compute_path_permission_children md
        ≡ ok (changed, md'))
      × (((changed ≡ false) × (md' ≡ md)) ⊎ (md'.path_permission_children ≡ introduced md))
      × (compute_path_permission_children md' ≡ ok (false, md'))
compute_path_permission_children_again md none_inherited =
    let r = store_children (introduced md) md in
    let again = store_children_again (introduced md) md in
    (
      r.0,
      r.1,
      computed md none_inherited,
      again.0,
      computed r.1 ((kept (introduced md) md).0 ∙ none_inherited)
          ∙ ap ok (
              ap (λ (v : List ReachabilityEntry). store_children v r.1) (kept (introduced md) md).1
              ∙ again.1),
    )
