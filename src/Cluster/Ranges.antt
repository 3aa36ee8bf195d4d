-- ===== src/Cluster/Ranges.antt =====
-- `GetKeyRange` answers with keys in their order.
use h_flat.Base.{
  ℕ, zero, suc, ◌≤◌, ◌≡◌, refl, true, false, List, [], ◌∷◌, Str, length, take, length-take, All,
  All-imp, arith, if◌then◌else◌, Bool-cases, inl, inr,
}
use h_flat.Cluster.State.{
  Names, Net, N, ◌>>=◌, pure, Status, is_ok, copied, load_partition, store_partition,
}
use h_flat.Cluster.Repair.{key_to_partition}
use h_flat.Cluster.Operations.{str_lt, insert_key, sort_keys, collect_keys, get_key_range}
use h_flat.Cluster.Post.{bind-done, then-done}
use h_flat.World.State.{done}

-- No key is smaller than one in front of it.
abbrev pub IsSorted : List Str → Type 0
IsSorted [] = Unit
IsSorted (k ∷ ks) = All (λ l. str_lt l k ≡ false) ks × IsSorted ks

str_lt_asym : (s t : Str) → str_lt s t ≡ true → str_lt t s ≡ false
unfolding str_lt
str_lt_asym [] [] h = absurd (ground (arith, h))
str_lt_asym [] (b ∷ t) h = refl
str_lt_asym (a ∷ s) [] h = absurd (ground (arith, h))
str_lt_asym (a ∷ s) (b ∷ t) h = ground (arith, h, str_lt_asym s t)

str_lt_trans : (s t u : Str) → str_lt t s ≡ false → str_lt u t ≡ false → str_lt u s ≡ false
unfolding str_lt
str_lt_trans [] t [] h k = refl
str_lt_trans [] t (c ∷ u) h k = refl
str_lt_trans (a ∷ s) [] u h k = absurd (ground (arith, h))
str_lt_trans (a ∷ s) (b ∷ t) [] h k = absurd (ground (arith, k))
str_lt_trans (a ∷ s) (b ∷ t) (c ∷ u) h k = ground (arith, h, k, str_lt_trans s t u)

insert_key-All :
    (P : Str → Type 0) (k : Str) (ks : List Str) → P k → All P ks → All P (insert_key k ks)
unfolding insert_key
insert_key-All P k [] p ps = (p, tt)
insert_key-All P k (l ∷ ls) p (q, ps) = elim (Bool-cases (str_lt l k)) [
  | inl less ↦ rw less (q, insert_key-All P k ls p ps)
  | inr more ↦ rw more (p, (q, ps))
]

insert_key-IsSorted : (k : Str) (ks : List Str) → IsSorted ks → IsSorted (insert_key k ks)
unfolding insert_key
insert_key-IsSorted k [] sorted = (tt, tt)
insert_key-IsSorted k (l ∷ ls) (above, sorted) = elim (Bool-cases (str_lt l k)) [
  | inl less ↦ rw less (
    insert_key-All (λ m. str_lt m l ≡ false) k ls (str_lt_asym l k less) above,
    insert_key-IsSorted k ls sorted,
  )
  | inr more ↦
      rw more ((more, All-imp _ _ (λ m h. str_lt_trans k l m more h) ls above), (above, sorted))
]

sort_keys-IsSorted : (ks : List Str) → IsSorted (sort_keys ks)
unfolding sort_keys
sort_keys-IsSorted [] = tt
sort_keys-IsSorted (k ∷ ks) = insert_key-IsSorted k (sort_keys ks) (sort_keys-IsSorted ks)

take-All : (P : Str → Type 0) (n : ℕ) (ks : List Str) → All P ks → All P (take n ks)
take-All P zero ks ps = tt
take-All P (suc n) [] ps = tt
take-All P (suc n) (k ∷ ks) (p, ps) = (p, take-All P n ks ps)

take-IsSorted : (n : ℕ) (ks : List Str) → IsSorted ks → IsSorted (take n ks)
take-IsSorted zero ks sorted = tt
take-IsSorted (suc n) [] sorted = tt
take-IsSorted (suc n) (k ∷ ks) (above, sorted) =
    (take-All (λ l. str_lt l k ≡ false) n ks above, take-IsSorted n ks sorted)

module _ {S : Type 0} (net : Net S) where
  -- A range that is answered with OK has at most the number of keys that was asked for, in their order,
  -- whichever drives of however many partitions they come from, and whatever keys the caller passes.
  pub get_key_range_lem :
      (fuel : ℕ) (start end : Str) (max : ℕ) (keys : List Str) (w w' : Names S) (s : Status)
      (found : List Str)
      → get_key_range net fuel start end max keys w ≡ done ((s, found), w')
      → is_ok s.code ≡ true
      → IsSorted found × (length found ≤ max)
  unfolding get_key_range
  get_key_range_lem fuel start end max keys w w' s found ran good =
      let collect : N S (Status × List Str) =
        λ v. collect_keys net fuel v.direntry_clustersize start end max keys v in
      let cut : Status × List Str → N S (Status × List Str) =
        λ r. pure (if is_ok r.0.code then (r.0, take max (sort_keys r.1)) else (r.0, r.1)) in
      let (ref, w₁, _, after) = bind-done (key_to_partition net start) _ w w' (s, found) ran in
      let (p, w₂, _, after') = bind-done (load_partition ref) _ w₁ w' (s, found) after in
      let (w₃, _, after'') =
        then-done (store_partition copied p) (collect >>= cut) w₂ w' (s, found) after' in
      let ((t, all), w₄, _, end_of) = bind-done collect cut w₃ w' (s, found) after'' in
      elim (Bool-cases (is_ok t.code)) [
        | inr bad ↦ absurd (ground (arith, end_of, bad, good))
        | inl fine ↦
            let same : found ≡ take max (sort_keys all) = ground (arith, end_of, fine) in
            rw same (
              take-IsSorted max (sort_keys all) (sort_keys-IsSorted all),
              omega (arith, length-take max (sort_keys all)),
            )
      ]
