-- ===== src/World/Apart.antt =====
-- The blocks of inode numbers that several clients of one namespace own.
use h_flat.Base.{
  ℕ, suc, ◌+◌, ◌≤◌, ◌<◌, ◌≡◌, ◌≢◌, List, [], ◌∷◌, Option, some, eqb, eqb_iff, if◌then◌else◌, ◌⊎◌,
  inl, inr, arith, Bool-cases, All, All-imp,
}
use h_flat.World.State.{System, World}
use h_flat.World.Util.{u16_max}
use h_flat.World.Inodes.{Counting}

-- The clients that are mounted, the namespace, and the numbers that were generated so far.
pub record Clients (S : Type 0) : Type 0 where
  pub worlds : ℕ → Option (World S)
  pub env : S
  pub issued : List ℕ

abbrev pub with_world : {S : Type 0} → ℕ → World S → (ℕ → Option (World S)) → ℕ → Option (World S)
with_world i w worlds j = if eqb i j then some w else worlds j

abbrev pub Distinct : List ℕ → Type 0
Distinct [] = Unit
Distinct (n ∷ ns) = All (λ m. m ≢ n) ns × Distinct ns

module _ {S : Type 0} (sys : System S) (counts : Counting sys) where
  -- Each client owns a block of numbers below the token, of which those up to its counter are used.
  pub record IsApart (c : Clients S) : Type 0 where
    pub own :
        (i : ℕ) (w : World S)
        → c.worlds i ≡ some w
        → (w.inum_base + u16_max ≤ counts.token c.env) × (w.inum_counter < u16_max)
    pub apart :
        (i j : ℕ) (w v : World S)
        → i ≢ j
        → c.worlds i ≡ some w
        → c.worlds j ≡ some v
        → (w.inum_base + u16_max ≤ v.inum_base) ⊎ (v.inum_base + u16_max ≤ w.inum_base)
    pub below : All (λ n. n < counts.token c.env) c.issued
    pub used :
        (i : ℕ) (w : World S)
        → c.worlds i ≡ some w
        → All (λ n. (n ≤ w.inum_base + w.inum_counter) ⊎ (w.inum_base + u16_max ≤ n)) c.issued
    pub distinct : Distinct c.issued

  -- A client gets the block that starts at the token.
  pub new_block :
      (c : Clients S) (i : ℕ) (w' : World S)
      → IsApart c
      → w'.inum_base ≡ counts.token c.env
      → w'.inum_counter ≡ 0
      → counts.token w'.env ≡ counts.token c.env + u16_max
      → IsApart (record c { worlds = with_world i w' c.worlds; env = w'.env })
  new_block c i w' v base counter token = record {
    own = λ j u at. elim (Bool-cases (eqb i j)) [
      | inl this ↦ (ground (arith, this), ground (arith, this))
      | inr other ↦
          let (fits, small) = v.own j u (ground (arith, other)) in (omega (arith, fits), small)
    ];
    apart = λ j k u t differ at_j at_k. elim (Bool-cases (eqb i j)) [
      | inl this ↦
          let there : c.worlds k ≡ some t = ground (arith, this, eqb_iff i j, eqb_iff i k) in
          let (fits, _) = v.own k t there in inr (ground (arith, this, fits))
      | inr other ↦ elim (Bool-cases (eqb i k)) [
        | inl that ↦
            let (fits, _) = v.own j u (ground (arith, other)) in inl (ground (arith, that, fits))
        | inr neither ↦ v.apart j k u t differ (ground (arith, other)) (ground (arith, neither))
      ]
    ];
    below = All-imp _ _ (λ n h. omega arith) c.issued v.below;
    used = λ j u at. elim (Bool-cases (eqb i j)) [
      | inl this ↦ All-imp _ _ (λ n h. inl (ground (arith, this))) c.issued v.below
      | inr other ↦ v.used j u (ground (arith, other))
    ];
    distinct = v.distinct;
  }

  -- A client goes on in its block.
  advance :
      (c : Clients S) (i : ℕ) (w w' : World S)
      → IsApart c
      → c.worlds i ≡ some w
      → suc w.inum_counter ≢ u16_max
      → w'.inum_base ≡ w.inum_base
      → w'.inum_counter ≡ suc w.inum_counter
      → counts.token w'.env ≡ counts.token c.env
      → IsApart (record c { worlds = with_world i w' c.worlds; env = w'.env })
  advance c i w w' v at_i more base counter token = record {
    own = λ j u at. elim (Bool-cases (eqb i j)) [
      | inl this ↦
          let (fits, small) = v.own i w at_i in
          (ground (arith, this, fits), ground (arith, this, small))
      | inr other ↦
          let (fits, small) = v.own j u (ground (arith, other)) in (omega (arith, fits), small)
    ];
    apart = λ j k u t differ at_j at_k. elim (Bool-cases (eqb i j)) [
      | inl this ↦
          let there : c.worlds k ≡ some t = ground (arith, this, eqb_iff i j, eqb_iff i k) in
          let split = v.apart i k w t (ground (arith, this, eqb_iff i j)) at_i there in
          ground (arith, this, split)
      | inr other ↦ elim (Bool-cases (eqb i k)) [
        | inl that ↦
            let split =
              v.apart j i u w (ground (arith, that, eqb_iff i k)) (ground (arith, other)) at_i in
            ground (arith, that, split)
        | inr neither ↦ v.apart j k u t differ (ground (arith, other)) (ground (arith, neither))
      ]
    ];
    below = All-imp _ _ (λ n h. omega arith) c.issued v.below;
    used = λ j u at. elim (Bool-cases (eqb i j)) [
      | inl this ↦ All-imp _ _ (λ n h. ground (arith, this, h)) c.issued (v.used i w at_i)
      | inr other ↦ v.used j u (ground (arith, other))
    ];
    distinct = v.distinct;
  }

  -- A number below the token that no client has left to give is handed out.
  issue :
      (c : Clients S) (n : ℕ)
      → IsApart c
      → n < counts.token c.env
      → ((i : ℕ) (w : World S)
          → c.worlds i ≡ some w
          → (n ≤ w.inum_base + w.inum_counter) ⊎ (w.inum_base + u16_max ≤ n))
      → All (λ m. m ≢ n) c.issued
      → IsApart (record c { issued = n ∷ c.issued })
  issue c n v low taken new = record {
    own = v.own;
    apart = v.apart;
    below = (low, v.below);
    used = λ i w at. (taken i w at, v.used i w at);
    distinct = (new, v.distinct);
  }

  pub next_number :
      (c : Clients S) (i n : ℕ) (w w' : World S)
      → IsApart c
      → c.worlds i ≡ some w
      → suc w.inum_counter ≢ u16_max
      → n ≡ w.inum_base + suc w.inum_counter
      → w'.inum_base ≡ w.inum_base
      → w'.inum_counter ≡ suc w.inum_counter
      → counts.token w'.env ≡ counts.token c.env
      → IsApart (record { worlds = with_world i w' c.worlds; env = w'.env; issued = n ∷ c.issued })
  next_number c i n w w' v at_i more number base counter token =
      let (fits, small) = v.own i w at_i in
      issue (record c { worlds = with_world i w' c.worlds; env = w'.env }) n
        (advance c i w w' v at_i more base counter token) (omega (arith, fits, small))
        (λ j u at. elim (Bool-cases (eqb i j)) [
          | inl this ↦ inl (ground (arith, this))
          | inr other ↦
              let split =
                v.apart i j w u (ground (arith, other, eqb_iff i j)) at_i (ground (arith, other)) in
              ground (arith, split, small)
        ])
        (All-imp _ _ (λ m h e. ground (arith, h, small)) c.issued (v.used i w at_i))

  pub first_number :
      (c : Clients S) (i n : ℕ) (w' : World S)
      → IsApart c
      → n ≡ counts.token c.env
      → w'.inum_base ≡ counts.token c.env
      → w'.inum_counter ≡ 0
      → counts.token w'.env ≡ counts.token c.env + u16_max
      → IsApart (record { worlds = with_world i w' c.worlds; env = w'.env; issued = n ∷ c.issued })
  first_number c i n w' v number base counter token =
      issue (record c { worlds = with_world i w' c.worlds; env = w'.env }) n
        (new_block c i w' v base counter token) (omega arith)
        (λ j u at. elim (Bool-cases (eqb i j)) [
          | inl this ↦ inl (ground (arith, this))
          | inr other ↦
              let (fits, _) = v.own j u (ground (arith, other)) in inr (omega (arith, fits))
        ])
        (All-imp _ _ (λ m h e. omega arith) c.issued v.below)
