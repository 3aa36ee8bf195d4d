-- ===== src/Cluster/Capacity.antt =====
-- `updateCapacityEstimate` and the constructor of the distributed namespace. A `float` is a value of the
-- parameter `Floats`; the threads that ask the drives run in the order in which they are started.
use h_flat.Base.{
  ℕ, ◌+◌, ◌*◌, Bool, true, false, List, [], ◌∷◌, ◌++◌, Option, none, some, eqb, ◌&&◌, ◌==◌, str_eq,
  Str, if◌then◌else◌, length,
}
use h_flat.Cluster.State.{
  Net, N, ◌>>=◌, pure, from_env, Partition, Drive, Status, ok_code, status_of, is_green, is_ok,
}
use h_flat.Cluster.Drives.{drive_to_connection}
use h_flat.World.State.{WriteMode, KineticRecord}
use h_flat.Cluster.Operations.{self_check, put, delete}

-- `kinetic::Capacity`.
pub record Capacity (F : Type 0) : Type 0 where
  pub nominal_capacity_in_bytes : ℕ
  pub portion_full : F

-- The numbers of the type `float`, how a drive's log reports its capacity, and what a variable of that
-- type holds which is not set.
pub record Floats (S F : Type 0) : Type 0 where
  pub nothing : F
  pub of_ℕ : ℕ → F
  pub plus : F → F → F
  pub minus : F → F → F
  pub times : F → F → F
  pub over : F → F → F
  pub truncated : F → ℕ
  pub unset : Capacity F
  pub get_log : ℕ → S → (Status × Capacity F) × S

-- `capacity_estimate` and `capacity_chunksize`.
pub record Estimate (F : Type 0) : Type 0 where
  pub capacity : Capacity F
  pub chunksize : F

module _ {S F : Type 0} (net : Net S) (floats : Floats S F) where
  -- What the thread of drive `i` of a partition does; the variable is not set if the
  -- drive does not answer.
  unfoldable pub ask_capacity : Partition → ℕ → N S (Capacity F)
  unfolding drive_to_connection
  ask_capacity p i = do
    con ← drive_to_connection net p i
    elim con [
      | none ↦ pure floats.unset
      | some c ↦ do
        (status, answer) ← from_env (floats.get_log c)
        pure (if is_ok status.code then answer else floats.unset)
    ]

  -- The first green drive of a partition, from drive `i` on, is asked.
  unfoldable pub ask_green : Partition → ℕ → List Drive → N S (List (Capacity F))
  unfolding ask_capacity
  ask_green p i [] = pure []
  ask_green p i (d ∷ ds) =
      let rest = ask_green p (i + 1) ds in
      if is_green d.status then (do c ← ask_capacity p i; pure (c ∷ [])) else rest

  unfoldable pub ask_all : List Partition → N S (List (Capacity F))
  unfolding ask_green
  ask_all [] = pure []
  ask_all (p ∷ ps) = do cs ← ask_green p 0 p.drives; rest ← ask_all ps; pure (cs ++ rest)

  -- `none` if a capacity is missing.
  unfoldable pub summed : List (Capacity F) → Capacity F → Option (Capacity F)
  summed [] sum = some sum
  summed (c ∷ cs) sum =
      let rest = summed cs (record {
        nominal_capacity_in_bytes = sum.nominal_capacity_in_bytes + c.nominal_capacity_in_bytes;
        portion_full = floats.plus sum.portion_full c.portion_full;
      }) in
      if eqb c.nominal_capacity_in_bytes 0 then none else rest

  -- The result, and the estimate if it is a new one.
  unfoldable pub update_capacity_estimate : N S (Option (Estimate F))
  unfolding ask_all summed
  update_capacity_estimate w =
      (do
        cs ← ask_all w.cluster_map
        elim (summed cs (record { nominal_capacity_in_bytes = 0; portion_full = floats.nothing })) [
          | none ↦ pure none
          | some sum ↦
              let cap = record sum {
                portion_full = floats.over sum.portion_full (floats.of_ℕ (length cs));
              } in
              pure (
                some (record {
                  capacity = cap;
                  chunksize =
                      floats.over (floats.of_ℕ (1024 * 1024))
                        (floats.of_ℕ cap.nominal_capacity_in_bytes);
                }))
        ])
        w

  -- The constructor: `false` if it throws, because the check fails.
  unfoldable pub open_distributed : ℕ → N S (Bool × Option (Estimate F))
  unfolding self_check update_capacity_estimate
  open_distributed fuel = do
    good ← self_check net fuel
    if good then (do e ← update_capacity_estimate; pure (true, e)) else pure (false, none)

  -- The end of `Put` and of `Delete`: the estimate counts one block more, or less. Without an estimate
  -- the two variables are not set, and stay so.
  unfoldable pub one_more : Option (Estimate F) → Option (Estimate F)
  one_more none = none
  one_more (some e) = some (record e {
    capacity = record e.capacity { portion_full = floats.plus e.capacity.portion_full e.chunksize };
  })

  unfoldable pub one_less : Option (Estimate F) → Option (Estimate F)
  one_less none = none
  one_less (some e) = some (record e {
    capacity = record e.capacity {
      portion_full = floats.minus e.capacity.portion_full e.chunksize;
    };
  })

  -- A record that is put under an empty version is taken for a new one.
  unfoldable pub put_counted :
      ℕ
      → Str
      → Str
      → WriteMode
      → KineticRecord
      → Option (Estimate F)
      → N S (Status × Option (Estimate F))
  unfolding put one_more
  put_counted fuel key current_version mode r e = do
    result ← put net fuel key current_version mode r
    pure (result, if is_ok result.code && current_version == [] then one_more e else e)

  unfoldable pub delete_counted :
      ℕ → Str → Str → WriteMode → Option (Estimate F) → N S (Status × Option (Estimate F))
  unfolding delete one_less
  delete_counted fuel key version mode e = do
    result ← delete net fuel key version mode
    pure (result, if is_ok result.code then one_less e else e)

  unfoldable pub get_capacity : Option (Estimate F) → Status × Capacity F
  get_capacity e = (status_of ok_code, elim e [ none ↦ floats.unset | some e' ↦ e'.capacity ])
