-- ===== src/Base/Maps.antt =====
-- A `std::unordered_map` as an association list: `m[k] = v`, `m.erase(k)`, `m.count(k)`.
use mathlib.Core.Path.{◌≡◌, refl}
use mathlib.Core.Bool.{Bool, true, false}
use mathlib.Core.List.{List, [], ◌∷◌}
use mathlib.Core.Option.{Option, none, some}
use native.Mathlib.Omega.{arith}
use h_flat.Base.Tests.{Eq, eq_refl, ◌==◌, if◌then◌else◌}
use h_flat.Base.Lists.{length, All, All-imp}
use Prim.Native.Nat.{◌+◌}

abbrev pub Dict {ℓ κ} : Type ℓ → Type κ → Type (ℓ ⊔ κ)
Dict K V = List (K × V)

module _ {ℓ κ} {K : Type ℓ} {V : Type κ} ⦃e : Eq K⦄ where
  unfoldable pub lookup : K → Dict K V → Option V
  lookup k [] = none
  lookup k ((j, v) ∷ m) = if j == k then some v else lookup k m

  unfoldable pub insert : K → V → Dict K V → Dict K V
  insert k v [] = (k, v) ∷ []
  insert k v ((j, w) ∷ m) = if j == k then (k, v) ∷ m else (j, w) ∷ insert k v m

  -- Every entry of the key goes; a map has at most one.
  unfoldable pub erase : K → Dict K V → Dict K V
  erase k [] = []
  erase k ((j, w) ∷ m) = let rest = erase k m in if j == k then rest else (j, w) ∷ rest

  abbrev pub has_key : K → Dict K V → Bool
  has_key k m = elim (lookup k m) [ none ↦ false | some _ ↦ true ]

  pub lookup-nil : (k : K) → lookup k [] ≡ none
  unfolding lookup
  lookup-nil k = refl

  pub lookup-insert :
      (j k : K) (v : V) (m : Dict K V)
      → lookup j (insert k v m) ≡ (if k == j then some v else lookup j m)
  unfolding lookup insert
  lookup-insert j k v [] = refl
  lookup-insert j k v ((i, w) ∷ m) =
      ground (arith, e.agrees_iff i k, e.agrees_iff i j, e.agrees_iff k j, lookup-insert j k v m)

  pub lookup-erase :
      (j k : K) (m : Dict K V) → lookup j (erase k m) ≡ (if k == j then none else lookup j m)
  unfolding lookup erase
  lookup-erase j k [] = ground arith
  lookup-erase j k ((i, w) ∷ m) =
      ground (arith, e.agrees_iff i k, e.agrees_iff i j, e.agrees_iff k j, lookup-erase j k m)

  -- No key is listed twice.
  abbrev pub NodupKeys : Dict K V → Type κ
  NodupKeys [] = Unit
  NodupKeys ((k, _) ∷ m) = (lookup k m ≡ none) × NodupKeys m

  pub erase-NodupKeys : (k : K) (m : Dict K V) → NodupKeys m → NodupKeys (erase k m)
  unfolding erase
  erase-NodupKeys k [] u = tt
  erase-NodupKeys k ((j, w) ∷ m) (fresh, u) =
      ground (arith, erase-NodupKeys k m u, lookup-erase j k m)

  pub insert-NodupKeys : (k : K) (v : V) (m : Dict K V) → NodupKeys m → NodupKeys (insert k v m)
  unfolding insert
  insert-NodupKeys k v [] u = (lookup-nil k, tt)
  insert-NodupKeys k v ((j, w) ∷ m) (fresh, u) =
      ground
        (arith, insert-NodupKeys k v m u, lookup-insert j k v m, e.agrees_iff j k, e.agrees_iff k j)

  pub erase_absent : (k : K) (m : Dict K V) → lookup k m ≡ none → erase k m ≡ m
  unfolding lookup erase
  erase_absent k [] h = refl
  erase_absent k ((j, w) ∷ m) h = ground (arith, erase_absent k m)

  -- A key that is listed once goes with one entry.
  pub length-erase :
      (k : K) (v : V) (m : Dict K V)
      → NodupKeys m
      → lookup k m ≡ some v
      → length (erase k m) + 1 ≡ length m
  unfolding lookup erase
  length-erase k v [] u h = cc
  length-erase k v ((j, w) ∷ m) (fresh, u) h =
      ground (arith, length-erase k v m u, erase_absent k m, e.agrees_iff j k)

  lookup-cons_self : (j : K) (w : V) (m : Dict K V) → lookup j ((j, w) ∷ m) ≡ some w
  unfolding lookup
  lookup-cons_self j w m = ground (arith, eq_refl j)

  lookup-cons_other :
      (j k : K) (w v : V) (m : Dict K V)
      → lookup j m ≡ none
      → lookup k m ≡ some v
      → lookup k ((j, w) ∷ m) ≡ some v
  unfolding lookup
  lookup-cons_other j k w v m absent h = ground (arith, e.agrees_iff j k)

  abbrev IsEntry : Dict K V → K × V → Type κ
  IsEntry m (k, v) = lookup k m ≡ some v

  -- What a map without repeated keys lists is what it holds.
  pub NodupKeys-lookup : (m : Dict K V) → NodupKeys m → All (λ (k, v). lookup k m ≡ some v) m
  NodupKeys-lookup [] u = tt
  NodupKeys-lookup ((j, w) ∷ m) (fresh, u) = (
    lookup-cons_self j w m,
    All-imp (IsEntry m) (IsEntry ((j, w) ∷ m)) (λ (k, v) h. lookup-cons_other j k w v m fresh h) m
        (NodupKeys-lookup m u),
  )
