-- ===== src/World/Post.antt =====
-- What holds of the results and the worlds of a call's parts, if the call returns.
use h_flat.Base.{Bool, true, false, if◌then◌else◌, ◌≡◌, refl, ◌⊎◌, inl, inr, arith}
use h_flat.World.State.{Run, done, dies, waiting, no_fuel, World, M, ◌>>=◌}

abbrev pub is_done : {A : Type 0} → Run A → Bool
is_done (done a) = true
is_done (dies e) = false
is_done waiting = false
is_done no_fuel = false

pub Run-cases :
    {W A : Type 0} (r : Run (A × W)) → (is_done r ≡ false) ⊎ ((a : A) × (v : W) × (r ≡ done (a, v)))
Run-cases (done (a, v)) = inr (a, v, refl)
Run-cases (dies e) = inl refl
Run-cases waiting = inl refl
Run-cases no_fuel = inl refl

-- A call that is made of two returns only if both do.
pub bind-done :
    {S A B : Type 0} (m : M S A) (f : A → M S B) (w v : World S) (b : B)
    → (m >>= f) w ≡ done (b, v)
    → (a : A) × (u : World S) × (m w ≡ done (a, u)) × (f a u ≡ done (b, v))
bind-done m f w v b e = elim (Run-cases (m w)) [
  | inl stuck ↦ absurd (ground (arith, stuck, e))
  | inr (a, u, ran) ↦ (a, u, ran, ground (arith, ran, e))
]

pub if-done :
    {S B : Type 0} (c : Bool) (m n : M S B) (w v : World S) (b : B)
    → (if c then m else n) w ≡ done (b, v)
    → ((c ≡ true) × (m w ≡ done (b, v))) ⊎ ((c ≡ false) × (n w ≡ done (b, v)))
if-done true m n w v b e = inl (refl, e)
if-done false m n w v b e = inr (refl, e)
