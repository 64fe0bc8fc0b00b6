-- ===== src/Outcome.antt =====
-- Rust's `Result` with its error type, and a third outcome for a loop that ran out of fuel.
use lavalink_rs.Prelude.{◌≡◌, refl, ◌≢◌, ◌⊎◌, inl, inr}

pub data Outcome {ℓ κ} (E : Type ℓ) (A : Type κ) : Type (ℓ ⊔ κ) where
  ok : A → Outcome E A
  err : E → Outcome E A
  stuck : Outcome E A

module _ {ℓ κ} {E : Type ℓ} {A : Type κ} where
  -- `map_err`.
  abbrev pub map_err {ι} : {F : Type ι} → (E → F) → Outcome E A → Outcome F A
  map_err f (ok a) = ok a
  map_err f (err e) = err (f e)
  map_err f stuck = stuck

  -- `map`.
  abbrev pub map_ok {ι} : {B : Type ι} → (A → B) → Outcome E A → Outcome E B
  map_ok f (ok a) = ok (f a)
  map_ok f (err e) = err e
  map_ok f stuck = stuck

  pub Outcome-cases :
      (r : Outcome E A) → r ≢ stuck → ((a : A) × (r ≡ ok a)) ⊎ ((e : E) × (r ≡ err e))
  Outcome-cases (ok a) h = inl (a, refl)
  Outcome-cases (err e) h = inr (e, refl)
  Outcome-cases stuck h = absurd (h refl)
