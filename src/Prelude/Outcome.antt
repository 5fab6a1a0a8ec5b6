-- ===== src/Prelude/Outcome.antt =====
-- Fallible results: Rust's `Result`, with `?` as bind.
use mathlib.Core.Path.{◌≡◌, refl}
use mathlib.Core.Logic.{◌⊎◌, inl, inr}

pub data Result {ℓ κ} (A : Type ℓ) (E : Type κ) : Type (ℓ ⊔ κ) where
  ok : A → Result A E
  err : E → Result A E

module _ {ℓ κ} {A B : Type ℓ} {E : Type κ} where
  infixl 5 ◌>>=◌
  -- `r?` followed by `next`.
  abbrev pub ◌>>=◌ : Result A E → (A → Result B E) → Result B E
  err failure >>= next = err failure
  ok value >>= next = next value

  -- A chain that succeeds has a first part that does.
  pub >>=-eq-ok :
      (r : Result A E) (next : A → Result B E) {result : B}
      → r >>= next ≡ ok result
      → (value : A) × (r ≡ ok value) × (next value ≡ ok result)
  >>=-eq-ok (err failure) next q = cc
  >>=-eq-ok (ok value) next q = (value, refl, q)

module _ {ℓ κ} {A B : Type ℓ} {E : Type κ} where
  abbrev pub map_ok : (A → B) → Result A E → Result B E
  map_ok f (err failure) = err failure
  map_ok f (ok value) = ok (f value)

module _ {ℓ κ} {A : Type ℓ} {E : Type κ} where
  pub ok-injective : {a b : A} → ◌≡◌ {A = Result A E} (ok a) (ok b) → a ≡ b
  ok-injective h = cc

  pub Result-cases : (r : Result A E) → ((a : A) × (r ≡ ok a)) ⊎ ((e : E) × (r ≡ err e))
  Result-cases (ok a) = inl (a, refl)
  Result-cases (err e) = inr (e, refl)
