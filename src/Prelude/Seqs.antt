-- ===== src/Prelude/Seqs.antt =====
-- Growing vectors: the operations of `Vec` that the program calls, over lists in index order.
use Prim.Native.Nat.{ℕ, zero, suc, ◌+◌, ◌-◌}
use mathlib.Core.Path.{◌≡◌, refl, ap}
use mathlib.Core.Bool.{Bool, true, false, ◌&&◌, ◌||◌}
use mathlib.Core.List.{List, [], ◌∷◌, ◌++◌}
use mathlib.Core.Option.{Option, none, some}
use native.Mathlib.Omega.{arith}
use pointlock.Prelude.Tests.{if◌then◌else◌}

module _ {ℓ} {A : Type ℓ} where
  abbrev pub length : List A → ℕ
  length [] = 0
  length (x ∷ xs) = suc (length xs)

  abbrev pub get_elem? : List A → ℕ → Option A
  get_elem? [] i = none
  get_elem? (x ∷ xs) zero = some x
  get_elem? (x ∷ xs) (suc i) = get_elem? xs i

  -- `push`.
  abbrev pub push : List A → A → List A
  push xs x = xs ++ x ∷ []

  -- `last`.
  abbrev pub last? : List A → Option A
  last? [] = none
  last? (x ∷ []) = some x
  last? (x ∷ y ∷ xs) = last? (y ∷ xs)

  -- What `pop` leaves.
  abbrev pub init : List A → List A
  init [] = []
  init (x ∷ []) = []
  init (x ∷ y ∷ xs) = x ∷ init (y ∷ xs)

  -- A write through `get_mut`: out of bounds nothing changes.
  abbrev pub modify_at : ℕ → (A → A) → List A → List A
  modify_at i f [] = []
  modify_at zero f (x ∷ xs) = f x ∷ xs
  modify_at (suc i) f (x ∷ xs) = x ∷ modify_at i f xs

  -- A write through `last_mut`.
  abbrev pub modify_last : (A → A) → List A → List A
  modify_last f [] = []
  modify_last f (x ∷ []) = f x ∷ []
  modify_last f (x ∷ y ∷ xs) = x ∷ modify_last f (y ∷ xs)

  abbrev pub any : (A → Bool) → List A → Bool
  any p [] = false
  any p (x ∷ xs) = p x || any p xs

  abbrev pub all : (A → Bool) → List A → Bool
  all p [] = true
  all p (x ∷ xs) = p x && all p xs

  -- `iter().find`.
  abbrev pub find : (A → Bool) → List A → Option A
  find p [] = none
  find p (x ∷ xs) = if p x then some x else find p xs

  -- How many elements pass the test.
  abbrev pub count : (A → Bool) → List A → ℕ
  count p [] = 0
  count p (x ∷ xs) = (if p x then 1 else 0) + count p xs

  -- `iter().rposition`: the last index that passes the test.
  abbrev pub rposition : (A → Bool) → List A → Option ℕ
  rposition p [] = none
  rposition p (x ∷ xs) = elim (rposition p xs) [
    | some i ↦ some (suc i)
    | none ↦ if p x then some 0 else none
  ]

  pub length-push : (xs : List A) (x : A) → length (push xs x) ≡ suc (length xs)
  length-push [] x = refl
  length-push (y ∷ xs) x = ap suc (length-push xs x)

  pub length-init : (xs : List A) → length (init xs) ≡ length xs - 1
  length-init [] = omega arith
  length-init (x ∷ []) = omega arith
  length-init (x ∷ y ∷ xs) = omega (arith, length-init (y ∷ xs))

  pub length-modify_last : (f : A → A) (xs : List A) → length (modify_last f xs) ≡ length xs
  length-modify_last f [] = refl
  length-modify_last f (x ∷ []) = refl
  length-modify_last f (x ∷ y ∷ xs) = ap suc (length-modify_last f (y ∷ xs))

  pub length-modify_at : (i : ℕ) (f : A → A) (xs : List A) → length (modify_at i f xs) ≡ length xs
  length-modify_at i f [] = refl
  length-modify_at zero f (x ∷ xs) = refl
  length-modify_at (suc i) f (x ∷ xs) = ap suc (length-modify_at i f xs)

  -- A vector that has no last element is empty.
  pub length-last?-none : (xs : List A) → last? xs ≡ none → length xs ≡ 0
  length-last?-none [] h = refl
  length-last?-none (x ∷ []) h = cc
  length-last?-none (x ∷ y ∷ xs) h = absurd (omega (arith, length-last?-none (y ∷ xs) h))

  pub append-push : (xs ys : List A) (z : A) → xs ++ push ys z ≡ push (xs ++ ys) z
  append-push [] ys z = refl
  append-push (x ∷ xs) ys z = ap (λ l. x ∷ l) (append-push xs ys z)

  pub last?-push : (xs : List A) (x : A) → last? (push xs x) ≡ some x
  last?-push [] x = refl
  last?-push (y ∷ []) x = refl
  last?-push (y ∷ z ∷ xs) x = last?-push (z ∷ xs) x

module _ {ℓ κ} {A : Type ℓ} {B : Type κ} where
  -- `xs.iter().zip(ys).all(p)`: the shorter side ends it.
  abbrev pub zip_all : (A → B → Bool) → List A → List B → Bool
  zip_all p [] ys = true
  zip_all p (x ∷ xs) [] = true
  zip_all p (x ∷ xs) (y ∷ ys) = p x y && zip_all p xs ys
