-- ===== src/Prelude/Decimal.antt =====
-- Decimal numbers: `Display` and `FromStr` of `u64`.
use Prim.Native.Nat.{ℕ, zero, suc, ◌+◌, ◌-◌, ◌*◌, ◌/◌, ◌%◌, ◌<◌}
use mathlib.Core.Path.{◌≡◌, refl, ap, ◌∙◌}
use mathlib.Core.Bool.{Bool, true, ◌&&◌}
use mathlib.Core.List.{concat-ne-nil, [], ◌∷◌, ◌++◌}
use mathlib.Core.Option.{Option, none, some}
use mathlib.Core.Logic.{◌≢◌, inl, inr}
use native.Mathlib.Omega.{arith}
use pointlock.Prelude.Tests.{ltb, Bool-cases, Option-cases, ◌==◌, if◌then◌else◌}
use pointlock.Prelude.Seqs.{all}
use pointlock.Prelude.Chars.{Text, is_digit}

-- The numbers of a `u64` are below this one.
abbrev pub u64_end : ℕ
u64_end = 18446744073709551616

-- The digits of `n`, if it has at most `fuel` of them.
unfoldable pub digits_of : ℕ → ℕ → Text
digits_of zero n = []
digits_of (suc fuel) n =
    let rest = digits_of fuel (n / 10) in
    if ltb n 10 then (b'0' + n) ∷ [] else rest ++ (b'0' + n % 10) ∷ []

-- `Display`: a number has at most as many digits as its successor has units, and one.
unfoldable pub decimal : ℕ → Text
decimal n = digits_of (suc n) n

-- One more digit behind the value so far, within the range.
unfoldable pub push_digit : ℕ → ℕ → Option ℕ
unfolding is_digit
push_digit value c =
    if is_digit c && ltb (value * 10 + (c - b'0')) u64_end
    then some (value * 10 + (c - b'0'))
    else none

unfoldable pub push_digits : ℕ → Text → Option ℕ
push_digits value [] = some value
push_digits value (c ∷ s) = elim (push_digit value c) [ none ↦ none | some v ↦ push_digits v s ]

-- `parse::<u64>`: one or more digits, behind at most one plus sign.
unfoldable pub parse_u64 : Text → Option ℕ
parse_u64 [] = none
parse_u64 (c ∷ []) = push_digits 0 (c ∷ [])
parse_u64 (c ∷ d ∷ s) = if c == b'+' then push_digits 0 (d ∷ s) else push_digits 0 (c ∷ d ∷ s)

push_digits-append :
    (value : ℕ) (a : Text) (c v : ℕ)
    → push_digits value a ≡ some v
    → push_digits value (a ++ c ∷ []) ≡ push_digit v c
unfolding push_digits
push_digits-append value [] c v h = elim (Option-cases (push_digit v c)) [
  | inl q ↦ ground (arith, q)
  | inr (w, q) ↦ ground (arith, q)
]
push_digits-append value (x ∷ a) c v h = elim (Option-cases (push_digit value x)) [
  | inl q ↦ ground (arith, q)
  | inr (w, q) ↦ ground (arith, q, push_digits-append w a c v)
]

push_digit-digit :
    (v d : ℕ) → d < 10 → v * 10 + d < u64_end → push_digit v (b'0' + d) ≡ some (v * 10 + d)
unfolding push_digit is_digit
push_digit-digit v d h k = ground arith

push_digits-digits_of :
    (fuel n : ℕ) → n < fuel → n < u64_end → push_digits 0 (digits_of fuel n) ≡ some n
unfolding digits_of push_digits
push_digits-digits_of zero n h k = absurd (omega arith)
push_digits-digits_of (suc fuel) n h k = elim (Bool-cases (ltb n 10)) [
  | inl q ↦ ground (arith, q, push_digit-digit 0 n)
  | inr q ↦ rw q (
      push_digits-append 0 (digits_of fuel (n / 10)) (b'0' + n % 10) (n / 10)
        (push_digits-digits_of fuel (n / 10) (ground arith) (omega arith))
      ∙ push_digit-digit (n / 10) (n % 10) (omega arith) (omega arith)
      ∙ ap some (omega arith))
]

digits_of-ne-nil : (fuel n : ℕ) → digits_of (suc fuel) n ≢ []
unfolding digits_of
digits_of-ne-nil fuel n = ground (arith, concat-ne-nil (b'0' + n % 10) (digits_of fuel (n / 10)))

all-push :
    (p : ℕ → Bool) (a : Text) (c : ℕ) → all p a ≡ true → p c ≡ true → all p (a ++ c ∷ []) ≡ true
all-push p [] c h k = ground arith
all-push p (x ∷ a) c h k = ground (arith, all-push p a c)

is_digit-digit : (d : ℕ) → d < 10 → is_digit (b'0' + d) ≡ true
unfolding is_digit
is_digit-digit d h = ground arith

digits_of-digits : (fuel n : ℕ) → all is_digit (digits_of fuel n) ≡ true
unfolding digits_of
digits_of-digits zero n = refl
digits_of-digits (suc fuel) n = ground (
  arith,
  is_digit-digit n,
  is_digit-digit (n % 10),
  all-push is_digit (digits_of fuel (n / 10)) (b'0' + n % 10) (digits_of-digits fuel (n / 10)),
)

-- Digits are not a sign.
parse_u64-digits : (s : Text) → all is_digit s ≡ true → s ≢ [] → parse_u64 s ≡ push_digits 0 s
unfolding parse_u64 is_digit
parse_u64-digits [] h k = absurd (k refl)
parse_u64-digits (c ∷ []) h k = refl
parse_u64-digits (c ∷ d ∷ s) h k = ground arith

pub decimal-digits : (n : ℕ) → all is_digit (decimal n) ≡ true
unfolding decimal
decimal-digits n = digits_of-digits (suc n) n

pub decimal-ne-nil : (n : ℕ) → decimal n ≢ []
unfolding decimal
decimal-ne-nil n = digits_of-ne-nil n n

-- The printed form of a `u64` reads as the number.
pub parse_u64-decimal : (n : ℕ) → n < u64_end → parse_u64 (decimal n) ≡ some n
unfolding decimal
parse_u64-decimal n h =
    parse_u64-digits (decimal n) (decimal-digits n) (decimal-ne-nil n)
    ∙ push_digits-digits_of (suc n) n (omega arith) h

push_digit-lt : (value c v : ℕ) → push_digit value c ≡ some v → v < u64_end
unfolding push_digit
push_digit-lt value c v h = ground arith

push_digits-lt :
    (value : ℕ) (s : Text) (n : ℕ) → value < u64_end → push_digits value s ≡ some n → n < u64_end
unfolding push_digits
push_digits-lt value [] n k h = ground arith
push_digits-lt value (c ∷ s) n k h = elim (Option-cases (push_digit value c)) [
  | inl q ↦ ground (arith, q)
  | inr (v, q) ↦ ground (arith, q, push_digits-lt v s n (push_digit-lt value c v q))
]

-- What reads as a number is within the range.
pub parse_u64-lt : (s : Text) (n : ℕ) → parse_u64 s ≡ some n → n < u64_end
unfolding parse_u64
parse_u64-lt [] n h = cc
parse_u64-lt (c ∷ []) n h = push_digits-lt 0 (c ∷ []) n (omega arith) h
parse_u64-lt (c ∷ d ∷ s) n h =
    ground (arith, push_digits-lt 0 (d ∷ s) n, push_digits-lt 0 (c ∷ d ∷ s) n)
