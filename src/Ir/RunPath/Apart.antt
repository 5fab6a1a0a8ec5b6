-- ===== src/Ir/RunPath/Apart.antt =====
-- What the parts are that a text comes apart into.
use pointlock.Prelude.{
  ℕ, ◌≤◌, ◌≡◌, refl, subst, inl, inr, Bool, true, false, [], ◌∷◌, ◌++◌, Option, none, some,
  Bool-cases, Text, ◌==◌, if◌then◌else◌, all, length, span, split, split_once, strip_prefix, lacks,
  arith,
}

pub span-concat : (p : ℕ → Bool) (s : Text) → (span p s).0 ++ (span p s).1 ≡ s
unfolding span
span-concat p [] = refl
span-concat p (c ∷ s) = ground (arith, span-concat p s)

-- The text behind a span has no more characters, and no other ones.
pub span-rest :
    (p : ℕ → Bool) (mark : ℕ) (s : Text)
    → lacks mark s ≡ true
    → (lacks mark (span p s).1 ≡ true) × (length (span p s).1 ≤ length s)
unfolding span
span-rest p mark [] h = (refl, omega arith)
span-rest p mark (c ∷ s) h = ground (arith, span-rest p mark s)

-- A mark at which a text is split is not in front of that place; no other character comes in.
pub record SplitOnce (mark other : ℕ) (s front back : Text) : Type 0 where
  pub front_mark : lacks mark front ≡ true
  pub front_other : lacks other front ≡ true
  pub back_other : lacks other back ≡ true
  pub shorter : length back ≤ length s

SplitOnce-cons :
    (mark other c : ℕ) (s front back : Text)
    → (c == mark) ≡ false
    → lacks other (c ∷ s) ≡ true
    → SplitOnce mark other s front back
    → SplitOnce mark other (c ∷ s) (c ∷ front) back
SplitOnce-cons mark other c s front back h k q = record {
  front_mark = rw h q.front_mark;
  front_other = ground (arith, q.front_other);
  back_other = q.back_other;
  shorter = omega (arith, q.shorter);
}

abbrev Parts : ℕ → ℕ → Text → Option (Text × Text) → Type 0
Parts mark other s none = Unit
Parts mark other s (some (front, back)) = SplitOnce mark other s front back

SplitOnce-here :
    (mark other c : ℕ) (s : Text) → lacks other (c ∷ s) ≡ true → SplitOnce mark other (c ∷ s) [] s
SplitOnce-here mark other c s h = record {
  front_mark = refl;
  front_other = refl;
  back_other = ground arith;
  shorter = omega arith;
}

split_once-Parts :
    (mark other : ℕ) (s : Text) → lacks other s ≡ true → Parts mark other s (split_once mark s)
unfolding split_once
split_once-Parts mark other [] h = tt
split_once-Parts mark other (c ∷ s) h =
    grow (split_once mark s) (split_once-Parts mark other s (ground arith))
  where
    grow :
        (later : Option (Text × Text))
        → Parts mark other s later
        → Parts mark other (c ∷ s) (
            if c == mark
            then some ([], s)
            else elim later [ none ↦ none | some (front, back) ↦ some (c ∷ front, back) ])
    grow later parts = elim (Bool-cases (c == mark)) [
      | inl q ↦ rw q (SplitOnce-here mark other c s h)
      | inr q ↦ rw q (more q later parts)
    ]
      where
        more :
            (c == mark) ≡ false
            → (later : Option (Text × Text)) → Parts mark other s later
            → Parts mark other
                (c ∷ s)
                (elim later [ none ↦ none | some (front, back) ↦ some (c ∷ front, back) ])
        more q none parts = tt
        more q (some (front, back)) parts = SplitOnce-cons mark other c s front back q h parts

pub split_once-parts :
    (mark other : ℕ) (s front back : Text)
    → lacks other s ≡ true
    → split_once mark s ≡ some (front, back)
    → SplitOnce mark other s front back
split_once-parts mark other s front back h q =
    subst (Parts mark other s) q (split_once-Parts mark other s h)

-- Every piece lacks the mark.
pub split-lacks :
    (mark : ℕ) (s : Text)
    → (lacks mark (split mark s).0 ≡ true) × (all (lacks mark) (split mark s).1 ≡ true)
unfolding split
split-lacks mark [] = (refl, refl)
split-lacks mark (c ∷ s) = ground (arith, split-lacks mark s)

pub strip_prefix-front :
    (front a t : Text) → strip_prefix front (a ++ t) ≡ none → strip_prefix front a ≡ none
unfolding strip_prefix
strip_prefix-front [] a t h = absurd cc
strip_prefix-front (x ∷ front) [] t h = refl
strip_prefix-front (x ∷ front) (c ∷ a) t h = ground (arith, strip_prefix-front front a t)
