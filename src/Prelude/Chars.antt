-- ===== src/Prelude/Chars.antt =====
-- Texts that the program walks through, as lists of code points, and the methods of Rust's `str` and
-- `char` that it calls on them.
use Prim.Native.Nat.{ℕ, ◌+◌}
use Prim.Native.Char.{code}
use Prim.Native.String.{String}
use mathlib.Core.Path.{◌≡◌, refl}
use mathlib.Core.Bool.{Bool, true, not, ◌&&◌, ◌||◌}
use mathlib.Core.List.{List, [], ◌∷◌, ◌++◌}
use mathlib.Core.Option.{Option, none, some}
use native.Mathlib.Omega.{arith}
use pointlock.Prelude.Tests.{ltb, leb, ◌==◌, if◌then◌else◌}
use pointlock.Prelude.Seqs.{all}

abbrev pub Text : Type 0
Text = List ℕ

-- The code points of a text.
abbrev pub codes : String → Text
codes String.[] = []
codes (String.◌∷◌ c s) = code c ∷ codes s

-- `is_ascii_digit`.
unfoldable pub is_digit : ℕ → Bool
is_digit c = leb b'0' c && leb c b'9'

-- `is_ascii_lowercase`.
unfoldable pub is_lower : ℕ → Bool
is_lower c = leb b'a' c && leb c b'z'

-- `is_ascii_alphabetic`.
unfoldable pub is_letter : ℕ → Bool
unfolding is_lower
is_letter c = is_lower c || (leb b'A' c && leb c b'Z')

-- `len_utf8`.
unfoldable pub utf8_width : ℕ → ℕ
utf8_width c = if ltb c 0x80 then 1 else if ltb c 0x800 then 2 else if ltb c 0x10000 then 3 else 4

-- `str::len`, in bytes.
unfoldable pub byte_len : Text → ℕ
byte_len [] = 0
byte_len (c ∷ s) = utf8_width c + byte_len s

-- The longest prefix that passes the test, and what is behind it.
unfoldable pub span : (ℕ → Bool) → Text → Text × Text
span p [] = ([], [])
span p (c ∷ s) = let (front, back) = span p s in if p c then (c ∷ front, back) else ([], c ∷ s)

-- `split_once`, at the first `mark`.
unfoldable pub split_once : ℕ → Text → Option (Text × Text)
split_once mark [] = none
split_once mark (c ∷ s) =
    let later = split_once mark s in
    if c == mark
    then some ([], s)
    else elim later [ none ↦ none | some (front, back) ↦ some (c ∷ front, back) ]

-- `split`: the first piece, and the others.
unfoldable pub split : ℕ → Text → Text × List Text
split mark [] = ([], [])
split mark (c ∷ s) =
    let (piece, others) = split mark s in
    if c == mark then ([], piece ∷ others) else (c ∷ piece, others)

unfoldable pub strip_prefix : Text → Text → Option Text
strip_prefix [] s = some s
strip_prefix (p ∷ ps) [] = none
strip_prefix (p ∷ ps) (c ∷ s) = if c == p then strip_prefix ps s else none

-- The text holds no `mark`.
abbrev pub lacks : ℕ → Text → Bool
lacks mark s = all (λ c. not (c == mark)) s

-- The text does not begin with a character that passes the test.
abbrev pub stops : (ℕ → Bool) → Text → Bool
stops p [] = true
stops p (c ∷ s) = not (p c)

-- A text in front of a place where the test fails is the span.
pub span-append :
    (p : ℕ → Bool) (a t : Text) → all p a ≡ true → stops p t ≡ true → span p (a ++ t) ≡ (a, t)
unfolding span
span-append p [] [] h k = refl
span-append p [] (c ∷ t) h k = ground arith
span-append p (x ∷ a) t h k = ground (arith, span-append p a t)

pub split_once-append :
    (mark : ℕ) (a t : Text) → lacks mark a ≡ true → split_once mark (a ++ mark ∷ t) ≡ some (a, t)
unfolding split_once
split_once-append mark [] t h = ground arith
split_once-append mark (x ∷ a) t h = ground (arith, split_once-append mark a t)

pub split_once-lacks : (mark : ℕ) (a : Text) → lacks mark a ≡ true → split_once mark a ≡ none
unfolding split_once
split_once-lacks mark [] h = refl
split_once-lacks mark (x ∷ a) h = ground (arith, split_once-lacks mark a)

pub split-append :
    (mark : ℕ) (a t : Text)
    → lacks mark a ≡ true
    → split mark (a ++ t) ≡ (a ++ (split mark t).0, (split mark t).1)
unfolding split
split-append mark [] t h = refl
split-append mark (x ∷ a) t h = ground (arith, split-append mark a t)

-- A mark opens a new piece.
pub split-mark :
    (mark : ℕ) (t : Text) → split mark (mark ∷ t) ≡ ([], (split mark t).0 ∷ (split mark t).1)
unfolding split
split-mark mark t = ground arith
