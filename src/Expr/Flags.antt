-- ===== src/Expr/Flags.antt =====
-- eval.rs, build_regex: the flags of a regular expression, a letter each.
use Prim.Native.Char.{Char, code}
use Prim.Native.String.{[], ◌∷◌}
use pointlock.Prelude.{
  String, Bool, true, false, Option, none, some, if◌then◌else◌, ◌==◌, ◌&&◌, ◌||◌, ◌≡◌, ◌≢◌, arith,
}

-- The options of a `RegexBuilder` that the flags set.
pub record RegexFlags : Type 0 where
  pub case_insensitive : Bool
  pub multi_line : Bool
  pub dot_matches_new_line : Bool
  pub ignore_whitespace : Bool

abbrev pub no_flags : RegexFlags
no_flags = record {
  case_insensitive = false;
  multi_line = false;
  dot_matches_new_line = false;
  ignore_whitespace = false;
}

-- One flag: `i`, `m`, `s` or `x`.
abbrev pub set_flag : Char → RegexFlags → Option RegexFlags
set_flag flag flags =
    if code flag == b'i'
    then some (record flags { case_insensitive = true })
    else if code flag == b'm'
    then some (record flags { multi_line = true })
    else if code flag == b's'
    then some (record flags { dot_matches_new_line = true })
    else if code flag == b'x'
    then some (record flags { ignore_whitespace = true })
    else none

-- The options after all flags, unless one is unknown.
unfoldable pub set_flags : String → RegexFlags → Option RegexFlags
set_flags [] flags = some flags
set_flags (flag ∷ rest) flags = elim (set_flag flag flags) [
  | none ↦ none
  | some more ↦ set_flags rest more
]

-- Whether every flag is known (check.rs).
unfoldable pub known_flags : String → Bool
known_flags [] = true
known_flags (flag ∷ rest) =
    (code flag == b'i' || code flag == b'm' || code flag == b's' || code flag == b'x')
    && known_flags rest

-- Known flags are all set.
pub known_flags-ne-none :
    (text : String) (flags : RegexFlags) → known_flags text ≡ true → set_flags text flags ≢ none
unfolding known_flags set_flags
known_flags-ne-none [] flags h q = cc
known_flags-ne-none (flag ∷ rest) flags h q = ground (
  arith,
  known_flags-ne-none rest (record flags { case_insensitive = true }),
  known_flags-ne-none rest (record flags { multi_line = true }),
  known_flags-ne-none rest (record flags { dot_matches_new_line = true }),
  known_flags-ne-none rest (record flags { ignore_whitespace = true }),
)
