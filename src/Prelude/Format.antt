-- ===== src/Prelude/Format.antt =====
-- Texts that the program formats.
use Prim.Native.Nat.{ℕ, zero, suc, ◌/◌, ◌%◌}
use Prim.Native.String.{String, ◌++◌, slice}
use pointlock.Prelude.Tests.{ltb, if◌then◌else◌}

infixr 65 ◌<>◌
abbrev pub ◌<>◌ : String → String → String
a <> b = a ++ b

abbrev digit : ℕ → String
digit d = slice "0123456789" d (suc d)

-- The digits of `n`, if it has at most `fuel` of them.
abbrev digits : ℕ → ℕ → String
digits zero n = ""
digits (suc fuel) n =
    let rest = digits fuel (n / 10) in if ltb n 10 then digit n else rest ++ digit (n % 10)

-- `Display` of an unsigned integer: a number below 10 ^ n has at most n digits, so n itself is enough.
abbrev pub show_nat : ℕ → String
show_nat n = digits (suc n) n
