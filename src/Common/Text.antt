-- ===== src/Common/Text.antt =====
-- Text that the program formats: decimal numbers and concatenation.
use Prim.Native.Nat.{ℕ, zero, suc, ◌/◌, ◌%◌}
use Prim.Native.String.{String}
use Prim.Native.String
use lclq.Common.Tests.{ltb, ◌==◌, if◌then◌else◌}

infixr 66 ◌<>◌
abbrev pub ◌<>◌ : String → String → String
s <> t = String.◌++◌ s t

unfoldable pub digit : ℕ → String
digit zero = "0"
digit (suc zero) = "1"
digit (suc (suc zero)) = "2"
digit (suc (suc (suc zero))) = "3"
digit (suc (suc (suc (suc zero)))) = "4"
digit (suc (suc (suc (suc (suc zero))))) = "5"
digit n = if n == 6 then "6" else if n == 7 then "7" else if n == 8 then "8" else "9"

unfoldable pub decimal : ℕ → ℕ → String
decimal zero n = ""
decimal (suc fuel) n =
    let rest = decimal fuel (n / 10) <> digit (n % 10) in if ltb n 10 then digit n else rest

-- `to_string` of an unsigned number; a number has fewer digits than its successor.
unfoldable pub to_string : ℕ → String
unfolding decimal digit
to_string n = decimal (suc n) n
