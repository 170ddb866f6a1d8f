-- ===== src/Prelude/Words.antt =====
-- `int` and `int64`: a number below 2 ^ 64 is the bit pattern, in two's complement.
use Prim.Native.Nat.{ℕ, zero, suc, ◌+◌, ◌-◌, ◌/◌, ◌%◌}
use Prim.Native.String.{String}
use Prim.Native.String.{◌++◌ as str_append}
use mathlib.Core.Bool.{Bool}
use mathlib.Core.Path.{◌≡◌, refl}
use rysh_cli_shared.Prelude.Tests.{ltb, if◌then◌else◌}

abbrev pub two_64 : ℕ
two_64 = 18446744073709551616

abbrev pub two_63 : ℕ
two_63 = 9223372036854775808

-- n++
abbrev pub inc64 : ℕ → ℕ
inc64 n = (n + 1) % two_64

-- a < b, on the integers that the patterns stand for
abbrev pub slt : ℕ → ℕ → Bool
slt a b = ltb ((a + two_63) % two_64) ((b + two_63) % two_64)

infixr 65 ◌<>◌
-- s + t, on strings
abbrev pub ◌<>◌ : String → String → String
s <> t = str_append s t

digit : ℕ → String
digit zero = "0"
digit (suc zero) = "1"
digit (suc (suc zero)) = "2"
digit (suc (suc (suc zero))) = "3"
digit (suc (suc (suc (suc zero)))) = "4"
digit (suc (suc (suc (suc (suc zero))))) = "5"
digit (suc (suc (suc (suc (suc (suc zero)))))) = "6"
digit (suc (suc (suc (suc (suc (suc (suc zero))))))) = "7"
digit (suc (suc (suc (suc (suc (suc (suc (suc zero)))))))) = "8"
digit _ = "9"

-- A number below 2 ^ 64 has at most 20 digits.
decimal : ℕ → ℕ → String
unfolding digit
decimal zero n = ""
decimal (suc fuel) n =
    let high = decimal fuel (n / 10) in if ltb n 10 then digit n else high <> digit (n % 10)

-- fmt's %d
unfoldable pub show_int : ℕ → String
unfolding decimal
show_int n = if ltb n two_63 then decimal 20 n else "-" <> decimal 20 (two_64 - n)

show_int_example : show_int 10470 ≡ "10470"
unfolding show_int
show_int_example = refl
