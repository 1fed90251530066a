-- ===== src/Base/Integers.antt =====
-- Python's integers, `str(n)` of one that is not negative, and `int(value)` of bytes.
use kairos_deploy.Base.Tests.{if◌then◌else◌, ◌==◌, ltb, leb}
use kairos_deploy.Base.Lists.{length}
use kairos_deploy.Base.Bytes.{Bytes, is_digit, number}
use Prim.Native.Nat.{ℕ, zero, suc, ◌+◌, ◌/◌, ◌%◌}
use mathlib.Core.Bool.{Bool, true, false, ◌&&◌, ◌||◌}
use mathlib.Core.Option
use mathlib.Core.Option.{Option, none, some}
use mathlib.Core.List.{[], ◌∷◌, ◌++◌}

-- `negsuc n` is -(n + 1).
pub data ℤ : Type 0 where
  pos negsuc : ℕ → ℤ

-- The decimal digits of a number; its value is fuel for its digits.
unfoldable pub decimal_with : ℕ → ℕ → Bytes
decimal_with zero n = (48 + n % 10) ∷ []
decimal_with (suc fuel) n =
    if ltb n 10 then (48 + n) ∷ [] else decimal_with fuel (n / 10) ++ ((48 + n % 10) ∷ [])

-- `str(n)`
unfoldable pub decimal : ℕ → Bytes
unfolding decimal_with
decimal n = decimal_with n n

abbrev is_space : ℕ → Bool
is_space c = leb 9 c && leb c 13 || c == 32

abbrev kept : ℕ → Bytes → Bytes
kept c [] = if is_space c then [] else c ∷ []
kept c (d ∷ ds) = c ∷ d ∷ ds

unfoldable pub strip_end : Bytes → Bytes
strip_end [] = []
strip_end (c ∷ cs) = kept c (strip_end cs)

unfoldable pub strip_start : Bytes → Bytes
strip_start [] = []
strip_start (c ∷ cs) = if is_space c then strip_start cs else c ∷ cs

-- The digits of a numeral in which single underscores may stand between digits.
unfoldable pub plain_digits : Bool → Bytes → Option Bytes
plain_digits true [] = some []
plain_digits false [] = none
plain_digits behind_digit (c ∷ cs) =
    if is_digit c
    then Option.map (λ ds. c ∷ ds) (plain_digits true cs)
    else if c == 95 && behind_digit
    then plain_digits false cs
    else none

-- The limit that Python sets for the digits of an integer.
abbrev pub max_digits : ℕ
max_digits = 4_300

abbrev pub limited : Option Bytes → Option ℕ
limited none = none
limited (some ds) = if leb (length ds) max_digits then some (number ds) else none

abbrev negated_number : ℕ → ℤ
negated_number zero = pos 0
negated_number (suc n) = negsuc n

unfoldable pub signed : Bytes → Option ℤ
signed [] = none
signed (c ∷ cs) =
    if c == 45
    then Option.map negated_number (limited (plain_digits false cs))
    else if c == 43
    then Option.map pos (limited (plain_digits false cs))
    else Option.map pos (limited (plain_digits false (c ∷ cs)))

-- `int(value)`
unfoldable pub int_of : Bytes → Option ℤ
int_of value = signed (strip_end (strip_start value))
