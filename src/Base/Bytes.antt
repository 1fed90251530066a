-- ===== src/Base/Bytes.antt =====
-- Python `bytes` as lists of byte values, and the methods and patterns that the programs use.
use Prim.Native.Char.{code}
use Prim.Native.Nat.{ℕ, suc, ◌+◌, ◌-◌, ◌*◌}
use Prim.Native.String.{String}
use mathlib.Core.Path.{◌≡◌, refl}
use mathlib.Core.Bool.{Bool, true, false, ◌&&◌, ◌||◌}
use mathlib.Core.Option
use mathlib.Core.Option.{Option, none, some}
use mathlib.Core.List.{List, [], ◌∷◌, map}
use native.Mathlib.Omega.{arith}
use kairos_deploy.Base.Tests.{ltb, leb, ◌==◌, if◌then◌else◌}
use kairos_deploy.Base.Lists.{length, take, drop, all}

abbrev pub Bytes : Type 0
Bytes = List ℕ

-- The bytes of an ASCII literal.
abbrev pub codes : String → Bytes
codes String.[] = []
codes (String.◌∷◌ c s) = code c ∷ codes s

-- `a == b` on byte strings.
unfoldable pub bytes_eq : Bytes → Bytes → Bool
bytes_eq [] [] = true
bytes_eq [] (y ∷ ys) = false
bytes_eq (x ∷ xs) [] = false
bytes_eq (x ∷ xs) (y ∷ ys) = x == y && bytes_eq xs ys

pub bytes_eq_sound : (xs ys : Bytes) → bytes_eq xs ys ≡ true → xs ≡ ys
unfolding bytes_eq
bytes_eq_sound [] [] h = refl
bytes_eq_sound [] (y ∷ ys) h = cc
bytes_eq_sound (x ∷ xs) [] h = cc
bytes_eq_sound (x ∷ xs) (y ∷ ys) h = ground (arith, bytes_eq_sound xs ys)

pub bytes_eq_refl : (xs : Bytes) → bytes_eq xs xs ≡ true
unfolding bytes_eq
bytes_eq_refl [] = refl
bytes_eq_refl (x ∷ xs) = ground (arith, bytes_eq_refl xs)

abbrev within : ℕ → ℕ → ℕ → Bool
within lo hi c = leb lo c && leb c hi

-- `c` is one of `[0-9]`.
abbrev pub is_digit : ℕ → Bool
is_digit c = within b'0' b'9' c

abbrev is_lower_hex : ℕ → Bool
is_lower_hex c = is_digit c || within b'a' b'f' c

abbrev is_hex : ℕ → Bool
is_hex c = is_lower_hex c || within b'A' b'F' c

-- `value.decode("ascii")` succeeds.
abbrev pub is_ascii : Bytes → Bool
is_ascii = all (λ c. ltb c 128)

-- `value.isdigit()` for a value that is not empty.
abbrev pub all_digits : Bytes → Bool
all_digits = all is_digit

unfoldable pub number_from : ℕ → Bytes → ℕ
number_from acc [] = acc
number_from acc (c ∷ cs) = number_from (acc * 10 + (c - b'0')) cs

-- `int(value)` on decimal digits.
unfoldable pub number : Bytes → ℕ
unfolding number_from
number = number_from 0

-- `0|[1-9][0-9]*`
unfoldable pub is_canonical_number : Bytes → Bool
is_canonical_number [] = false
is_canonical_number (c ∷ []) = is_digit c
is_canonical_number (c ∷ d ∷ cs) = within b'1' b'9' c && all_digits (d ∷ cs)

-- `[1-9][0-9]*`
unfoldable pub is_positive_number : Bytes → Bool
is_positive_number [] = false
is_positive_number (c ∷ cs) = within b'1' b'9' c && all_digits cs

-- `[0-9a-fA-F]{64}`
unfoldable pub is_hex64 : Bytes → Bool
is_hex64 value = length value == 64 && all is_hex value

-- `[0-9a-f]{32}`
unfoldable pub is_owner : Bytes → Bool
is_owner value = length value == 32 && all is_lower_hex value

-- `text.split("-", 1)` at a dash that is there.
unfoldable pub split_dash : Bytes → Option (Bytes × Bytes)
split_dash [] = none
split_dash (c ∷ cs) =
    if c == b'-' then some ([], cs) else Option.map (λ p. (c ∷ p.0, p.1)) (split_dash cs)

-- `consumer-[0-9a-f]{12}-[1-9][0-9]*`
unfoldable pub is_consumer : Bytes → Bool
unfolding bytes_eq is_positive_number
is_consumer value =
    bytes_eq (take 9 value) (codes "consumer-")
    && length (take 12 (drop 9 value)) == 12
    && all is_lower_hex (take 12 (drop 9 value))
    && bytes_eq (take 1 (drop 21 value)) (codes "-")
    && is_positive_number (drop 22 value)

-- `value.upper()` and `value.lower()`.
unfoldable pub upper : Bytes → Bytes
upper = map (λ c. if within b'a' b'z' c then c - 32 else c)

unfoldable pub lower : Bytes → Bytes
lower = map (λ c. if within b'A' b'Z' c then c + 32 else c)

-- `data.find(b"\r\n")`: the index of the first line break, if there is one.
unfoldable pub find_crlf : Bytes → Option ℕ
find_crlf [] = none
find_crlf (c ∷ cs) =
    if c == 13 && bytes_eq (take 1 cs) (10 ∷ []) then some 0 else Option.map suc (find_crlf cs)
