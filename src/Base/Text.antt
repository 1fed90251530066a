-- ===== src/Base/Text.antt =====
-- Python's text, as code points.
use kairos_deploy.Base.Tests.{if◌then◌else◌, ◌==◌, leb, Bool-cases}
use kairos_deploy.Base.Lists.{length, take}
use kairos_deploy.Base.Bytes.{Bytes, bytes_eq}
use Prim.Native.Nat.{ℕ}
use mathlib.Core.Path.{◌≡◌, refl}
use mathlib.Core.Logic.{inl, inr}
use mathlib.Core.Bool.{Bool, true, ◌&&◌, ◌||◌}
use mathlib.Core.List.{List, [], ◌∷◌, ◌++◌}
use native.Mathlib.Omega.{arith}

-- `text.startswith(prefix)`
abbrev pub starts_with : Bytes → Bytes → Bool
starts_with prefix text = bytes_eq (take (length prefix) text) prefix

abbrev is_break : ℕ → Bool
is_break c = leb 10 c && leb c 13 || leb 28 c && leb c 30 || c == 133 || leb 8_232 c && leb c 8_233

abbrev push : ℕ → List Bytes → List Bytes
push c [] = (c ∷ []) ∷ []
push c (line ∷ lines) = (c ∷ line) ∷ lines

-- `text.splitlines()`
unfoldable pub split_lines : Bytes → List Bytes
split_lines [] = []
split_lines (c ∷ []) = if is_break c then [] ∷ [] else (c ∷ []) ∷ []
split_lines (c ∷ d ∷ cs) =
    let rest = split_lines (d ∷ cs) in
    if is_break c then if c == 13 && d == 10 then rest else [] ∷ rest else push c rest

abbrev pub is_white : ℕ → Bool
is_white c =
    leb 9 c && leb c 13
    || leb 28 c && leb c 32
    || c == 133
    || c == 160
    || c == 5_760
    || leb 8_192 c && leb c 8_202
    || leb 8_232 c && leb c 8_233
    || c == 8_239
    || c == 8_287
    || c == 12_288

abbrev pub kept : (ℕ → Bool) → ℕ → Bytes → Bytes
kept drops c [] = if drops c then [] else c ∷ []
kept drops c (d ∷ ds) = c ∷ d ∷ ds

-- `text.rstrip(...)` of the characters with the test.
unfoldable pub strip_right : (ℕ → Bool) → Bytes → Bytes
strip_right drops [] = []
strip_right drops (c ∷ cs) = kept drops c (strip_right drops cs)

unfoldable pub strip_left : (ℕ → Bool) → Bytes → Bytes
strip_left drops [] = []
strip_left drops (c ∷ cs) = if drops c then strip_left drops cs else c ∷ cs

-- `text.strip()`
abbrev pub strip : Bytes → Bytes
strip text = strip_right is_white (strip_left is_white text)

-- `text.split(separator)`, of one character.
unfoldable pub split_on : ℕ → Bytes → List Bytes
split_on separator [] = [] ∷ []
split_on separator (c ∷ cs) =
    let rest = split_on separator cs in if c == separator then [] ∷ rest else push c rest

push-append :
    (c : ℕ) (xs ys : List Bytes) (x : Bytes) → push c ((x ∷ xs) ++ ys) ≡ push c (x ∷ xs) ++ ys
push-append c xs ys x = refl

split_on-cons :
    (separator : ℕ) (text : Bytes)
    → (x : Bytes) × (xs : List Bytes) × (split_on separator text ≡ x ∷ xs)
unfolding split_on
split_on-cons separator [] = ([], [], refl)
split_on-cons separator (c ∷ cs) =
    let (x, xs, e) = split_on-cons separator cs in
    elim (Bool-cases (c == separator)) [
      | inl same ↦ ([], x ∷ xs, rw (same, e) refl)
      | inr other ↦ (c ∷ x, xs, rw (other, e) refl)
    ]

-- Text splits at a separator in it.
pub split_on-append :
    (separator : ℕ) (xs ys : Bytes)
    → split_on separator (xs ++ (separator ∷ ys)) ≡ split_on separator xs ++ split_on separator ys
unfolding split_on
split_on-append separator [] ys =
    let same : (separator == separator) ≡ true = ground arith in rw same refl
split_on-append separator (x ∷ xs) ys =
    let (first, rest, e) = split_on-cons separator xs in
    elim (Bool-cases (x == separator)) [
      | inl same ↦ rw (same, split_on-append separator xs ys) refl
      | inr other ↦ rw (other, split_on-append separator xs ys, e) refl
    ]
