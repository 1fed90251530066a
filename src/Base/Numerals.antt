-- ===== src/Base/Numerals.antt =====
-- Python's `int` of what its `str` gives for a number.
use kairos_deploy.Base.Tests.{◌==◌, ltb, leb, Bool-cases, ltb→lt, ltb→le, &&_true, le→leb}
use kairos_deploy.Base.Lists.{length}
use kairos_deploy.Base.Bytes.{Bytes, is_digit, all_digits, number, number_from}
use kairos_deploy.Base.Integers.{
  pos, negsuc, decimal_with, decimal, strip_end, strip_start, plain_digits, max_digits, signed,
  int_of,
}
use Prim.Native.Nat.{ℕ, zero, suc, ◌+◌, ◌-◌, ◌*◌, ◌/◌, ◌%◌, ◌≤◌, ◌<◌}
use mathlib.Core.Path.{◌≡◌, refl, sym, subst, ap, ◌∙◌}
use mathlib.Core.Logic.{inl, inr}
use mathlib.Core.Bool.{true, false, ◌&&◌, ◌||◌}
use mathlib.Core.Option.{some}
use mathlib.Core.List.{[], ◌∷◌, ◌++◌}
use native.Mathlib.Omega.{arith}

number_from-append :
    (acc d : ℕ) (xs : Bytes) → number_from acc (xs ++ (d ∷ [])) ≡ number_from acc xs * 10 + (d - 48)
unfolding number_from
number_from-append acc d [] = refl
number_from-append acc d (x ∷ xs) = number_from-append (acc * 10 + (x - 48)) d xs

decimal_with-number : (fuel n : ℕ) → n ≤ fuel → number_from 0 (decimal_with fuel n) ≡ n
unfolding decimal_with number_from
decimal_with-number zero n h = omega arith
decimal_with-number (suc fuel) n h = elim (Bool-cases (ltb n 10)) [
  | inl small ↦ rw small (omega arith)
  | inr large ↦
      let le = ltb→le n 10 large in
      let ih = decimal_with-number fuel (n / 10) (omega arith) in
      rw large (omega (arith, number_from-append 0 (48 + n % 10) (decimal_with fuel (n / 10)), ih))
]

digit_is_digit : (n : ℕ) → n < 10 → is_digit (48 + n) ≡ true
digit_is_digit n h = ground arith

all_digits-append :
    (xs : Bytes) (d : ℕ)
    → all_digits xs ≡ true
    → is_digit d ≡ true
    → all_digits (xs ++ (d ∷ [])) ≡ true
all_digits-append [] d h k = rw k
all_digits-append (x ∷ xs) d h k =
    let (first, rest) = &&_true (is_digit x) (all_digits xs) h in
    rw (first, all_digits-append xs d rest k)

decimal_with-all_digits : (fuel n : ℕ) → n ≤ fuel → all_digits (decimal_with fuel n) ≡ true
unfolding decimal_with
decimal_with-all_digits zero n h = rw (digit_is_digit (n % 10) (omega arith))
decimal_with-all_digits (suc fuel) n h = elim (Bool-cases (ltb n 10)) [
  | inl small ↦ rw small (rw (digit_is_digit n (ltb→lt n 10 small)))
  | inr large ↦
      let le = ltb→le n 10 large in
      rw large (
        all_digits-append (decimal_with fuel (n / 10)) _
          (decimal_with-all_digits fuel (n / 10) (omega arith))
          (digit_is_digit (n % 10) (omega arith)))
]

unspaced : (c : ℕ) → is_digit c ≡ true → (leb 9 c && leb c 13 || c == 32) ≡ false
unspaced c h = ground arith

strip_end-digits : (ds : Bytes) → all_digits ds ≡ true → strip_end ds ≡ ds
unfolding strip_end
strip_end-digits [] h = refl
strip_end-digits (c ∷ []) h = rw (unspaced c (&&_true (is_digit c) true h).0) refl
strip_end-digits (c ∷ d ∷ ds) h =
    let (first, rest) = &&_true (is_digit c) (all_digits (d ∷ ds)) h in
    rw (strip_end-digits (d ∷ ds) rest) refl

strip_start-digits : (ds : Bytes) → all_digits ds ≡ true → strip_start ds ≡ ds
unfolding strip_start
strip_start-digits [] h = refl
strip_start-digits (c ∷ ds) h =
    let (first, rest) = &&_true (is_digit c) (all_digits ds) h in rw (unspaced c first) refl

plain_digits-digits : (ds : Bytes) → all_digits ds ≡ true → plain_digits true ds ≡ some ds
unfolding plain_digits
plain_digits-digits [] h = refl
plain_digits-digits (c ∷ ds) h =
    let (first, rest) = &&_true (is_digit c) (all_digits ds) h in
    rw (first, plain_digits-digits ds rest) refl

plain_digits-numeral :
    (c : ℕ) (ds : Bytes) → all_digits (c ∷ ds) ≡ true → plain_digits false (c ∷ ds) ≡ some (c ∷ ds)
unfolding plain_digits
plain_digits-numeral c ds h =
    let (first, rest) = &&_true (is_digit c) (all_digits ds) h in
    rw (first, plain_digits-digits ds rest) refl

unsigned_digit : (c : ℕ) → is_digit c ≡ true → ((c == 45) ≡ false) × ((c == 43) ≡ false)
unsigned_digit c h = (ground arith, ground arith)

signed-numeral :
    (c : ℕ) (ds : Bytes)
    → all_digits (c ∷ ds) ≡ true
    → length (c ∷ ds) ≤ max_digits
    → signed (c ∷ ds) ≡ some (pos (number (c ∷ ds)))
unfolding signed
signed-numeral c ds h short =
    let (first, rest) = &&_true (is_digit c) (all_digits ds) h in
    let (no_minus, no_plus) = unsigned_digit c first in
    rw (no_minus, no_plus, plain_digits-numeral c ds h, le→leb (length (c ∷ ds)) max_digits short)
      refl

int_of-numeral :
    (c : ℕ) (ds : Bytes)
    → all_digits (c ∷ ds) ≡ true
    → length (c ∷ ds) ≤ max_digits
    → int_of (c ∷ ds) ≡ some (pos (number (c ∷ ds)))
unfolding int_of
int_of-numeral c ds h short =
    rw (strip_start-digits (c ∷ ds) h, strip_end-digits (c ∷ ds) h) (signed-numeral c ds h short)

int_of-negative_numeral :
    (c : ℕ) (ds : Bytes) {n : ℕ}
    → all_digits (c ∷ ds) ≡ true
    → length (c ∷ ds) ≤ max_digits
    → number (c ∷ ds) ≡ suc n
    → int_of (45 ∷ c ∷ ds) ≡ some (negsuc n)
unfolding int_of strip_start strip_end signed
int_of-negative_numeral c ds h short e =
    rw
      (
        strip_end-digits (c ∷ ds) h,
        plain_digits-numeral c ds h,
        le→leb (length (c ∷ ds)) max_digits short,
        e,
      )
      refl

pub decimal-all_digits : (n : ℕ) → all_digits (decimal n) ≡ true
unfolding decimal
decimal-all_digits n = decimal_with-all_digits n n (omega arith)

pub decimal-number : (n : ℕ) → number (decimal n) ≡ n
unfolding decimal number
decimal-number n = decimal_with-number n n (omega arith)

-- Bytes that are not empty, in their parts.
snoc-parts : (xs : Bytes) (d : ℕ) → (c : ℕ) × (cs : Bytes) × (xs ++ (d ∷ []) ≡ c ∷ cs)
snoc-parts [] d = (d, [], refl)
snoc-parts (x ∷ xs) d = (x, xs ++ (d ∷ []), refl)

decimal_with-parts : (fuel n : ℕ) → (c : ℕ) × (cs : Bytes) × (decimal_with fuel n ≡ c ∷ cs)
unfolding decimal_with
decimal_with-parts zero n = (48 + n % 10, [], refl)
decimal_with-parts (suc fuel) n = elim (Bool-cases (ltb n 10)) [
  | inl small ↦ (48 + n, [], rw small refl)
  | inr large ↦
      let (c, cs, e) = snoc-parts (decimal_with fuel (n / 10)) (48 + n % 10) in (c, cs, rw large e)
]

decimal-parts : (n : ℕ) → (c : ℕ) × (cs : Bytes) × (decimal n ≡ c ∷ cs)
unfolding decimal
decimal-parts n = decimal_with-parts n n

-- Python's `int` reads what its `str` prints, within the limit for digits.
pub int_of-decimal : (n : ℕ) → length (decimal n) ≤ max_digits → int_of (decimal n) ≡ some (pos n)
int_of-decimal n short =
    let (c, cs, e) = decimal-parts n in
    let all_of : all_digits (c ∷ cs) ≡ true =
      subst (λ ds. all_digits ds ≡ true) e (decimal-all_digits n) in
    let few : length (c ∷ cs) ≤ max_digits = subst (λ ds. length ds ≤ max_digits) e short in
    let value : number (c ∷ cs) ≡ n = subst (λ ds. number ds ≡ n) e (decimal-number n) in
    subst (λ ds. int_of ds ≡ some (pos n)) (sym e)
      (int_of-numeral c cs all_of few ∙ ap (λ m. some (pos m)) value)

pub int_of-negative :
    (n : ℕ)
    → length (decimal (suc n)) ≤ max_digits
    → int_of (45 ∷ decimal (suc n)) ≡ some (negsuc n)
int_of-negative n short =
    let (c, cs, e) = decimal-parts (suc n) in
    let all_of : all_digits (c ∷ cs) ≡ true =
      subst (λ ds. all_digits ds ≡ true) e (decimal-all_digits (suc n)) in
    let few : length (c ∷ cs) ≤ max_digits = subst (λ ds. length ds ≤ max_digits) e short in
    let value : number (c ∷ cs) ≡ suc n =
      subst (λ ds. number ds ≡ suc n) e (decimal-number (suc n)) in
    subst (λ ds. int_of (45 ∷ ds) ≡ some (negsuc n)) (sym e)
      (int_of-negative_numeral c cs all_of few value)
