-- ===== src/Base/Lines.antt =====
-- Lines that end in a carriage return and a line feed, as `find(b"\r\n")` sees them.
use kairos_deploy.Base.Tests.{◌==◌}
use kairos_deploy.Base.Lists.{length, take, drop, all}
use kairos_deploy.Base.Bytes.{Bytes, bytes_eq, all_digits, find_crlf}
use Prim.Native.Nat.{ℕ, zero, suc, ◌+◌, ◌≤◌}
use mathlib.Core.Path.{◌≡◌, refl}
use mathlib.Core.Bool.{Bool, true, not}
use mathlib.Core.Option.{some}
use mathlib.Core.List.{[], ◌∷◌, ◌++◌}
use native.Mathlib.Omega.{arith}

abbrev pub crlf : Bytes
crlf = 13 ∷ 10 ∷ []

-- The bytes before the first line break, the break, and the bytes behind it.
pub find_crlf_sound :
    (bs : Bytes) (n : ℕ) → find_crlf bs ≡ some n → bs ≡ take n bs ++ (crlf ++ drop (suc (suc n)) bs)
unfolding find_crlf bytes_eq
find_crlf_sound [] n h = cc
find_crlf_sound (c ∷ []) n h = ground arith
find_crlf_sound (c ∷ d ∷ cs) zero h = ground arith
find_crlf_sound (c ∷ d ∷ cs) (suc n) h = ground (arith, find_crlf_sound (d ∷ cs) n)

-- The first line break stands within the bytes.
pub find_crlf-le : (bs : Bytes) (n : ℕ) → find_crlf bs ≡ some n → n + 2 ≤ length bs
unfolding find_crlf bytes_eq
find_crlf-le [] n h = cc
find_crlf-le (c ∷ []) n h = ground arith
find_crlf-le (c ∷ d ∷ cs) zero h = ground arith
find_crlf-le (c ∷ d ∷ cs) (suc n) h = ground (arith, find_crlf-le (d ∷ cs) n)

-- The first line break behind bytes that are digits is the one that follows them.
pub find_crlf-digits :
    (ds rest : Bytes) → all_digits ds ≡ true → find_crlf (ds ++ (crlf ++ rest)) ≡ some (length ds)
unfolding find_crlf bytes_eq
find_crlf-digits [] rest h = refl
find_crlf-digits (d ∷ ds) rest h = ground (arith, find_crlf-digits ds rest)

-- Without a carriage return in it.
abbrev pub unbroken : Bytes → Bool
unbroken = all (λ c. not (c == 13))

pub find_crlf-unbroken :
    (bs rest : Bytes) → unbroken bs ≡ true → find_crlf (bs ++ (crlf ++ rest)) ≡ some (length bs)
unfolding find_crlf bytes_eq
find_crlf-unbroken [] rest h = refl
find_crlf-unbroken (b ∷ bs) rest h = ground (arith, find_crlf-unbroken bs rest)

-- The first line break of bytes stays the first one when more bytes follow.
pub find_crlf-append :
    (bs cs : Bytes) (n : ℕ) → find_crlf bs ≡ some n → find_crlf (bs ++ cs) ≡ some n
unfolding find_crlf bytes_eq
find_crlf-append [] cs n h = cc
find_crlf-append (b ∷ []) cs n h = ground arith
find_crlf-append (b ∷ d ∷ bs) cs zero h = ground arith
find_crlf-append (b ∷ d ∷ bs) cs (suc n) h = ground (arith, find_crlf-append (d ∷ bs) cs n)

pub unbroken-digits : (bs : Bytes) → all_digits bs ≡ true → unbroken bs ≡ true
unbroken-digits [] h = refl
unbroken-digits (b ∷ bs) h = ground (arith, unbroken-digits bs)
