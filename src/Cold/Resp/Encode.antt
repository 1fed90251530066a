-- ===== src/Cold/Resp/Encode.antt =====
-- Replies as the protocol of Redis writes them, and the bounds that `RESPReader` of
-- scripts/cold_redis_acceptance.py sets for them.
use kairos_deploy.Base.{ℕ, zero, suc, ◌≤◌, ◌≡◌, List, [], ◌∷◌, ◌++◌, true, length}
use kairos_deploy.Base.Bytes.{Bytes}
use kairos_deploy.Base.Lines.{crlf, unbroken}
use kairos_deploy.Base.Integers.{ℤ, pos, negsuc, decimal, max_digits}
use kairos_deploy.Cold.Resp.{
  Reply, Replies, line, integer, nothing, bulk, array, nil, cons, max_array,
}

abbrev pub size : Replies → ℕ
size nil = 0
size (cons v vs) = suc (size vs)

abbrev pub numeral : ℤ → Bytes
numeral (pos n) = decimal n
numeral (negsuc n) = 45 ∷ decimal (suc n)

-- A reply as the protocol writes it.
unfoldable mutual
  pub encode : Reply → Bytes
  encode (line text) = 43 ∷ (text ++ crlf)
  encode (integer n) = 58 ∷ (numeral n ++ crlf)
  encode nothing = 36 ∷ 45 ∷ 49 ∷ crlf
  encode (bulk value) = 36 ∷ (decimal (length value) ++ (crlf ++ (value ++ crlf)))
  encode (array vs) = 42 ∷ (decimal (size vs) ++ (crlf ++ encode_all vs))

  pub encode_all : Replies → Bytes
  encode_all nil = []
  encode_all (cons v vs) = encode v ++ encode_all vs

abbrev pub IsShort : ℤ → Type 0
IsShort (pos n) = length (decimal n) ≤ max_digits
IsShort (negsuc n) = length (decimal (suc n)) ≤ max_digits

-- A reply within so many levels and the bounds of the reader.
unfoldable mutual
  pub Fits : ℕ → ℕ → Reply → Type 0
  Fits zero maximum v = ⊥
  Fits (suc levels) maximum (line text) = unbroken text ≡ true
  Fits (suc levels) maximum (integer n) = IsShort n
  Fits (suc levels) maximum nothing = Unit
  Fits (suc levels) maximum (bulk value) =
      (length value ≤ maximum) × (length (decimal (length value)) ≤ max_digits)
  Fits (suc levels) maximum (array vs) =
      (size vs ≤ max_array) × (length (decimal (size vs)) ≤ max_digits) × AllFit levels maximum vs

  pub AllFit : ℕ → ℕ → Replies → Type 0
  AllFit levels maximum nil = Unit
  AllFit levels maximum (cons v vs) = Fits levels maximum v × AllFit levels maximum vs

abbrev pub bulks : List Bytes → Replies
bulks [] = nil
bulks (part ∷ parts) = cons (bulk part) (bulks parts)

-- Every part is within the bounds of the reader.
abbrev pub PartsFit : ℕ → List Bytes → Type 0
PartsFit maximum [] = Unit
PartsFit maximum (part ∷ parts) =
    ((length part ≤ maximum) × (length (decimal (length part)) ≤ max_digits))
    × PartsFit maximum parts
