-- ===== src/Aof/Reader/Grammar.antt =====
-- The wire format that scripts/runtime_epoch_redis_aof.py admits, as a grammar of its own: a command
-- is `*`, a count, and that many tokens; a token is `$`, a length, and that many bytes.
use kairos_deploy.Base.{ℕ, ◌≤◌, ◌≡◌, true, List, [], ◌∷◌, ◌++◌, length}
use kairos_deploy.Base.Bytes.{Bytes, all_digits, number}
use kairos_deploy.Aof.Codes.{max_array_length, max_token_bytes}
use kairos_deploy.Base.Lines.{crlf}

-- At most twenty decimal digits with the value `n`. Leading zeros are admitted.
pub record IsNumeral (ds : Bytes) (n : ℕ) : Type 0 where
  pub nonempty : 1 ≤ length ds
  pub short : length ds ≤ 20
  pub digits : all_digits ds ≡ true
  pub value : number ds ≡ n

pub record IsToken (arg wire : Bytes) : Type 0 where
  pub header : Bytes
  pub numeral : IsNumeral header (length arg)
  pub bounded : length arg ≤ max_token_bytes
  pub spelled : wire ≡ (b'$' ∷ header) ++ (crlf ++ (arg ++ crlf))

abbrev pub IsTokens : List Bytes → Bytes → Type 0
IsTokens [] wire = wire ≡ []
IsTokens (arg ∷ args) wire =
    (v : Bytes) × (w : Bytes) × IsToken arg v × IsTokens args w × (wire ≡ v ++ w)

-- `wire` is the command `command` on the wire.
pub record IsFrame (command : List Bytes) (wire : Bytes) : Type 0 where
  pub header : Bytes
  pub body : Bytes
  pub numeral : IsNumeral header (length command)
  pub least : 1 ≤ length command
  pub most : length command ≤ max_array_length
  pub tokens : IsTokens command body
  pub spelled : wire ≡ (b'*' ∷ header) ++ (crlf ++ body)

-- A file is one frame after another.
abbrev pub IsStream : List (List Bytes) → Bytes → Type 0
IsStream [] wire = wire ≡ []
IsStream (command ∷ commands) wire =
    (v : Bytes) × (w : Bytes) × IsFrame command v × IsStream commands w × (wire ≡ v ++ w)
