-- ===== src/Aof/Codes.antt =====
-- The error codes, limits and fixed names of scripts/runtime_epoch_redis_aof.py.
use kairos_deploy.Base.{ℕ, ◌*◌, ◌++◌, Result}
use kairos_deploy.Base.Bytes.{Bytes, codes}

-- The sanitized code that `_AofError` carries.
pub data AofError : Type 0 where
  owner_invalid stream_id_invalid malformed_or_truncated limit_exceeded : AofError
  unknown_command_or_key consumer_identity_invalid profile_invalid : AofError
  transaction_invalid db_invalid stream_id_reused receipt_invalid : AofError
  receipt_field_rewritten : AofError
  -- an exception of `json.loads` that the handler does not name
  json_uncaught : AofError

abbrev pub Checked : Type 0 → Type 0
Checked A = Result AofError A

abbrev pub topic : Bytes
topic = codes "kairos.market.closed_bar.v1"

abbrev pub group : Bytes
group = codes "bars"

abbrev pub max_array_length : ℕ
max_array_length = 32

abbrev pub max_token_bytes : ℕ
max_token_bytes = 128 * 1024

-- `_key(owner)`
abbrev pub publication_key : Bytes → Bytes
publication_key owner = codes "kairos.runtime." ++ (owner ++ codes ".publication")
