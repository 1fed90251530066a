-- ===== src/Epoch/Outbox.antt =====
-- `flush` of scripts/runtime_epoch_worker.py with its `PUBLICATION_LUA`: the outbox of the epoch's
-- database, published to a Redis stream through a ledger of receipts. The digest and encoding of a
-- payload, its `message_id`, and the ids that Redis gives are parameters.
pub mod Flush
pub mod Ledger
pub mod Published
pub mod Receipts
use kairos_deploy.Base.{
  ℕ, zero, suc, ◌+◌, Option, none, some, List, [], ◌∷◌, ◌++◌, Bool, true, false, not, ◌&&◌, ◌||◌,
  Result, ok, err, ◌>>=◌, ◌>>◌, raise_if, length, take, ltb, ◌==◌, if◌then◌else◌,
}
use kairos_deploy.Base.Bytes.{Bytes, codes, bytes_eq, all_digits, split_dash}
use kairos_deploy.Base.Dict.{Dict, lookup, insert}
use kairos_deploy.Epoch.Errors.{EpochError}

-- The two keys of Redis: entries with their fields by id, and the digest and id of each message.
pub record Redis : Type 0 where
  pub stream : Dict (Dict Bytes)
  pub publications : Dict (Bytes × Bytes)

pub data LuaError : Type 0 where
  epoch_identity_conflict epoch_receipt_without_stream epoch_stream_payload_conflict : LuaError

-- What ends a flush; `lost` is a failure of the driver's own.
pub data FlushError : Type 0 where
  epoch : EpochError → FlushError
  lua : LuaError → FlushError
  lost : FlushError

-- One field `data` with the payload.
unfoldable pub holds_payload : Bytes → Dict Bytes → Bool
holds_payload encoded (field ∷ []) = bytes_eq field.0 (codes "data") && bytes_eq field.1 encoded
holds_payload encoded _ = false

-- The branch for a message that has a prior receipt.
unfoldable pub reply_prior : Bytes → Bytes → Bytes × Bytes → Redis → Result LuaError Bytes
reply_prior digest encoded p redis =
    if not (bytes_eq p.0 digest)
    then err epoch_identity_conflict
    else elim (lookup p.1 redis.stream) [
      | none ↦ err epoch_receipt_without_stream
      | some row ↦ if holds_payload encoded row then ok p.1 else err epoch_stream_payload_conflict
    ]

-- The branch for a message without one, under the id that Redis gives.
abbrev pub published : Bytes → Bytes → Bytes → Bytes → Redis → Redis
published message_id digest encoded id redis = record {
  stream = insert id ((codes "data", encoded) ∷ []) redis.stream;
  publications = insert message_id (digest, id) redis.publications;
}

-- `PUBLICATION_LUA`, for the id that an `XADD` would get.
abbrev pub publish_for :
    Option (Bytes × Bytes) → Bytes → Bytes → Bytes → Bytes → Redis → Result LuaError Bytes × Redis
publish_for (some p) id message_id digest encoded redis =
    (reply_prior digest encoded p redis, redis)
publish_for none id message_id digest encoded redis =
    (ok id, published message_id digest encoded id redis)

unfoldable pub publish : Bytes → Bytes → Bytes → Bytes → Redis → Result LuaError Bytes × Redis
publish id message_id digest encoded redis =
    publish_for (lookup message_id redis.publications) id message_id digest encoded redis

-- `[0-9]+-[0-9]+`
abbrev some_digits : Bytes → Bool
some_digits [] = false
some_digits (c ∷ cs) = all_digits (c ∷ cs)

unfoldable pub is_receipt : Bytes → Bool
is_receipt receipt = elim (split_dash receipt) [
  | none ↦ false
  | some (a, b) ↦ some_digits a && some_digits b
]
