-- ===== src/Epoch/Outbox/Flush.antt =====
-- The loop of `flush` in scripts/runtime_epoch_worker.py over the outbox, with what may be lost on
-- the way to Redis and to the database.
use kairos_deploy.Base.{
  ℕ, ◌+◌, Option, none, some, List, [], ◌∷◌, Bool, true, false, not, ◌&&◌, ◌||◌, Result, ok, err,
  ◌>>◌, raise_if, length, take, ltb, ◌==◌, if◌then◌else◌,
}
use kairos_deploy.Base.Bytes.{Bytes, codes, bytes_eq}
use kairos_deploy.Base.Dict.{Dict}
use kairos_deploy.Epoch.Errors.{
  Guarded, epoch_dispatcher_already_running, new_epoch_pending_cap_exceeded,
  non_bar_outbox_rejected, outbox_hash_conflict, positive_redis_receipt_required,
}
use kairos_deploy.Epoch.Catchup.{max_pending}
use kairos_deploy.Epoch.Outbox.{Redis, LuaError, FlushError, epoch, lua, lost, publish, is_receipt}

abbrev topic : Bytes
topic = codes "kairos.market.closed_bar.v1"

abbrev source : Bytes
source = codes "kairos-quant-scouts"

-- A row of `message_outbox`, with a payload of type `P`.
pub record Row (P : Type 0) : Type 0 where
  pub id : ℕ
  pub message_id : Bytes
  pub topic_name : Bytes
  pub payload : P
  pub payload_sha256 : Bytes
  pub producer : Bytes
  pub reconciliation_state : Bytes
  pub dead_lettered : Bool
  pub is_published : Bool
  pub publish_attempts : ℕ

-- The outbox by `id`, Redis, and whether some dispatcher holds the advisory lock.
pub record Host (P : Type 0) : Type 0 where
  pub rows : List (Row P)
  pub redis : Redis
  pub lock_held : Bool

-- What `canonical_payload`, `payload.get` and the `XADD` of Redis give.
pub record Services (P : Type 0) : Type 0 where
  pub encoded : P → Bytes
  pub digest : P → Bytes
  pub message_id_of : P → Option Bytes
  pub next_id : Dict (Dict Bytes) → Bytes

-- What is lost at a row: nothing, the request, its reply, or the update that follows it.
pub data Fault : Type 0 where
  no_fault request_lost reply_lost update_lost : Fault

abbrev is_message : Bytes → Option Bytes → Bool
is_message message_id none = false
is_message message_id (some m) = bytes_eq m message_id

module _ {P : Type 0} where
  abbrev pub pending : List (Row P) → List (Row P)
  pending [] = []
  pending (row ∷ rows) = if row.is_published then pending rows else row ∷ pending rows

  -- The row with its publication on record, if it is the unpublished one with the id.
  abbrev pub marked_row : ℕ → Row P → Row P
  marked_row id row =
      if row.id == id && not row.is_published
      then record row { is_published = true; publish_attempts = row.publish_attempts + 1 }
      else row

  abbrev pub mark : ℕ → List (Row P) → List (Row P)
  mark id [] = []
  mark id (row ∷ rows) = marked_row id row ∷ mark id rows

  unfoldable pub check_row : Services P → Row P → Guarded (Unit {0})
  check_row services row = do
    raise_if
        (not (bytes_eq row.topic_name topic)
          || (not (bytes_eq row.producer source)
              || (not (bytes_eq row.reconciliation_state (codes "NONE")) || row.dead_lettered)))
        non_bar_outbox_rejected
    raise_if
        (not (bytes_eq (services.digest row.payload) row.payload_sha256)
          || not (is_message row.message_id (services.message_id_of row.payload)))
        outbox_hash_conflict
    ok tt

  -- What follows the reply of Redis.
  abbrev pub replied :
      Fault → Row P → Host P → Result LuaError Bytes → Result FlushError (Unit {0}) × Host P
  replied fault row host (err e) = (err (lua e), host)
  replied update_lost row host (ok receipt) =
      if not (is_receipt receipt)
      then (err (epoch positive_redis_receipt_required), host)
      else (err lost, host)
  replied _ row host (ok receipt) =
      if not (is_receipt receipt)
      then (err (epoch positive_redis_receipt_required), host)
      else (ok tt, record host { rows = mark row.id host.rows })

  abbrev pub sent :
      Fault → Row P → Host P → Result LuaError Bytes × Redis → Result FlushError (Unit {0}) × Host P
  sent request_lost row host answer = (err lost, host)
  sent reply_lost row host answer = (err lost, record host { redis = answer.1 })
  sent no_fault row host answer = replied no_fault row (record host { redis = answer.1 }) answer.0
  sent update_lost row host answer =
      replied update_lost row (record host { redis = answer.1 }) answer.0

  -- The answer of Redis to the row.
  abbrev pub answer_to : Services P → Row P → Redis → Result LuaError Bytes × Redis
  answer_to services row redis =
      publish (services.next_id redis.stream) row.message_id (services.digest row.payload)
        (services.encoded row.payload) redis

  abbrev pub checked :
      Services P
      → Fault
      → Row P
      → Host P
      → Guarded (Unit {0})
      → Result FlushError (Unit {0}) × Host P
  checked services fault row host (err e) = (err (epoch e), host)
  checked services fault row host (ok _) = sent fault row host (answer_to services row host.redis)

  unfoldable pub flush_row :
      Services P → Fault → Row P → Host P → Result FlushError (Unit {0}) × Host P
  flush_row services fault row host = checked services fault row host (check_row services row)

  -- The next rows, unless the last one failed.
  abbrev pub continue :
      (Host P → Result FlushError ℕ × Host P)
      → Result FlushError (Unit {0}) × Host P
      → Result FlushError ℕ × Host P
  continue next (ok _, host) = next host
  continue next (err e, host) = (err e, host)

  unfoldable pub flush_rows :
      Services P → (ℕ → Fault) → ℕ → List (Row P) → Host P → Result FlushError ℕ × Host P
  flush_rows services faults count [] host = (ok count, host)
  flush_rows services faults count (row ∷ rows) host =
      continue (λ later. flush_rows services faults (count + 1) rows later)
        (flush_row services (faults count) row host)

  abbrev pub flush_records :
      Services P → (ℕ → Fault) → List (Row P) → Host P → Result FlushError ℕ × Host P
  flush_records services faults records host =
      if ltb max_pending (length records)
      then (err (epoch new_epoch_pending_cap_exceeded), host)
      else flush_rows services faults 0 records host

  -- `finally` gives the lock back.
  abbrev pub unlocked : Result FlushError ℕ × Host P → Result FlushError ℕ × Host P
  unlocked out = (out.0, record out.1 { lock_held = false })

  unfoldable pub flush : Services P → (ℕ → Fault) → Host P → Result FlushError ℕ × Host P
  flush services faults host =
      if host.lock_held
      then (err (epoch epoch_dispatcher_already_running), host)
      else unlocked (
          flush_records services faults (take (max_pending + 1) (pending host.rows))
            (record host { lock_held = true }))
