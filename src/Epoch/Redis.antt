-- ===== src/Epoch/Redis.antt =====
-- `runtime_redis_call` of scripts/runtime_epoch_worker.py: an idempotent Redis operation with its
-- retries, and what the telemetry keeps of its failures.
pub mod Records
mod Rounds
pub mod Retries
use kairos_deploy.Base.{
  ℕ, zero, suc, ◌+◌, ◌≤◌, ◌≡◌, Option, none, some, List, [], ◌∷◌, Bool, true, false, not, ◌&&◌,
  ◌||◌, length, all, any, ltb, leb, ◌==◌, if◌then◌else◌,
}
use Prim.Native.Nat.{min, max}
use kairos_deploy.Base.Bytes.{Bytes, codes, bytes_eq, is_digit}

-- An exception of the driver: its class's name, and which of the classes it belongs to.
pub record DriverError : Type 0 where
  pub class_name : Bytes
  pub is_authentication : Bool
  pub is_connection_or_timeout : Bool

unfoldable pub redis_transport_failure : DriverError → Bool
redis_transport_failure error = not error.is_authentication && error.is_connection_or_timeout

abbrev is_letter : ℕ → Bool
is_letter c = leb 65 c && leb c 90 || leb 97 c && leb c 122

abbrev is_word : ℕ → Bool
is_word c = is_letter c || is_digit c || c == 95

-- `[A-Za-z][A-Za-z0-9_]{0,63}`
unfoldable pub is_class_name : Bytes → Bool
is_class_name [] = false
is_class_name (c ∷ cs) = is_letter c && all is_word cs && leb (length cs) 63

unfoldable pub redis_error_class : DriverError → Bytes
redis_error_class error =
    if is_class_name error.class_name then error.class_name else codes "OtherError"

pub record FailureRecord : Type 0 where
  pub stage : Bytes
  pub elapsed_ms : ℕ
  pub error_class : Bytes
  pub attempts : ℕ

pub record Telemetry : Type 0 where
  pub transport_failures : ℕ
  pub recoveries : ℕ
  pub last_failure : Option FailureRecord

abbrev pub redis_attempts : ℕ
redis_attempts = 3

abbrev pub stages : List Bytes
stages =
    codes "ensure_group"
    ∷ codes "pending_read"
    ∷ codes "reclaim"
    ∷ codes "new_message_read"
    ∷ codes "ack"
    ∷ []

-- The failure on record, after `elapsed` milliseconds.
unfoldable pub record_redis_failure : Bytes → ℕ → Bytes → ℕ → Telemetry → Telemetry
record_redis_failure stage elapsed error_class attempts t = record t {
  last_failure = some (record {
    stage = stage;
    elapsed_ms = min 86_400_000 elapsed;
    error_class = error_class;
    attempts = attempts;
  });
}

-- The record if it may be shown.
abbrev checked_record : FailureRecord → Option FailureRecord
checked_record r =
    if not (any (bytes_eq r.stage) stages)
      || (not (leb r.elapsed_ms 86_400_000)
          || (not (leb 1 r.attempts && leb r.attempts redis_attempts)
              || not (is_class_name r.error_class)))
    then none
    else some r

unfoldable pub sanitized_redis_failure : Option FailureRecord → Option FailureRecord
sanitized_redis_failure none = none
sanitized_redis_failure (some r) = checked_record r

-- What the operation did, within its time: a time limit that ends it is a driver error here.
pub data Reply (A : Type 0) : Type 0 where
  answered : A → Reply A
  failing : DriverError → Reply A

-- What one attempt meets: the stop event before it, the reply, the milliseconds since the call
-- began, and the stop event in the pause behind it.
pub record Moment (A : Type 0) : Type 0 where
  pub stopped : Bool
  pub reply : Reply A
  pub elapsed : ℕ
  pub stopped_in_pause : Bool

-- How the call ends; `exhausted` with the record that its error carries.
pub data Ending (A : Type 0) : Type 0 where
  returned : A → Ending A
  raised : DriverError → Ending A
  cancelled : Ending A
  exhausted : Option FailureRecord → Ending A
  unreachable : Ending A

-- The telemetry once the attempt has its result.
abbrev pub settled : ℕ → Telemetry → Telemetry
settled attempt t = record t {
  last_failure = none;
  recoveries = if attempt == 0 then t.recoveries else t.recoveries + 1;
}

-- The telemetry after a connectivity failure.
abbrev pub counted_failure : Bytes → ℕ → DriverError → ℕ → Telemetry → Telemetry
counted_failure stage elapsed error attempt t =
    record_redis_failure stage elapsed (redis_error_class error) (attempt + 1)
      (record t { transport_failures = t.transport_failures + 1 })

-- What follows a connectivity failure, with the attempts after it.
abbrev pub after_failure :
    {A : Type 0}
    → Bool
    → Bool
    → Telemetry
    → (Telemetry → Telemetry × Ending A)
    → Telemetry × Ending A
after_failure true stopped t later = (t, exhausted (sanitized_redis_failure t.last_failure))
after_failure false true t later = (t, cancelled)
after_failure false false t later = later t

-- One attempt, with the attempts after it.
abbrev pub replied :
    {A : Type 0}
    → Bytes
    → ℕ
    → Moment A
    → Reply A
    → Telemetry
    → (Telemetry → Telemetry × Ending A)
    → Telemetry × Ending A
replied stage attempt now (answered a) t later = (settled attempt t, returned a)
replied stage attempt now (failing e) t later =
    if redis_transport_failure e
    then after_failure (attempt + 1 == redis_attempts) now.stopped_in_pause
        (counted_failure stage now.elapsed e attempt t) later
    else (t, raised e)

-- The loop, with the attempts that its range still has.
unfoldable pub attempts_from :
    {A : Type 0} (left attempt : ℕ) → (ℕ → Moment A) → Bytes → Telemetry → Telemetry × Ending A
attempts_from zero attempt moments stage t = (t, unreachable)
attempts_from (suc left) attempt moments stage t =
    if (moments attempt).stopped
    then (t, cancelled)
    else replied stage attempt (moments attempt) (moments attempt).reply t
        (λ t'. attempts_from left (attempt + 1) moments stage t')

unfoldable pub runtime_redis_call :
    {A : Type 0} → (ℕ → Moment A) → Bytes → Telemetry → Telemetry × Ending A
runtime_redis_call moments stage t = attempts_from redis_attempts 0 moments stage t
