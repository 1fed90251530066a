-- ===== src/Epoch/Tests.antt =====
-- Concrete runs of scripts/runtime_epoch_worker.py's models.
use kairos_deploy.Base.{
  ℕ, ◌<◌, arith, ap, inl, inr, Bool-cases, zero, suc, ◌+◌, ◌≤◌, ◌≡◌, ◌≢◌, ◌↔◌, refl, true, false,
  none, some, List, [], ◌∷◌, ◌++◌, ok, err, all, length,
}
use kairos_deploy.Base.Bytes.{Bytes, codes, bytes_eq, bytes_eq_sound, split_dash}
use kairos_deploy.Base.Dict.{Dict, lookup, insert}
use kairos_deploy.Epoch.Errors.{epoch_interval_exceeds_fixed_cap}
use kairos_deploy.Epoch.Failures.{
  Reason, Failure, fetch_timeout, source, group, nil, cons, source_wait_reason, surfaced,
}
use kairos_deploy.Epoch.Failures.Deferral.{has_reason, every, surfaced-deferral}
use kairos_deploy.Epoch.Catchup.{
  minute, max_pending, Watermarks, covers_symbols, has_symbol, bars_until, required_bars, latest_of,
  bounded_runtime_end,
}
use kairos_deploy.Epoch.Catchup.Bounds.{
  bounded_runtime_end_bounds, bounded_runtime_end_progress, bounded_runtime_end-ne-cap,
}
use kairos_deploy.Epoch.Circuit.{
  Circuit, failed, succeeded, delay, Outcome, round_failed, round_succeeded, rounds,
}
use kairos_deploy.Epoch.Circuit.Tally.{IsTally, pause, rounds-IsTally, rounds-delay}
use kairos_deploy.Epoch.Redis.{
  DriverError, Telemetry, FailureRecord, redis_transport_failure, redis_error_class, is_class_name,
  record_redis_failure, sanitized_redis_failure, redis_attempts, Moment, Reply, answered, failing,
  returned, exhausted, unreachable, attempts_from, runtime_redis_call,
}
use kairos_deploy.Epoch.Redis.Retries.{
  IsAnswer, IsExhausted, runtime_redis_call-IsAnswer, runtime_redis_call-IsExhausted,
  runtime_redis_call-ne-unreachable,
}
use kairos_deploy.Epoch.Outbox.{Redis, publish, reply_prior, holds_payload, is_receipt}
use kairos_deploy.Epoch.Outbox.Flush.{
  Row, Host, Services, Fault, no_fault, reply_lost, pending, check_row, flush_row, flush_rows,
  flush,
}
use kairos_deploy.Epoch.Outbox.Receipts.{Receipted, flush-Receipted}
use kairos_deploy.Epoch.Outbox.Published.{is_done, flush-is_done}
use kairos_deploy.Epoch.Outbox.Ledger.{IsExactlyOnce, flushes, flushes-IsExactlyOnce, flushes_kept}

-- A group with one timeout in another group.
abbrev timeouts : Failure
timeouts = group (source fetch_timeout) (cons (group (source fetch_timeout) nil) nil)

surfaced-deferral_example :
    (f : Failure) × (surfaced timeouts ≡ some f)
    × ((r : Reason) → (source_wait_reason f ≡ some r) ↔ (every (has_reason r) timeouts ≡ true))
surfaced-deferral_example = surfaced-deferral timeouts

-- All symbols at minute 10, and the target an hour on.
abbrev bar : ℕ → Bytes → Bytes × ℕ
bar n symbol = (symbol, n)

abbrev at_minute_ten : Watermarks
at_minute_ten =
    bar 599_999 (codes "BTCUSDT")
    ∷ bar 599_999 (codes "ETHUSDT")
    ∷ bar 599_999 (codes "SOLUSDT")
    ∷ bar 599_999 (codes "BNBUSDT")
    ∷ bar 599_999 (codes "XRPUSDT")
    ∷ []

-- The round stops twenty minutes on.
twenty_minutes : bounded_runtime_end at_minute_ten 4_200_000 ≡ ok 1_800_000
unfolding bounded_runtime_end required_bars covers_symbols has_symbol lookup bytes_eq
twenty_minutes = refl

bounded_runtime_end_bounds_example :
    (latest_of at_minute_ten ≤ 1_800_000)
    × (1_800_000 ≤ 4_200_000)
    × (required_bars at_minute_ten 1_800_000 ≡ ok (bars_until 1_800_000 at_minute_ten))
    × (bars_until 1_800_000 at_minute_ten ≤ max_pending)
bounded_runtime_end_bounds_example =
    bounded_runtime_end_bounds at_minute_ten 4_200_000 twenty_minutes

bounded_runtime_end_progress_example : latest_of at_minute_ten + minute ≤ 1_800_000
bounded_runtime_end_progress_example =
    bounded_runtime_end_progress at_minute_ten 4_200_000 twenty_minutes (omega arith) (omega arith)

bounded_runtime_end-ne-cap_example :
    bounded_runtime_end at_minute_ten 4_200_000 ≢ err epoch_interval_exceeds_fixed_cap
bounded_runtime_end-ne-cap_example = bounded_runtime_end-ne-cap at_minute_ten 4_200_000

-- Two timeouts, a success, and one timeout more.
abbrev history : List Outcome
history =
    round_failed (source fetch_timeout)
    ∷ round_succeeded
    ∷ round_failed timeouts
    ∷ round_failed timeouts
    ∷ []

abbrev final : Circuit
final = record {
  timeouts = 3;
  dns_failures = 0;
  recoveries = 1;
  consecutive = 1;
  consecutive_timeouts = 1;
  consecutive_dns_failures = 0;
}

history-final : rounds history ≡ ok final
unfolding rounds failed succeeded source_wait_reason
history-final = refl

rounds-IsTally_example : IsTally history final
rounds-IsTally_example = rounds-IsTally history history-final

rounds-delay_example : delay final ≡ pause 1
rounds-delay_example = rounds-delay history history-final

abbrev reset : DriverError
reset = record {
  class_name = codes "ConnectionError";
  is_authentication = false;
  is_connection_or_timeout = true;
}

abbrev quiet : Telemetry
quiet = record { transport_failures = 0; recoveries = 0; last_failure = none }

abbrev moment : Reply ℕ → Moment ℕ
moment reply = record { stopped = false; reply = reply; elapsed = 7; stopped_in_pause = false }

-- A connection that is reset twice before the answer.
abbrev moments : ℕ → Moment ℕ
moments zero = moment (failing reset)
moments (suc zero) = moment (failing reset)
moments (suc (suc n)) = moment (answered 5)

abbrev recovered : Telemetry
recovered = record { transport_failures = 2; recoveries = 1; last_failure = none }

answers : runtime_redis_call moments (codes "ack") quiet ≡ (recovered, returned 5)
unfolding runtime_redis_call attempts_from redis_transport_failure record_redis_failure
answers = refl

runtime_redis_call-IsAnswer_example :
    IsAnswer moments (codes "ack") redis_attempts 0 quiet recovered 5
runtime_redis_call-IsAnswer_example =
    runtime_redis_call-IsAnswer moments (codes "ack") quiet answers

abbrev resets : ℕ → Moment ℕ
resets n = moment (failing reset)

abbrev third : FailureRecord
third = record {
  stage = codes "ack";
  elapsed_ms = 7;
  error_class = codes "ConnectionError";
  attempts = 3;
}

abbrev broken : Telemetry
broken = record { transport_failures = 3; recoveries = 0; last_failure = some third }

gives_up : runtime_redis_call resets (codes "ack") quiet ≡ (broken, exhausted (some third))
unfolding runtime_redis_call attempts_from redis_transport_failure record_redis_failure
    redis_error_class is_class_name sanitized_redis_failure bytes_eq
gives_up = refl

runtime_redis_call-IsExhausted_example :
    IsExhausted resets (codes "ack") 0 quiet broken (some third)
unfolding bytes_eq
runtime_redis_call-IsExhausted_example =
    runtime_redis_call-IsExhausted resets (codes "ack") quiet refl gives_up

runtime_redis_call-ne-unreachable_example :
    runtime_redis_call moments (codes "ack") quiet ≢ (recovered, unreachable)
runtime_redis_call-ne-unreachable_example =
    runtime_redis_call-ne-unreachable moments (codes "ack") quiet

-- An id longer than all ids of the stream together.
abbrev total : Dict (Dict Bytes) → ℕ
total [] = 1
total (e ∷ stream) = length e.0 + total stream

abbrev ones : ℕ → Bytes
ones zero = []
ones (suc n) = 49 ∷ ones n

abbrev longer : Dict (Dict Bytes) → Bytes
longer stream = codes "1-" ++ ones (total stream)

length-ones : (n : ℕ) → length (ones n) ≡ n
length-ones zero = refl
length-ones (suc n) = omega (arith, length-ones n)

lookup_long :
    (k : Bytes) (stream : Dict (Dict Bytes)) → total stream < length k → lookup k stream ≡ none
unfolding lookup
lookup_long k [] h = refl
lookup_long k (e ∷ stream) h = elim (Bool-cases (bytes_eq e.0 k)) [
  | inl same ↦
      let lengths : length e.0 ≡ length k = ap length (bytes_eq_sound e.0 k same) in
      absurd (omega (arith, lengths, h))
  | inr other ↦ rw other (lookup_long k stream (omega (arith, h)))
]

lookup-longer : (stream : Dict (Dict Bytes)) → lookup (longer stream) stream ≡ none
lookup-longer stream =
    lookup_long (longer stream) stream (omega (arith, length-ones (total stream)))

abbrev one_row : Row ℕ
one_row = record {
  id = 1;
  message_id = codes "m1";
  topic_name = codes "kairos.market.closed_bar.v1";
  payload = 3;
  payload_sha256 = codes "d";
  producer = codes "kairos-quant-scouts";
  reconciliation_state = codes "NONE";
  dead_lettered = false;
  is_published = false;
  publish_attempts = 0;
}

abbrev no_redis : Redis
no_redis = record { stream = []; publications = [] }

abbrev host : Host ℕ
host = record { rows = one_row ∷ []; redis = no_redis; lock_held = false }

abbrev services : Services ℕ
services = record {
  encoded = λ n. codes "{}";
  digest = λ n. codes "d";
  message_id_of = λ n. some (codes "m1");
  next_id = longer;
}

abbrev all_well : ℕ → Fault
all_well n = no_fault

abbrev first_reply_lost : ℕ → Fault
first_reply_lost n = reply_lost

abbrev published_host : Host ℕ
published_host = record {
  rows = (record one_row { is_published = true; publish_attempts = 1 }) ∷ [];
  redis = record {
    stream = (codes "1-1", (codes "data", codes "{}") ∷ []) ∷ [];
    publications = (codes "m1", (codes "d", codes "1-1")) ∷ [];
  };
  lock_held = false;
}

one_published : flush services all_well host ≡ (ok 1, published_host)
unfolding flush flush_rows flush_row check_row publish is_receipt split_dash lookup insert bytes_eq
one_published = refl

-- A reply that is lost, and a run after it, which adds no second entry.
republished : flushes services (first_reply_lost ∷ all_well ∷ []) host ≡ published_host
unfolding flush flush_rows flush_row check_row publish reply_prior holds_payload is_receipt
    split_dash lookup insert bytes_eq
republished = refl

flush-is_done_example :
    (all is_done published_host.rows ≡ true)
    × (1 ≡ length (pending host.rows))
    × (published_host.lock_held ≡ false)
flush-is_done_example = flush-is_done services all_well host one_published

flush-Receipted_example : Receipted services (pending host.rows) published_host.redis
flush-Receipted_example = flush-Receipted services all_well host one_published

no_redis-IsExactlyOnce : IsExactlyOnce no_redis
unfolding lookup
no_redis-IsExactlyOnce = record {
  one_each = refl;
  held = λ m d i h. absurd cc;
  apart = λ m m' d d' i h h'. absurd cc;
}

flushes-IsExactlyOnce_example :
    IsExactlyOnce (flushes services (first_reply_lost ∷ all_well ∷ []) host).redis
flushes-IsExactlyOnce_example =
    flushes-IsExactlyOnce services lookup-longer (first_reply_lost ∷ all_well ∷ []) host
      no_redis-IsExactlyOnce

flushes_kept_example :
    lookup (codes "m1") (flushes services (all_well ∷ []) published_host).redis.publications
    ≡ some (codes "d", codes "1-1")
unfolding lookup bytes_eq
flushes_kept_example =
    flushes_kept services (all_well ∷ []) published_host (codes "m1") (codes "d", codes "1-1") refl
