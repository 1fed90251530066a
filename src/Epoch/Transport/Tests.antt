-- ===== src/Epoch/Transport/Tests.antt =====
-- Concrete runs of the subscription loop of scripts/runtime_epoch_worker.py.
use kairos_deploy.Base.{ℕ, ◌≡◌, refl, Option, none, some, List, [], ◌∷◌, true, false, map}
use kairos_deploy.Base.Bytes.{Bytes, codes, bytes_eq}
use kairos_deploy.Epoch.Redis.{
  DriverError, Reply, answered, failing, redis_transport_failure, redis_error_class, is_class_name,
  record_redis_failure,
}
use kairos_deploy.Epoch.Transport.{
  Row, new_message_read, Loop, Round, drained, fetched, broken, broken_by, emit, payload_of,
  data_field, pending_reply, replay_rows, new_reply, new_round, reading_round, continue, round,
  rounds, subscribed,
}
use kairos_deploy.Epoch.Transport.Drain.{IsDisciplined, rounds-IsDisciplined}

abbrev loads : Bytes → Option Bytes
loads text = some text

abbrev before : Loop
before = subscribed (record { transport_failures = 0; recoveries = 0; last_failure = none }) 0

abbrev connection_lost : DriverError
connection_lost = record {
  class_name = codes "ConnectionError";
  is_authentication = false;
  is_connection_or_timeout = true;
}

-- A round whose clock stands, with its replies.
abbrev at : ℕ → Reply (List Row) → Reply (List Row) → Round
at now pending new = record {
  stopped = false;
  stage_at = now;
  budget_at = now;
  reclaim_at = now;
  new_budget_at = now;
  started_at = now;
  recorded_at = now;
  pending = pending;
  reclaimed = answered [];
  new = new;
  stopped_in_pause = false;
}

-- The read of new messages fails, what is pending is read, and then new messages are.
abbrev outage : List Round
outage =
    at 1_000 (answered []) (failing connection_lost)
    ∷ at 2_000 (answered []) (answered [])
    ∷ at 3_000 (answered []) (answered ((codes "1-0", (codes "data", codes "{}") ∷ []) ∷ []))
    ∷ []

outage-events :
    (rounds loads outage before).events ≡ broken new_message_read ∷ drained ∷ fetched ∷ []
unfolding rounds continue round reading_round new_round new_reply broken_by redis_transport_failure
    redis_error_class is_class_name record_redis_failure pending_reply replay_rows emit payload_of
    data_field bytes_eq
outage-events = refl

outage-emitted : map (λ e. e.payload) (rounds loads outage before).emitted ≡ codes "{}" ∷ []
unfolding rounds continue round reading_round new_round new_reply broken_by redis_transport_failure
    redis_error_class is_class_name record_redis_failure pending_reply replay_rows emit payload_of
    data_field bytes_eq
outage-emitted = refl

rounds-IsDisciplined_example : IsDisciplined false (rounds loads outage before)
rounds-IsDisciplined_example = rounds-IsDisciplined loads outage before
