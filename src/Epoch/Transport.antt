-- ===== src/Epoch/Transport.antt =====
-- `EpochRedisTransport` of scripts/runtime_epoch_worker.py: the subscription loop, which replays what
-- is pending for its consumer after an outage, before it reads on. Times are milliseconds of the
-- monotonic clock. `json.loads` of a payload and the replies of Redis are parameters.
pub mod Drain
mod Emitted
pub mod History
pub mod Budget
pub mod Deadline
mod Tests
use kairos_deploy.Base.{
  ℕ, zero, suc, ◌+◌, ◌-◌, ◌≤◌, ◌≡◌, Option, none, some, List, [], ◌∷◌, ◌++◌, Bool, true, false, not,
  ◌&&◌, ◌||◌, Result, ok, err, length, ltb, leb, ◌==◌, if◌then◌else◌,
}
use kairos_deploy.Base.Bytes.{Bytes, codes, bytes_eq}
use kairos_deploy.Base.Dict.{Dict}
use kairos_deploy.Epoch.Redis.{
  DriverError, redis_transport_failure, redis_error_class, FailureRecord, Telemetry, redis_attempts,
  record_redis_failure, sanitized_redis_failure, Reply, answered, failing,
}

abbrev pub command_ms : ℕ
command_ms = 6_000

abbrev pub recovery_ms : ℕ
recovery_ms = 22_000

abbrev pub reclaim_every_ms : ℕ
reclaim_every_ms = 30_000

-- A stream's entry: its id and fields.
abbrev pub Row : Type 0
Row = Bytes × Dict Bytes

pub record Envelope (P : Type 0) : Type 0 where
  pub id : Bytes
  pub payload : P
  pub attempt : Option ℕ
  pub reclaimed : Bool

pub data Stage : Type 0 where
  pending_read reclaim new_message_read : Stage

abbrev pub stage_name : Stage → Bytes
stage_name pending_read = codes "pending_read"
stage_name reclaim = codes "reclaim"
stage_name new_message_read = codes "new_message_read"

-- How the loop ends: by the stop event, before a pause or in it, or by what it raises.
pub data End : Type 0 where
  finished cancelled : End
  recovery_deadline_exceeded retry_exhausted : Option FailureRecord → End
  driver : DriverError → End
  pending_payload_missing stream_payload_missing undecodable_payload : End

-- The local variables of `subscribe`, and the telemetry.
pub record Loop : Type 0 where
  pub last_reclaim : ℕ
  pub replay_pending : Bool
  pub failures : ℕ
  pub recovery_deadline : Option ℕ
  pub recovery_started_at : Option ℕ
  pub recovery_pending : Bool
  pub telemetry : Telemetry
  pub pending_replays : ℕ

-- What one round meets: the stop event, the clock at each place that reads it, the replies of Redis
-- to the reads that the round may make, and the stop event in a pause behind a failure.
pub record Round : Type 0 where
  pub stopped : Bool
  pub stage_at : ℕ
  pub budget_at : ℕ
  pub reclaim_at : ℕ
  pub new_budget_at : ℕ
  pub started_at : ℕ
  pub recorded_at : ℕ
  pub pending : Reply (List Row)
  pub reclaimed : Reply (List (Row × ℕ))
  pub new : Reply (List Row)
  pub stopped_in_pause : Bool

-- A command that Redis answered, or a connectivity failure of one.
pub data Event : Type 0 where
  drained replayed claimed fetched : Event
  broken : Stage → Event

-- What a round leaves: the variables, the events in their order, the envelopes, and an end.
pub record Outcome (P : Type 0) : Type 0 where
  pub loop : Loop
  pub events : List Event
  pub emitted : List (Envelope P)
  pub ending : Option End

-- The payload of a row whose only field is `data`.
unfoldable pub data_field : Dict Bytes → Option Bytes
data_field (field ∷ []) = if bytes_eq field.0 (codes "data") then some field.1 else none
data_field _ = none

abbrev pub since : Option ℕ → Round → ℕ
since none r = r.recorded_at - r.started_at
since (some start) r = r.recorded_at - start

-- `remaining <= 0` for a deadline.
abbrev pub is_over : Option ℕ → ℕ → Bool
is_over none now = false
is_over (some deadline) now = leb deadline now

abbrev pub class_of : Option FailureRecord → Bytes
class_of none = codes "RecoveryDeadlineExceeded"
class_of (some last) = last.error_class

-- The stage that a round begins with.
unfoldable pub stage_of : Loop → Round → Stage
stage_of s r =
    if s.replay_pending
    then pending_read
    else if leb reclaim_every_ms (r.stage_at - s.last_reclaim)
    then reclaim
    else new_message_read

-- The variables once the failure is counted.
abbrev pub counted : Loop → Loop
counted s = record s {
  failures = s.failures + 1;
  telemetry = record s.telemetry { transport_failures = s.telemetry.transport_failures + 1 };
}

-- A recovery starts at the first failure, where there is no deadline yet.
abbrev pub recovering : Option ℕ → Round → Loop → Loop
recovering (some deadline) r s = s
recovering none r s = record s {
  recovery_started_at = some r.started_at;
  recovery_deadline = some (r.started_at + recovery_ms - command_ms);
}

abbrev pub recorded : Stage → DriverError → Round → Loop → Loop
recorded stage e r s = record s {
  telemetry =
      record_redis_failure (stage_name stage) (since s.recovery_started_at r) (redis_error_class e)
        s.failures s.telemetry;
}

module _ {P : Type 0} where
  -- The error for a recovery that took too long.
  unfoldable pub exceeded : Stage → Loop → Round → Outcome P
  exceeded stage s r =
      let t =
        record_redis_failure (stage_name stage) (since s.recovery_started_at r)
          (class_of (sanitized_redis_failure s.telemetry.last_failure)) s.failures s.telemetry in
      record {
        loop = record s { telemetry = t };
        events = [];
        emitted = [];
        ending = some (recovery_deadline_exceeded (sanitized_redis_failure t.last_failure));
      }

  -- `except Exception as error`.
  unfoldable pub broken_by : Stage → DriverError → Round → Loop → Outcome P
  broken_by stage e r s =
      if not (redis_transport_failure e)
      then record { loop = s; events = []; emitted = []; ending = some (driver e) }
      else if leb redis_attempts (s.failures + 1)
      then (let s' = recorded stage e r (counted s) in
          record {
            loop = s';
            events = broken stage ∷ [];
            emitted = [];
            ending = some (retry_exhausted (sanitized_redis_failure s'.telemetry.last_failure));
          })
      else record {
        loop = record (recorded stage e r (recovering s.recovery_deadline r (counted s))) {
          replay_pending = true;
        };
        events = broken stage ∷ [];
        emitted = [];
        ending = if r.stopped_in_pause then some cancelled else none;
      }

  -- The payload of a row's fields, or why it is refused.
  abbrev pub decoded : (Bytes → Option P) → Bytes → Result End P
  decoded loads text = elim (loads text) [
    | none ↦ err undecodable_payload
    | some payload ↦ ok payload
  ]

  unfoldable pub payload_of : (Bytes → Option P) → End → Dict Bytes → Result End P
  payload_of loads missing fields = elim (data_field fields) [
    | none ↦ err missing
    | some text ↦ decoded loads text
  ]

  -- One envelope more, if there is a payload.
  abbrev pub with_row :
      Option ℕ
      → Bool
      → Bytes
      → Result End P
      → List (Envelope P) × Option End
      → List (Envelope P) × Option End
  with_row attempt was_claimed id (err bad) rest = ([], some bad)
  with_row attempt was_claimed id (ok payload) rest = (
    record { id = id; payload = payload; attempt = attempt; reclaimed = was_claimed } ∷ rest.0,
    rest.1,
  )

  -- The envelopes of rows, up to one that is refused.
  unfoldable pub emit :
      (Bytes → Option P) → End → Option ℕ → Bool → List Row → List (Envelope P) × Option End
  emit loads missing attempt was_claimed [] = ([], none)
  emit loads missing attempt was_claimed (row ∷ rows) =
      with_row attempt was_claimed row.0 (payload_of loads missing row.1)
        (emit loads missing attempt was_claimed rows)

  -- The envelopes of one row and of those behind it.
  abbrev pub joined :
      List (Envelope P) × Option End
      → List (Envelope P) × Option End
      → List (Envelope P) × Option End
  joined (emitted, some bad) rest = (emitted, some bad)
  joined (emitted, none) rest = (emitted ++ rest.0, rest.1)

  -- The same for rows with an attempt each.
  unfoldable pub emit_claimed : (Bytes → Option P) → List (Row × ℕ) → List (Envelope P) × Option End
  emit_claimed loads [] = ([], none)
  emit_claimed loads (claim ∷ claims) =
      joined (emit loads pending_payload_missing (some claim.1) true (claim.0 ∷ []))
        (emit_claimed loads claims)

-- A successful read ends the outage.
abbrev pub restored : Loop → Loop
restored s = record s {
  failures = 0;
  recovery_deadline = none;
  recovery_started_at = none;
  telemetry = record s.telemetry { last_failure = none };
}

-- The rows that were counted as replays: all but one without a payload.
abbrev pub replays : {P : Type 0} → List (Envelope P) × Option End → ℕ
replays (envelopes, some undecodable_payload) = length envelopes + 1
replays (envelopes, _) = length envelopes

module _ {P : Type 0} (loads : Bytes → Option P) where
  abbrev pub behind : List Event → List (Envelope P) → Outcome P → Outcome P
  behind events emitted out = record out {
    events = events ++ out.events;
    emitted = emitted ++ out.emitted;
  }

  -- The rows of a read of what is pending.
  unfoldable pub replay_rows : List Row → Loop → Outcome P
  replay_rows [] s = record {
    loop = record s { replay_pending = false };
    events = drained ∷ [];
    emitted = [];
    ending = none;
  }
  replay_rows (row ∷ rows) s =
      let out = emit loads pending_payload_missing (some 2) true (row ∷ rows) in
      record {
        loop = record s { pending_replays = s.pending_replays + replays out };
        events = replayed ∷ [];
        emitted = out.0;
        ending = out.1;
      }

  unfoldable pub pending_reply : Round → Reply (List Row) → Loop → Outcome P
  pending_reply r (failing e) s = broken_by pending_read e r s
  pending_reply r (answered rows) s =
      replay_rows rows (record (restored s) { recovery_pending = true })

  -- The variables behind a read of new messages.
  abbrev pub fetched_by : Loop → Loop
  fetched_by s = record (restored s) {
    recovery_pending = false;
    telemetry = record s.telemetry {
      last_failure = none;
      recoveries =
          if s.recovery_pending then s.telemetry.recoveries + 1 else s.telemetry.recoveries;
    };
  }

  unfoldable pub new_reply : Round → Reply (List Row) → Loop → Outcome P
  new_reply r (failing e) s = broken_by new_message_read e r s
  new_reply r (answered rows) s =
      let out = emit loads stream_payload_missing none false rows in
      record { loop = fetched_by s; events = fetched ∷ []; emitted = out.0; ending = out.1 }

  unfoldable pub new_round : Round → Loop → Outcome P
  new_round r s =
      if is_over s.recovery_deadline r.new_budget_at
      then exceeded new_message_read s r
      else new_reply r r.new s

  -- What follows the envelopes of the stale messages that were claimed.
  unfoldable pub behind_claimed : Round → List (Envelope P) × Option End → Loop → Outcome P
  behind_claimed r (emitted, some bad) s = record {
    loop = s;
    events = claimed ∷ [];
    emitted = emitted;
    ending = some bad;
  }
  behind_claimed r (emitted, none) s = behind (claimed ∷ []) emitted (new_round r s)

  unfoldable pub claimed_reply : Round → Reply (List (Row × ℕ)) → Loop → Outcome P
  claimed_reply r (failing e) s = broken_by reclaim e r s
  claimed_reply r (answered claims) s =
      behind_claimed r (emit_claimed loads claims) (record s { last_reclaim = r.reclaim_at })

  unfoldable pub reading_round : Round → Loop → Outcome P
  reading_round r s =
      if leb reclaim_every_ms (r.reclaim_at - s.last_reclaim)
      then claimed_reply r r.reclaimed s
      else new_round r s

  -- The body of `while not stop.is_set()`.
  unfoldable pub round : Round → Loop → Outcome P
  round r s =
      if r.stopped
      then record { loop = s; events = []; emitted = []; ending = some finished }
      else if is_over s.recovery_deadline r.budget_at
      then exceeded (stage_of s r) s r
      else if s.replay_pending
      then pending_reply r r.pending s
      else reading_round r s

  -- What follows a round, unless it was the last.
  unfoldable pub continue : (Loop → Outcome P) → Outcome P → Option End → Outcome P
  continue next out (some e) = out
  continue next out none = behind out.events out.emitted (next out.loop)

  -- The loop, for as many rounds as are given or until it ends.
  unfoldable pub rounds : List Round → Loop → Outcome P
  rounds [] s = record { loop = s; events = []; emitted = []; ending = none }
  rounds (r ∷ rs) s = continue (λ s'. rounds rs s') (round r s) (round r s).ending

-- The variables that `subscribe` starts its loop with.
abbrev pub subscribed : Telemetry → ℕ → Loop
subscribed telemetry pending_replays = record {
  last_reclaim = 0;
  replay_pending = false;
  failures = 0;
  recovery_deadline = none;
  recovery_started_at = none;
  recovery_pending = false;
  telemetry = telemetry;
  pending_replays = pending_replays;
}
