-- ===== src/Soak/Loop.antt =====
-- `run_soak` of scripts/soak_reconnect.py: its local variables, its loop and its summary.
use kairos_deploy.Base.{
  ℕ, ◌+◌, Bool, true, false, not, ◌&&◌, ◌||◌, Option, none, some, List, [], ◌∷◌, ◌++◌, Result, ok,
  err, ◌>>=◌, ◌>>◌, raise_if, ◌==◌, if◌then◌else◌, all,
}
use kairos_deploy.Base.Bytes.{Bytes, codes}
use kairos_deploy.Base.Sets.{contains, add, bytes_eq_instance}
use kairos_deploy.Base.Sorting.{sorted}
use kairos_deploy.Base.Dict.{Dict}
use kairos_deploy.Soak.Health.{Floats, health_errors}

pub data SoakError : Type 0 where
  minimum_availability_invalid restart_command_required restart_failed unfinished : SoakError

-- The local variables of `run_soak`.
pub record Soak : Type 0 where
  pub samples : ℕ
  pub healthy : ℕ
  pub transport_errors : ℕ
  pub restarted : Bool
  pub recovered : Bool
  pub durable_failures : List Bytes
  pub last_errors : List Bytes

abbrev pub initial : Soak
initial = record {
  samples = 0;
  healthy = 0;
  transport_errors = 0;
  restarted = false;
  recovered = false;
  durable_failures = [];
  last_errors = codes "no_samples" ∷ [];
}

abbrev pub irreversible : List Bytes
irreversible =
    codes "nonzero:kairos_outbox_dead_lettered_total"
    ∷ codes "nonzero:kairos_inbox_failed"
    ∷ codes "nonzero:kairos_execution_effects_failed"
    ∷ codes "nonzero:kairos_closed_bar_gaps_24h"
    ∷ codes "nonzero:kairos_paper_unprotected_trades"
    ∷ codes "venue_poll_fact_counts_inconsistent"
    ∷ codes "api_qualification_budget_exceeded"
    ∷ codes "evedex_mutation_budget_unsafe"
    ∷ []

abbrev window_readiness : List Bytes
window_readiness =
    codes "venue_measurements_missing"
    ∷ codes "closed_bar_symbol_coverage_incomplete"
    ∷ codes "closed_bar_coverage_below_0.999"
    ∷ codes "venue_availability_below_0.99"
    ∷ codes "venue_poll_schedule_incomplete"
    ∷ []

abbrev starts_with : Bytes → Bytes → Bool
starts_with [] value = true
starts_with (c ∷ cs) [] = false
starts_with (c ∷ cs) (d ∷ ds) = c == d && starts_with cs ds

unfoldable pub is_window_readiness_error : Bytes → Bool
is_window_readiness_error error =
    contains error window_readiness || starts_with (codes "threshold:") error

-- Whether `_sample_availability_errors` leaves none.
unfoldable pub is_available : Bool → List Bytes → Bool
is_available true errors = all is_window_readiness_error errors
is_available false [] = true
is_available false (error ∷ errors) = false

unfoldable pub is_irreversible : Bytes → Bool
is_irreversible error = contains error irreversible

-- `durable_failures.update(...)` with the irreversible ones.
abbrev pub keep_durable : List Bytes → List Bytes → List Bytes
keep_durable [] durable = durable
keep_durable (error ∷ errors) durable =
    let rest = keep_durable errors durable in if is_irreversible error then add error rest else rest

-- A sample with its errors, if the metrics came.
unfoldable pub sampled : Bool → Option (List Bytes) → Soak → Soak
sampled paper none s = record s {
  transport_errors = s.transport_errors + 1;
  last_errors = codes "metrics_unavailable" ∷ [];
}
sampled paper (some errors) s = record s {
  samples = s.samples + 1;
  healthy = if is_available paper errors then s.healthy + 1 else s.healthy;
  recovered = if is_available paper errors && s.restarted then true else s.recovered;
  durable_failures = keep_durable errors s.durable_failures;
  last_errors = errors;
}

-- What one pass of the loop meets: time left, a restart that is due and whether its command
-- succeeds, and the metrics, if they came.
pub record Pass (F : Type 0) : Type 0 where
  pub time_left : Bool
  pub restart_due : Bool
  pub restart_succeeds : Bool
  pub metrics : Option (Dict F)

module _ {F : Type 0} where
  unfoldable pub restarted_if_due : Bool → Pass F → Soak → Result SoakError Soak
  restarted_if_due command pass s =
      if pass.restart_due && not s.restarted
      then (do
        raise_if (not command) restart_command_required
        raise_if (not pass.restart_succeeds) restart_failed
        ok (record s { restarted = true }))
      else ok s

  -- The errors of the metrics, if they came.
  abbrev pub errors_of : Floats F → Bool → Option (Dict F) → Option (List Bytes)
  errors_of floats paper none = none
  errors_of floats paper (some metrics) = some (health_errors floats metrics paper)

  -- The loop on the passes that the clock allows; `unfinished` if it asks for more of them.
  unfoldable pub run : Floats F → Bool → Bool → List (Pass F) → Soak → Result SoakError Soak
  run floats paper command [] s = err unfinished
  run floats paper command (pass ∷ passes) s =
      if pass.time_left || s.samples == 0
      then (restarted_if_due command pass s >>= λ s'.
          run floats paper command passes (sampled paper (errors_of floats paper pass.metrics) s'))
      else ok s

  -- `measured_availability`
  unfoldable pub availability : Floats F → Soak → F
  availability floats s =
      if s.samples + s.transport_errors == 0
      then floats.of 0
      else floats.ratio s.healthy (s.samples + s.transport_errors)

  -- The failures that last, with one for the availability; `text` is the formatted minimum.
  unfoldable pub durable_at_end : Floats F → F → Bytes → Soak → List Bytes
  durable_at_end floats minimum text s =
      if floats.less (availability floats s) minimum
      then add (codes "availability_below_" ++ text) s.durable_failures
      else s.durable_failures

-- `durable_failures | set(last_errors)`
abbrev pub union : List Bytes → List Bytes → List Bytes
union durable [] = durable
union durable (error ∷ errors) = add error (union durable errors)

-- What the command line decides from: the sorted errors, and the recovery.
pub record Summary : Type 0 where
  pub samples : ℕ
  pub healthy_samples : ℕ
  pub transport_errors : ℕ
  pub restart_executed : Bool
  pub recovered_after_restart : Bool
  pub terminal_errors : List Bytes

unfoldable pub summary : {F : Type 0} → Floats F → F → Bytes → Soak → Summary
summary floats minimum text s = record {
  samples = s.samples;
  healthy_samples = s.healthy;
  transport_errors = s.transport_errors;
  restart_executed = s.restarted;
  recovered_after_restart = if s.restarted then s.recovered else true;
  terminal_errors = sorted (union (durable_at_end floats minimum text s) s.last_errors);
}

-- `run_soak`, for one of the two transports.
unfoldable pub run_soak :
    {F : Type 0} → Floats F → F → Bytes → Bool → Bool → List (Pass F) → Result SoakError Summary
run_soak floats minimum text paper command passes = do
  raise_if
      (not (floats.less (floats.of 0) minimum)
        || not (floats.less minimum (floats.of 1) || floats.same minimum (floats.of 1)))
      minimum_availability_invalid
  s ← run floats paper command passes initial
  ok (summary floats minimum text s)
