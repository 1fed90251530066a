-- ===== src/Soak/Health.antt =====
-- `health_errors` of scripts/soak_reconnect.py: what is wrong with a sample of metrics. Python's
-- floats are a parameter.
use kairos_deploy.Base.{
  ℕ, Bool, false, not, ◌&&◌, ◌||◌, Option, none, some, List, [], ◌∷◌, ◌++◌, append_if,
  if◌then◌else◌,
}
use kairos_deploy.Base.Bytes.{Bytes, codes}
use kairos_deploy.Base.Dict.{Dict, lookup}

-- What the script asks of Python's floats: the tests, a sum, a quotient, and its literals.
pub record Floats (F : Type 0) : Type 0 where
  pub less : F → F → Bool
  pub same : F → F → Bool
  pub plus : F → F → F
  pub minus_one : F
  pub of : ℕ → F
  pub ratio : ℕ → ℕ → F

abbrev pub required_metrics : List Bytes
required_metrics =
    codes "kairos_persistence_up"
    ∷ codes "kairos_redis_up"
    ∷ codes "kairos_outbox_pending"
    ∷ codes "kairos_outbox_dead_lettered_total"
    ∷ codes "kairos_inbox_failed"
    ∷ codes "kairos_inbox_processing_oldest_age_seconds"
    ∷ codes "kairos_inbox_processing_expired"
    ∷ codes "kairos_execution_effects_prepared"
    ∷ codes "kairos_execution_effects_failed"
    ∷ codes "kairos_outbox_oldest_age_seconds"
    ∷ []

abbrev pub zero_required : List Bytes
zero_required =
    codes "kairos_outbox_dead_lettered_total"
    ∷ codes "kairos_inbox_failed"
    ∷ codes "kairos_inbox_processing_expired"
    ∷ codes "kairos_execution_effects_prepared"
    ∷ codes "kairos_execution_effects_failed"
    ∷ []

abbrev pub paper_required_metrics : List Bytes
paper_required_metrics =
    codes "kairos_closed_bar_gaps_24h"
    ∷ codes "kairos_closed_bar_symbols_24h"
    ∷ codes "kairos_closed_bar_minimum_coverage_ratio_24h"
    ∷ codes "kairos_closed_bar_latest_age_seconds"
    ∷ codes "kairos_venue_measurements_24h"
    ∷ codes "kairos_venue_availability_ratio_24h"
    ∷ codes "kairos_venue_poll_expected_24h"
    ∷ codes "kairos_venue_poll_attempted_24h"
    ∷ codes "kairos_venue_poll_succeeded_24h"
    ∷ codes "kairos_venue_poll_failed_24h"
    ∷ codes "kairos_venue_blocked_24h"
    ∷ codes "kairos_venue_p95_abs_basis_bps"
    ∷ codes "kairos_venue_p95_spread_bps"
    ∷ codes "kairos_venue_p95_slippage_bps"
    ∷ codes "kairos_venue_max_book_age_ms"
    ∷ codes "kairos_venue_max_timestamp_skew_ms"
    ∷ codes "kairos_venue_p95_latency_ms"
    ∷ codes "kairos_venue_latest_age_seconds"
    ∷ codes "kairos_paper_active_trades"
    ∷ codes "kairos_paper_unprotected_trades"
    ∷ codes "kairos_paper_recovery_blocked"
    ∷ codes "kairos_execution_p95_shortfall_bps"
    ∷ codes "kairos_paper_account_latest_age_seconds"
    ∷ codes "kairos_api_spend_month_usd"
    ∷ codes "kairos_execution_runtime_health_age_seconds"
    ∷ codes "kairos_evedex_auth_age_seconds"
    ∷ codes "kairos_evedex_auth_expires_in_seconds"
    ∷ codes "kairos_evedex_local_mutation_reserve"
    ∷ codes "kairos_evedex_local_mutation_capacity"
    ∷ codes "kairos_evedex_local_mutation_compensation_reserve"
    ∷ codes "kairos_evedex_local_mutation_window_seconds"
    ∷ codes "kairos_evedex_venue_rate_limit_observable"
    ∷ codes "kairos_evedex_venue_rate_limit_reserve"
    ∷ []

abbrev pub paper_zero_required : List Bytes
paper_zero_required =
    codes "kairos_closed_bar_gaps_24h" ∷ codes "kairos_paper_unprotected_trades" ∷ []

module _ {F : Type 0} (floats : Floats F) (metrics : Dict F) where
  -- `metrics.get(name, default)`
  unfoldable pub get : Bytes → F → F
  get name default = elim (lookup name metrics) [ none ↦ default | some value ↦ value ]

  abbrev pub is_value : Option F → F → Bool
  is_value none value = false
  is_value (some a) value = floats.same a value

  -- `missing:` for each name without a value.
  abbrev pub missing : List Bytes → List Bytes
  missing [] = []
  missing (name ∷ names) = elim (lookup name metrics) [
    | none ↦ (codes "missing:" ++ name) ∷ missing names
    | some value ↦ missing names
  ]

  -- `nonzero:` for each name with a value that is not 0.
  abbrev pub nonzero : List Bytes → List Bytes
  nonzero [] = []
  nonzero (name ∷ names) = elim (lookup name metrics) [
    | none ↦ nonzero names
    | some value ↦
        append_if (not (floats.same value (floats.of 0))) (codes "nonzero:" ++ name)
        ++ nonzero names
  ]

  -- `value > maximum` for the value of a name, 0 without one.
  abbrev pub above : Bytes → ℕ → Bool
  above name maximum = floats.less (floats.of maximum) (get name (floats.of 0))

  abbrev pub threshold : Bytes → ℕ → List Bytes
  threshold name maximum = append_if (above name maximum) (codes "threshold:" ++ name)

  abbrev at_most : F → F → Bool
  at_most a b = floats.less a b || floats.same a b

  -- `not 0 <= value <= 60` for the value of a name, -1 without one.
  abbrev pub outside_minute : Bytes → Bool
  outside_minute name = not (
      at_most (floats.of 0) (get name floats.minus_one)
      && at_most (get name floats.minus_one) (floats.of 60))

  abbrev pub below : Bytes → F → F → Bool
  below name default minimum = floats.less (get name default) minimum

  -- The part that every deployment has.
  unfoldable pub common_errors : List Bytes
  common_errors =
      missing required_metrics
      ++ (append_if (not (is_value (lookup (codes "kairos_persistence_up") metrics) (floats.of 1)))
            (codes "persistence_unavailable")
          ++ (append_if (not (is_value (lookup (codes "kairos_redis_up") metrics) (floats.of 1)))
                (codes "redis_unavailable")
              ++ (nonzero zero_required
                  ++ append_if (above (codes "kairos_outbox_oldest_age_seconds") 60)
                      (codes "outbox_backlog_stale"))))

  unfoldable pub venue_errors : List Bytes
  venue_errors =
      append_if (below (codes "kairos_venue_measurements_24h") (floats.of 0) (floats.of 1))
        (codes "venue_measurements_missing")
      ++ (append_if
            (not (
              floats.same (get (codes "kairos_closed_bar_symbols_24h") (floats.of 0))
                (floats.of 5)))
            (codes "closed_bar_symbol_coverage_incomplete")
          ++ (append_if
                (below (codes "kairos_closed_bar_minimum_coverage_ratio_24h") (floats.of 0)
                  (floats.ratio 999 1000))
                (codes "closed_bar_coverage_below_0.999")
              ++ (append_if (above (codes "kairos_closed_bar_latest_age_seconds") 90)
                    (codes "closed_bar_stream_stale")
                  ++ (append_if
                        (below (codes "kairos_venue_availability_ratio_24h") (floats.of 0)
                          (floats.ratio 99 100))
                        (codes "venue_availability_below_0.99")
                      ++ (append_if
                            (not (
                              floats.same
                                (get (codes "kairos_venue_poll_expected_24h") (floats.of 0))
                                (floats.of 14_400)))
                            (codes "venue_poll_schedule_incomplete")
                          ++ (append_if
                                (floats.less
                                  (get (codes "kairos_venue_poll_attempted_24h") (floats.of 0))
                                  (floats.plus
                                    (get (codes "kairos_venue_poll_succeeded_24h") (floats.of 0))
                                    (get (codes "kairos_venue_poll_failed_24h") (floats.of 0))))
                                (codes "venue_poll_fact_counts_inconsistent")
                              ++ append_if (above (codes "kairos_venue_latest_age_seconds") 60)
                                  (codes "venue_measurement_stale")))))))

  unfoldable pub threshold_errors : List Bytes
  threshold_errors =
      threshold (codes "kairos_venue_p95_abs_basis_bps") 25
      ++ (threshold (codes "kairos_venue_p95_spread_bps") 25
          ++ (threshold (codes "kairos_venue_p95_slippage_bps") 25
              ++ (threshold (codes "kairos_execution_p95_shortfall_bps") 25
                  ++ (threshold (codes "kairos_venue_max_book_age_ms") 5_000
                      ++ (threshold (codes "kairos_venue_max_timestamp_skew_ms") 2_000
                          ++ threshold (codes "kairos_venue_p95_latency_ms") 5_000)))))

  unfoldable pub account_errors : List Bytes
  account_errors =
      append_if
        (not
          (floats.same (get (codes "kairos_paper_recovery_blocked") (floats.of 0)) (floats.of 0)))
        (codes "paper_recovery_blocked")
      ++ (append_if (outside_minute (codes "kairos_paper_account_latest_age_seconds"))
            (codes "paper_account_snapshot_stale")
          ++ (append_if (above (codes "kairos_api_spend_month_usd") 15)
                (codes "api_qualification_budget_exceeded")
              ++ (append_if (outside_minute (codes "kairos_execution_runtime_health_age_seconds"))
                    (codes "execution_runtime_health_missing_or_stale")
                  ++ (append_if
                        (below (codes "kairos_evedex_auth_age_seconds") floats.minus_one
                          (floats.of 0))
                        (codes "evedex_auth_age_unknown")
                      ++ append_if
                          (below (codes "kairos_evedex_auth_expires_in_seconds") floats.minus_one
                            (floats.of 60))
                          (codes "evedex_auth_expired_or_near_expiry")))))

  unfoldable pub budget_errors : List Bytes
  budget_errors =
      append_if
        (not (
            floats.same (get (codes "kairos_evedex_local_mutation_capacity") floats.minus_one)
              (floats.of 30))
          || (below (codes "kairos_evedex_local_mutation_compensation_reserve") floats.minus_one
                (floats.of 4)
              || below (codes "kairos_evedex_local_mutation_window_seconds") floats.minus_one
                  (floats.of 60)))
        (codes "evedex_mutation_budget_unsafe")
      ++ (append_if
            (floats.less (get (codes "kairos_evedex_local_mutation_reserve") floats.minus_one)
              (get (codes "kairos_evedex_local_mutation_compensation_reserve") floats.minus_one))
            (codes "evedex_compensation_reserve_exhausted")
          ++ (append_if
                (not (
                  floats.same
                    (get (codes "kairos_evedex_venue_rate_limit_observable") floats.minus_one)
                    (floats.of 0)
                  || floats.same
                      (get (codes "kairos_evedex_venue_rate_limit_observable") floats.minus_one)
                      (floats.of 1)))
                (codes "evedex_venue_rate_limit_observability_unknown")
              ++ append_if
                  (floats.same
                      (get (codes "kairos_evedex_venue_rate_limit_observable") floats.minus_one)
                      (floats.of 1)
                    && below (codes "kairos_evedex_venue_rate_limit_reserve") floats.minus_one
                        (floats.of 1))
                  (codes "evedex_venue_rate_limit_exhausted")))

  unfoldable pub health_errors : Bool → List Bytes
  health_errors paper =
      if not paper
      then common_errors
      else common_errors
        ++ (missing paper_required_metrics
            ++ (nonzero paper_zero_required
                ++ (venue_errors ++ (threshold_errors ++ (account_errors ++ budget_errors)))))
