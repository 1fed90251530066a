-- ===== src/Soak/Tests.antt =====
-- Short observations through the model of scripts/soak_reconnect.py, on whole numbers for floats.
use kairos_deploy.Base.{
  ℕ, ◌+◌, ◌*◌, ◌/◌, ◌≡◌, ◌≢◌, refl, true, false, none, some, List, [], ◌∷◌, map, ok, ltb, ◌==◌,
  ◌||◌, if◌then◌else◌,
}
use kairos_deploy.Base.Bytes.{Bytes, codes, bytes_eq}
use kairos_deploy.Base.Dict.{Dict, lookup}
use kairos_deploy.Base.Sorting.{sorted}
use kairos_deploy.Soak.Health.{Floats, get, common_errors, health_errors, required_metrics}
use kairos_deploy.Soak.Loop.{
  Pass, restarted_if_due, is_available, sampled, run, availability, durable_at_end, Summary,
  summary, run_soak,
}
use kairos_deploy.Soak.Sticky.{IsQualified, run_soak-IsQualified, run_soak-ne-ok}

-- Thousandths, where −1 is a number above all others.
abbrev whole : Floats ℕ
whole = record {
  less = ltb;
  same = λ a b. a == b;
  plus = λ a b. a + b;
  minus_one = 1_000_000_000;
  of = λ n. n * 1000;
  ratio = λ a b. a * 1000 / b;
}

abbrev metric : Bytes → Bytes × ℕ
metric name = (
  name,
  if bytes_eq name (codes "kairos_persistence_up") || bytes_eq name (codes "kairos_redis_up")
      then 1000
      else 0,
)

abbrev healthy : Dict ℕ
healthy = map metric required_metrics

abbrev passes : List (Pass ℕ)
passes =
    record { time_left = true; restart_due = true; restart_succeeds = true; metrics = some healthy }
    ∷ record { time_left = false; restart_due = false; restart_succeeds = true; metrics = none }
    ∷ []

abbrev qualified : Summary
qualified = record {
  samples = 1;
  healthy_samples = 1;
  transport_errors = 0;
  restart_executed = true;
  recovered_after_restart = true;
  terminal_errors = [];
}

qualifies : run_soak whole 990 (codes "0.9900") false true passes ≡ ok qualified
unfolding run_soak run restarted_if_due sampled health_errors common_errors is_available
    availability durable_at_end summary sorted lookup bytes_eq get
qualifies = refl

run_soak-IsQualified_example : IsQualified whole false true 990 passes qualified
run_soak-IsQualified_example =
    run_soak-IsQualified whole false true 990 (codes "0.9900") passes qualifies refl

-- Two passes that get no metrics, the second one late.
abbrev silent : List (Pass ℕ)
silent =
    record { time_left = true; restart_due = false; restart_succeeds = true; metrics = none }
    ∷ record { time_left = false; restart_due = false; restart_succeeds = true; metrics = none }
    ∷ []

run_soak-ne-ok_example : run_soak whole 990 (codes "0.9900") false true silent ≢ ok qualified
run_soak-ne-ok_example = run_soak-ne-ok whole false true 990 (codes "0.9900") silent refl
