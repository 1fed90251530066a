-- ===== src/Epoch/Circuit.antt =====
-- `SourceCircuit` of scripts/runtime_epoch_worker.py: the counters of catch-up rounds whose public GET
-- failed, and how long to wait before the next round.
pub mod Tally
use kairos_deploy.Base.{
  ℕ, zero, suc, ◌+◌, ◌-◌, ◌≡◌, Option, none, some, List, [], ◌∷◌, Result, ok, err, ◌>>=◌, length,
  if◌then◌else◌, Bool, true, false, ◌==◌,
}
use Prim.Native.Nat.{min, max}
use kairos_deploy.Epoch.Failures.{
  Reason, fetch_timeout, fetch_dns_failure, Failure, source_wait_reason,
}

pub record Circuit : Type 0 where
  pub timeouts : ℕ
  pub dns_failures : ℕ
  pub recoveries : ℕ
  pub consecutive : ℕ
  pub consecutive_timeouts : ℕ
  pub consecutive_dns_failures : ℕ

abbrev pub initial : Circuit
initial = record {
  timeouts = 0;
  dns_failures = 0;
  recoveries = 0;
  consecutive = 0;
  consecutive_timeouts = 0;
  consecutive_dns_failures = 0;
}

-- The counters after a failure for the reason.
abbrev pub counted : Reason → Circuit → Circuit
counted fetch_dns_failure c = record c {
  consecutive = c.consecutive + 1;
  dns_failures = c.dns_failures + 1;
  consecutive_dns_failures = c.consecutive_dns_failures + 1;
  consecutive_timeouts = 0;
}
counted fetch_timeout c = record c {
  consecutive = c.consecutive + 1;
  timeouts = c.timeouts + 1;
  consecutive_timeouts = c.consecutive_timeouts + 1;
  consecutive_dns_failures = 0;
}

-- The reason and the new counters, or the failure raised again.
abbrev failed_for : Option Reason → Failure → Circuit → Result Failure (Reason × Circuit)
failed_for none error c = err error
failed_for (some r) error c = ok (r, counted r c)

unfoldable pub failed : Failure → Circuit → Result Failure (Reason × Circuit)
failed error c = failed_for (source_wait_reason error) error c

unfoldable pub succeeded : Circuit → Circuit
succeeded c = record c {
  recoveries = if c.consecutive == 0 then c.recoveries else c.recoveries + 1;
  consecutive = 0;
  consecutive_timeouts = 0;
  consecutive_dns_failures = 0;
}

abbrev pub wait_seconds : List ℕ
wait_seconds = 5 ∷ 15 ∷ 30 ∷ 60 ∷ []

-- The element at an index, the last one's if the index is beyond.
abbrev pub at_index : ℕ → ℕ → List ℕ → ℕ
at_index default n [] = default
at_index default zero (x ∷ xs) = x
at_index default (suc n) (x ∷ xs) = at_index x n xs

-- The pause that `wait` starts from.
unfoldable pub delay : Circuit → ℕ
delay c = at_index 0 (min (c.consecutive - 1) (length wait_seconds - 1)) wait_seconds

-- How a round ended.
pub data Outcome : Type 0 where
  round_failed : Failure → Outcome
  round_succeeded : Outcome

-- The circuit after the rounds, the last of which stands first.
unfoldable pub rounds : List Outcome → Result Failure Circuit
rounds [] = ok initial
rounds (round_failed f ∷ older) = do c ← rounds older; (r, c') ← failed f c; ok c'
rounds (round_succeeded ∷ older) = do c ← rounds older; ok (succeeded c)
