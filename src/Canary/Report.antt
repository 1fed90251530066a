-- ===== src/Canary/Report.antt =====
-- The part of `evaluate_evidence` of scripts/paper_canary_acceptance.py behind its checks of the shape:
-- the loop over the trades, what is pending, what failed, and the report, without its constant fields.
use kairos_deploy.Base.{
  ℕ, ◌+◌, Option, none, some, List, [], ◌∷◌, ◌++◌, Bool, true, false, not, ◌&&◌, ◌||◌, Result, ok,
  err, append_if, length, ltb, ◌==◌, if◌then◌else◌,
}
use kairos_deploy.Base.Bytes.{Bytes, codes}
use kairos_deploy.Base.Sets.{contains, add, bytes_eq_instance}
use kairos_deploy.Base.Sorting.{sorted}
use kairos_deploy.Base.Json.{Json}
use kairos_deploy.Canary.Evidence.{
  Decimals, Fault, schema_invalid, overflow, Checked, Scope, Recovery, Integrity, Trade, Evidence,
  read_evidence,
}
use kairos_deploy.Canary.Judge.{
  expected_symbols, required_exit_reasons, is_dedicated, is_restart_recovery, has_lineage,
  is_terminal, is_failed, is_contiguous, has_fill, required_exits, is_protected_flat, is_marketable,
}

pub data Status : Type 0 where
  fail waiting pass : Status

-- The variables of the loop over the trades.
pub record Totals : Type 0 where
  pub protected_symbols : List Bytes
  pub observed_exit_reasons : List Bytes
  pub nonterminal_trades : ℕ
  pub failed_lifecycles : ℕ
  pub computed_real_fill_events : ℕ
  pub computed_cancel_effects : ℕ
  pub marketable_ioc_limit : Bool
  pub failures : List Bytes

-- Set union.
abbrev pub updated : List Bytes → List Bytes → List Bytes
updated set [] = set
updated set (x ∷ xs) = updated (add x set) xs

abbrev pub distinct : List Bytes → List Bytes
distinct xs = updated [] xs

abbrev pub difference : List Bytes → List Bytes → List Bytes
difference [] ys = []
difference (x ∷ xs) ys = if contains x ys then difference xs ys else x ∷ difference xs ys

abbrev pub add_if : Bool → ℕ → ℕ
add_if true n = n + 1
add_if false n = n

abbrev is_counted : ℕ → Bool
is_counted n = not (n == 0)

module _ {F : Type 0} (decimals : Decimals F) where
  -- What a trade appends to the failures.
  unfoldable pub trade_failures : Trade F → List Bytes
  trade_failures t =
      append_if (not (has_lineage t)) (codes "TRADE_LINEAGE_OUTSIDE_TECHNICAL_CANARY_V1")
      ++ (append_if (not (is_contiguous t))
            (codes "PUBLIC_LIFECYCLE_FACTS_ARE_NOT_ATOMIC_AND_CONTIGUOUS")
          ++ append_if (has_fill decimals t && not (is_protected_flat decimals t))
              (codes "FILLED_TRADE_LACKS_PROTECTED_FLAT_ROUND_TRIP"))

  -- The body of the loop.
  unfoldable pub seen : Trade F → Totals → Totals
  seen t s =
      let is_protected = is_protected_flat decimals t in
      record {
        protected_symbols =
            if is_protected then add t.symbol s.protected_symbols else s.protected_symbols;
        observed_exit_reasons =
            if is_protected
            then updated s.observed_exit_reasons (required_exits t)
            else s.observed_exit_reasons;
        nonterminal_trades = add_if (not (is_terminal t)) s.nonterminal_trades;
        failed_lifecycles = add_if (is_failed t) s.failed_lifecycles;
        computed_real_fill_events = s.computed_real_fill_events + t.real_fill_event_count;
        computed_cancel_effects = s.computed_cancel_effects + t.cancel_order_effects;
        marketable_ioc_limit = s.marketable_ioc_limit && is_marketable t;
        failures = s.failures ++ trade_failures t;
      }

  unfoldable pub tally : List (Trade F) → Totals → Totals
  tally [] s = s
  tally (t ∷ ts) s = tally ts (seen t s)

unfoldable pub barrier_failures : Recovery → List Bytes
barrier_failures r =
    if not r.present
    then codes "RECOVERY_BARRIER_MISSING" ∷ []
    else append_if (r.entries_blocked || not r.completed) (codes "RECOVERY_BARRIER_NOT_CLEAN")

abbrev pub unresolved : Integrity → ℕ
unresolved i = i.prepared_effects + i.failed_effects

-- The failures before the loop.
unfoldable pub early_failures : Scope → Recovery → Integrity → List Bytes
early_failures scope r i =
    append_if (not (is_dedicated scope)) (codes "SCOPE_IS_NOT_DEDICATED_EVEDEX_DEV_PAPER")
    ++ (barrier_failures r
        ++ (append_if (is_counted (unresolved i)) (codes "UNRESOLVED_PREPARED_OR_FAILED_EFFECTS")
            ++ (append_if (is_counted i.duplicate_client_order_ids)
                  (codes "DUPLICATE_CLIENT_ORDER_IDS")
                ++ (append_if
                      (is_counted i.foreign_scope_trades || is_counted i.foreign_scope_effects)
                      (codes "DEDICATED_ACCOUNT_HAS_FOREIGN_SCOPE_FACTS")
                    ++ append_if (is_counted i.public_failure_events)
                        (codes "FAILED_OR_EMERGENCY_PUBLIC_LIFECYCLE_FACTS")))))

-- The failures behind the loop.
unfoldable pub late_failures : Integrity → Totals → List Bytes
late_failures i s =
    append_if (not (s.computed_real_fill_events == i.real_fill_events))
      (codes "REAL_FILL_EVENT_AGGREGATE_MISMATCH")
    ++ (append_if (not (s.computed_cancel_effects == i.cancel_order_effects))
          (codes "CANCEL_EFFECT_AGGREGATE_MISMATCH")
        ++ (append_if (is_counted s.nonterminal_trades) (codes "NONTERMINAL_TRADE_LIFECYCLES")
            ++ append_if (is_counted s.failed_lifecycles) (codes "FAILED_TRADE_LIFECYCLES")))

abbrev pub is_nonempty : List Bytes → Bool
is_nonempty [] = false
is_nonempty (x ∷ xs) = true

abbrev pub missing_symbols : Totals → List Bytes
missing_symbols s = sorted (difference expected_symbols s.protected_symbols)

abbrev pub missing_exits : Totals → List Bytes
missing_exits s = sorted (difference required_exit_reasons s.observed_exit_reasons)

unfoldable pub pending_reasons_of : Recovery → Integrity → Totals → List Bytes
pending_reasons_of r i s =
    append_if (not (is_restart_recovery r)) (codes "RESTART_RECOVERY_NOT_YET_PROVEN")
    ++ (append_if (is_nonempty (missing_symbols s)) (codes "PROTECTED_FLAT_ROUND_TRIPS_MISSING")
        ++ (append_if (is_nonempty (missing_exits s))
              (codes "STOP_TARGET_TIMEOUT_COVERAGE_INCOMPLETE")
            ++ (append_if (not s.marketable_ioc_limit)
                  (codes "MARKETABLE_IOC_LIMIT_COVERAGE_INCOMPLETE")
                ++ (append_if (not (ltb 0 i.cancel_order_effects))
                      (codes "ENTRY_CANCEL_COVERAGE_INCOMPLETE")
                    ++ append_if (not (ltb 0 i.real_fill_events))
                        (codes "REAL_EVEDEX_DEV_FILL_NOT_OBSERVED")))))

pub record Coverage : Type 0 where
  pub protected_flat_symbols : List Bytes
  pub missing_symbols : Option (List Bytes)
  pub exit_reasons : List Bytes
  pub missing_exit_reasons : Option (List Bytes)
  pub marketable_ioc_limit : Bool
  pub entry_cancel : Bool
  pub restart_recovery : Bool

pub record Counters : Type 0 where
  pub trades : ℕ
  pub real_fill_events : ℕ
  pub duplicate_client_order_ids : ℕ
  pub unresolved_effects : ℕ
  pub nonterminal_trades : ℕ
  pub failed_lifecycles : ℕ

pub record Report : Type 0 where
  pub status : Status
  pub accepted : Bool
  pub coverage : Coverage
  pub counters : Counters
  pub pending_reasons : List Bytes
  pub failure_reasons : List Bytes

abbrev pub is_pass : Status → Bool
is_pass pass = true
is_pass _ = false

unfoldable pub base_report : Status → List Bytes → List Bytes → Coverage → Counters → Report
base_report status pending failures coverage counters = record {
  status = status;
  accepted = is_pass status;
  coverage = coverage;
  counters = counters;
  pending_reasons = sorted (distinct pending);
  failure_reasons = sorted (distinct failures);
}

unfoldable pub invalid_evidence_report : Report
invalid_evidence_report =
    base_report fail [] (codes "EVIDENCE_SCHEMA_INVALID" ∷ [])
      (record {
        protected_flat_symbols = [];
        missing_symbols = none;
        exit_reasons = [];
        missing_exit_reasons = none;
        marketable_ioc_limit = false;
        entry_cancel = false;
        restart_recovery = false;
      })
      (record {
        trades = 0;
        real_fill_events = 0;
        duplicate_client_order_ids = 0;
        unresolved_effects = 0;
        nonterminal_trades = 0;
        failed_lifecycles = 0;
      })

-- `"FAIL" if failures else "PENDING" if pending else "PASS"`
unfoldable pub status_of : List Bytes → List Bytes → Status
status_of failures pending =
    if is_nonempty failures then fail else if is_nonempty pending then waiting else pass

module _ {F : Type 0} (decimals : Decimals F) where
  abbrev pub totals_before : List (Trade F) → Totals
  totals_before trades = record {
    protected_symbols = [];
    observed_exit_reasons = [];
    nonterminal_trades = 0;
    failed_lifecycles = 0;
    computed_real_fill_events = 0;
    computed_cancel_effects = 0;
    marketable_ioc_limit = not (length trades == 0);
    failures = [];
  }

  abbrev pub totals : Evidence F → Totals
  totals e = tally decimals e.trades (totals_before e.trades)

  unfoldable pub failures_of : Evidence F → List Bytes
  failures_of e =
      early_failures e.scope e.recovery e.integrity
      ++ ((totals e).failures ++ late_failures e.integrity (totals e))

  unfoldable pub judged : Evidence F → Report
  judged e =
      let s = totals e in
      let failures = failures_of e in
      let pending = pending_reasons_of e.recovery e.integrity s in
      base_report (status_of failures pending) pending failures
        (record {
          protected_flat_symbols = sorted s.protected_symbols;
          missing_symbols = some (missing_symbols s);
          exit_reasons = sorted s.observed_exit_reasons;
          missing_exit_reasons = some (missing_exits s);
          marketable_ioc_limit = s.marketable_ioc_limit;
          entry_cancel = ltb 0 e.integrity.cancel_order_effects;
          restart_recovery = is_restart_recovery e.recovery;
        })
        (record {
          trades = length e.trades;
          real_fill_events = e.integrity.real_fill_events;
          duplicate_client_order_ids = e.integrity.duplicate_client_order_ids;
          unresolved_effects = unresolved e.integrity;
          nonterminal_trades = s.nonterminal_trades;
          failed_lifecycles = s.failed_lifecycles;
        })

  abbrev pub reported : Checked (Evidence F) → Result Fault Report
  reported (ok e) = ok (judged e)
  reported (err schema_invalid) = ok invalid_evidence_report
  reported (err overflow) = err overflow

  unfoldable pub evaluate_evidence : Json F → Result Fault Report
  evaluate_evidence value = reported (read_evidence decimals value)
