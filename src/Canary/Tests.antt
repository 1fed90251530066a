-- ===== src/Canary/Tests.antt =====
-- Concrete runs of scripts/paper_canary_acceptance.py's models, with numbers as floats.
use kairos_deploy.Base.{
  ℕ, ◌≡◌, ◌↔◌, refl, none, some, List, [], ◌∷◌, true, false, ok, err, ltb, ◌==◌, if◌then◌else◌,
}
use kairos_deploy.Base.Bytes.{Bytes, codes, bytes_eq, lower}
use kairos_deploy.Base.Json.{
  Json, bool, number, text, array, object, from_items, from_fields, has_exact_keys,
}
use kairos_deploy.Canary.Evidence.{
  Decimals, overflow, Evidence, read_evidence, shaped, item, read_scope, read_recovery,
  read_integrity, read_trades, read_trade, finite_nonnegative, text_set, texts,
}
use kairos_deploy.Canary.Report.{
  Report, pass, evaluate_evidence, judged, base_report, barrier_failures, early_failures,
  late_failures, pending_reasons_of, status_of, failures_of, tally, seen, trade_failures,
  invalid_evidence_report,
}
use kairos_deploy.Base.Dict.{lookup}
use kairos_deploy.Base.Sets.{contains, add}
use kairos_deploy.Base.Sorting.{sorted}
use kairos_deploy.Canary.Judge.{
  has_fill, has_lineage, is_account, is_contiguous, is_dedicated, is_evedex, is_failed,
  is_protected_flat, is_restart_recovery, is_terminal, venue_symbol_of,
}
use kairos_deploy.Canary.Accept.{Qualifies, evaluate_evidence-Qualifies}
use kairos_deploy.Canary.Consistent.{IsConsistent, evaluate_evidence-IsConsistent}

abbrev naturals : Decimals ℕ
naturals = record {
  of_integer = λ n. if ltb n 1000 then some n else none;
  is_finite_nonnegative = λ f. true;
  is_positive = λ f. ltb 0 f;
  is_one = λ f. f == 1;
}

abbrev strings : List Bytes → List (Json ℕ)
strings [] = []
strings (x ∷ xs) = text x ∷ strings xs

abbrev trade : Bytes → Bytes → Bytes → ℕ → Json ℕ
trade symbol venue_symbol reason filled = object (
    from_fields (
      (codes "symbol", text symbol)
      ∷ (codes "venue_symbol", text venue_symbol)
      ∷ (codes "trading_mode", text (codes "PAPER"))
      ∷ (codes "profile", text (codes "DEV"))
      ∷ (codes "exchange", text (codes "EVEDEX"))
      ∷ (codes "strategy_id", text (codes "technical-canary"))
      ∷ (codes "strategy_revision", text (codes "1"))
      ∷ (codes "state", text (codes "FLAT"))
      ∷ (codes "filled_quantity", number filled)
      ∷ (codes "marketable_ioc_limit", bool true)
      ∷ (codes "next_bar_market", bool true)
      ∷ (codes "decision_binding_valid", bool true)
      ∷ (
        codes "event_types",
        array (
            from_items (
              strings (
                codes "DECISION_RECEIVED"
                ∷ codes "ENTRY_FILLED"
                ∷ codes "STOP_CREATED"
                ∷ codes "STOP_RECONCILED"
                ∷ codes "TARGET_CREATED"
                ∷ codes "TARGET_RECONCILED"
                ∷ codes "EXIT_TRIGGERED"
                ∷ codes "EXIT_FILLED"
                ∷ []))),
      )
      ∷ (codes "exit_reasons", array (from_items (strings (reason ∷ []))))
      ∷ (codes "public_event_count", number 8)
      ∷ (codes "expected_public_event_count", number 8)
      ∷ (codes "public_sequence_contiguous", bool true)
      ∷ (codes "public_scope_valid", bool true)
      ∷ (codes "protected_sequence_valid", bool true)
      ∷ (codes "internal_failure_count", number 0)
      ∷ (codes "cancel_order_effects", number 1)
      ∷ (codes "real_fill_event_count", number 1)
      ∷ []))

abbrev evidence : List (Json ℕ) → ℕ → Json ℕ
evidence trades count = object (
    from_fields (
      (codes "schema_version", number 1)
      ∷ (
        codes "scope",
        object (
            from_fields (
              (codes "environment", text (codes "paper:EVEDEX:DEV:PAPER"))
              ∷ (codes "trading_mode", text (codes "PAPER"))
              ∷ (codes "profile", text (codes "DEV"))
              ∷ (codes "exchange", text (codes "EveDex"))
              ∷ (codes "account_id", text (codes "kairos-paper-dev-a-1"))
              ∷ [])),
      )
      ∷ (
        codes "recovery",
        object (
            from_fields (
              (codes "present", bool true)
              ∷ (codes "entries_blocked", bool false)
              ∷ (codes "recovery_epoch", number 2)
              ∷ (codes "completed", bool true)
              ∷ (codes "protected_trade_crossed_epoch", bool true)
              ∷ [])),
      )
      ∷ (
        codes "integrity",
        object (
            from_fields (
              (codes "prepared_effects", number 0)
              ∷ (codes "failed_effects", number 0)
              ∷ (codes "duplicate_client_order_ids", number 0)
              ∷ (codes "foreign_scope_trades", number 0)
              ∷ (codes "foreign_scope_effects", number 0)
              ∷ (codes "cancel_order_effects", number count)
              ∷ (codes "real_fill_events", number count)
              ∷ (codes "public_failure_events", number 0)
              ∷ [])),
      )
      ∷ (codes "trades", array (from_items trades))
      ∷ []))

abbrev round_trips : List (Json ℕ)
round_trips =
    trade (codes "BTCUSDT") (codes "BTCUSD:DEV") (codes "STOP") 1
    ∷ trade (codes "ETHUSDT") (codes "ETHUSD:DEV") (codes "TARGET") 1
    ∷ trade (codes "SOLUSDT") (codes "SOLUSD:DEV") (codes "TIMEOUT") 1
    ∷ trade (codes "BNBUSDT") (codes "BNBUSD:DEV") (codes "STOP") 1
    ∷ trade (codes "XRPUSDT") (codes "XRPUSD:DEV") (codes "STOP") 1
    ∷ []

abbrev accepted_report : Report
accepted_report = record {
  status = pass;
  accepted = true;
  coverage = record {
    protected_flat_symbols =
        codes "BNBUSDT"
        ∷ codes "BTCUSDT"
        ∷ codes "ETHUSDT"
        ∷ codes "SOLUSDT"
        ∷ codes "XRPUSDT"
        ∷ [];
    missing_symbols = some [];
    exit_reasons = codes "STOP" ∷ codes "TARGET" ∷ codes "TIMEOUT" ∷ [];
    missing_exit_reasons = some [];
    marketable_ioc_limit = true;
    entry_cancel = true;
    restart_recovery = true;
  };
  counters = record {
    trades = 5;
    real_fill_events = 5;
    duplicate_client_order_ids = 0;
    unresolved_effects = 0;
    nonterminal_trades = 0;
    failed_lifecycles = 0;
  };
  pending_reasons = [];
  failure_reasons = [];
}

accepted_trips : evaluate_evidence naturals (evidence round_trips 5) ≡ ok accepted_report
unfolding has_exact_keys lookup bytes_eq lower contains add sorted shaped item read_evidence
    read_scope read_recovery read_integrity read_trades read_trade finite_nonnegative text_set texts
    has_fill has_lineage is_account is_contiguous is_dedicated is_evedex is_failed is_protected_flat
    is_restart_recovery is_terminal venue_symbol_of evaluate_evidence judged base_report
    barrier_failures early_failures late_failures pending_reasons_of status_of failures_of tally
    seen trade_failures invalid_evidence_report
accepted_trips = refl

-- A count that no float holds is not caught.
overflowing :
    evaluate_evidence naturals
      (evidence (trade (codes "BTCUSDT") (codes "BTCUSD:DEV") (codes "STOP") 1_000 ∷ []) 1)
    ≡ err overflow
unfolding has_exact_keys lookup bytes_eq contains shaped item read_evidence read_scope read_recovery
    read_integrity read_trades read_trade finite_nonnegative text_set texts evaluate_evidence
overflowing = refl

evaluate_evidence-Qualifies_example : (accepted_report.accepted ≡ true) ↔ (
    (e : Evidence ℕ) × (read_evidence naturals (evidence round_trips 5) ≡ ok e)
    × Qualifies naturals e)
evaluate_evidence-Qualifies_example =
    evaluate_evidence-Qualifies naturals (evidence round_trips 5) accepted_trips

evaluate_evidence-IsConsistent_example : IsConsistent accepted_report
evaluate_evidence-IsConsistent_example =
    evaluate_evidence-IsConsistent naturals (evidence round_trips 5) accepted_trips
