-- ===== src/Canary/Judge.antt =====
-- The tests of `evaluate_evidence` of scripts/paper_canary_acceptance.py on the scope, the recovery and
-- each trade.
use kairos_deploy.Base.{
  ℕ, List, [], ◌∷◌, ◌++◌, Bool, false, not, ◌&&◌, ◌||◌, length, take, drop, all, any, leb, ltb,
  ◌==◌, if◌then◌else◌,
}
use kairos_deploy.Base.Bytes.{Bytes, codes, bytes_eq, is_digit, lower}
use kairos_deploy.Base.Sets.{contains, bytes_eq_instance}
use kairos_deploy.Canary.Evidence.{Decimals, Scope, Recovery, Trade}

abbrev pub expected_symbols : List Bytes
expected_symbols =
    codes "BTCUSDT" ∷ codes "ETHUSDT" ∷ codes "SOLUSDT" ∷ codes "BNBUSDT" ∷ codes "XRPUSDT" ∷ []

abbrev pub required_exit_reasons : List Bytes
required_exit_reasons = codes "STOP" ∷ codes "TARGET" ∷ codes "TIMEOUT" ∷ []

abbrev expected_environments : List Bytes
expected_environments = codes "paper:EVEDEX:DEV:PAPER" ∷ codes "paper-dev:EVEDEX:DEV:PAPER" ∷ []

abbrev terminal_states : List Bytes
terminal_states = codes "FLAT" ∷ codes "CANCELLED" ∷ []

abbrev required_protection_events : List Bytes
required_protection_events =
    codes "STOP_CREATED"
    ∷ codes "STOP_RECONCILED"
    ∷ codes "TARGET_CREATED"
    ∷ codes "TARGET_RECONCILED"
    ∷ []

abbrev fill_events : List Bytes
fill_events = codes "ENTRY_FILLED" ∷ codes "ENTRY_PARTIAL_FILL" ∷ []

abbrev forbidden_public_events : List Bytes
forbidden_public_events = codes "FAILED" ∷ codes "RECOVERY_BLOCKED" ∷ codes "EMERGENCY_CLOSE" ∷ []

abbrev is_alphanumeric : ℕ → Bool
is_alphanumeric c = is_digit c || leb 97 c && leb c 122

abbrev is_account_char : ℕ → Bool
is_account_char c = is_alphanumeric c || c == 45

abbrev ends_alphanumeric : Bytes → Bool
ends_alphanumeric [] = false
ends_alphanumeric (c ∷ []) = is_alphanumeric c
ends_alphanumeric (c ∷ d ∷ cs) = ends_alphanumeric (d ∷ cs)

abbrev is_account_suffix : Bytes → Bool
is_account_suffix [] = false
is_account_suffix (c ∷ cs) =
    is_alphanumeric c
    && (all is_account_char cs && (ends_alphanumeric (c ∷ cs) && leb (length (c ∷ cs)) 48))

-- `kairos-paper-dev-[a-z0-9](?:[a-z0-9-]{0,46}[a-z0-9])?`
unfoldable pub is_account : Bytes → Bool
is_account id = bytes_eq (take 17 id) (codes "kairos-paper-dev-") && is_account_suffix (drop 17 id)

-- `value.casefold() == "evedex"`
unfoldable pub is_evedex : Bytes → Bool
is_evedex value = bytes_eq (lower value) (codes "evedex")

unfoldable pub is_dedicated : Scope → Bool
is_dedicated s =
    contains s.environment expected_environments
    && (bytes_eq s.trading_mode (codes "PAPER")
        && (bytes_eq s.profile (codes "DEV") && (is_evedex s.exchange && is_account s.account_id)))

unfoldable pub is_restart_recovery : Recovery → Bool
is_restart_recovery r =
    r.present
    && (r.completed
        && (not r.entries_blocked && (leb 2 r.recovery_epoch && r.protected_trade_crossed_epoch)))

unfoldable pub venue_symbol_of : Bytes → Bytes
venue_symbol_of symbol = take 6 symbol ++ codes ":DEV"

abbrev is_positive_count : ℕ → Bool
is_positive_count n = not (n == 0)

abbrev pub intersection : List Bytes → List Bytes → List Bytes
intersection [] ys = []
intersection (x ∷ xs) ys = if contains x ys then x ∷ intersection xs ys else intersection xs ys

abbrev pub intersects : List Bytes → List Bytes → Bool
intersects xs ys = any (λ x. contains x ys) xs

module _ {F : Type 0} where
  unfoldable pub has_lineage : Trade F → Bool
  has_lineage t =
      contains t.symbol expected_symbols
      && (bytes_eq t.venue_symbol (venue_symbol_of t.symbol)
          && (bytes_eq t.trading_mode (codes "PAPER")
              && (bytes_eq t.profile (codes "DEV")
                  && (is_evedex t.exchange
                      && (bytes_eq t.strategy_id (codes "technical-canary")
                          && (bytes_eq t.strategy_revision (codes "1")
                              && t.decision_binding_valid))))))

  unfoldable pub is_terminal : Trade F → Bool
  is_terminal t = contains t.state terminal_states

  unfoldable pub is_failed : Trade F → Bool
  is_failed t =
      bytes_eq t.state (codes "FAILED_BLOCKED")
      || (is_positive_count t.internal_failure_count
          || intersects t.event_types forbidden_public_events)

  unfoldable pub is_contiguous : Trade F → Bool
  is_contiguous t =
      t.public_event_count == t.expected_public_event_count
      && (t.public_sequence_contiguous && t.public_scope_valid)

  unfoldable pub has_fill : Decimals F → Trade F → Bool
  has_fill decimals t = decimals.is_positive t.filled_quantity || ltb 0 t.real_fill_event_count

  -- `exits & REQUIRED_EXIT_REASONS`
  abbrev pub required_exits : Trade F → List Bytes
  required_exits t = intersection t.exit_reasons required_exit_reasons

  -- `exits == required_exits and len(required_exits) == 1`
  abbrev pub has_one_exit : Trade F → Bool
  has_one_exit t =
      all (λ x. contains x required_exit_reasons) t.exit_reasons && length (required_exits t) == 1

  unfoldable pub is_protected_flat : Decimals F → Trade F → Bool
  is_protected_flat decimals t =
      bytes_eq t.state (codes "FLAT")
      && (has_fill decimals t
          && (intersects t.event_types fill_events
              && (contains (codes "DECISION_RECEIVED") t.event_types
                  && (all (λ x. contains x t.event_types) required_protection_events
                      && (contains (codes "EXIT_TRIGGERED") t.event_types
                          && (contains (codes "EXIT_FILLED") t.event_types
                              && (has_one_exit t && t.protected_sequence_valid)))))))

  abbrev pub is_marketable : Trade F → Bool
  is_marketable t = t.marketable_ioc_limit && t.next_bar_market
