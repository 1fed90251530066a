-- ===== src/Canary/Evidence.antt =====
-- The evidence that `evaluate_evidence` of scripts/paper_canary_acceptance.py reads, and its checks of
-- the shape. Floats are a parameter.
use kairos_deploy.Base.{
  ℕ, ◌+◌, Option, none, some, List, [], ◌∷◌, Bool, false, not, Result, ok, err, ◌>>=◌, ◌>>◌,
  raise_if, ◌==◌, if◌then◌else◌,
}
use kairos_deploy.Base.Bytes.{Bytes, codes}
use kairos_deploy.Base.Dict.{Dict, lookup}
use kairos_deploy.Base.Sets.{contains, bytes_eq_instance}
use kairos_deploy.Base.Json.{
  Json, bool, number, negative, decimal, text, array, object, items, fields, has_exact_keys,
}

-- What is asked of floats: an integer as one, which may overflow, and their tests.
pub record Decimals (F : Type 0) : Type 0 where
  pub of_integer : ℕ → Option F
  pub is_finite_nonnegative : F → Bool
  pub is_positive : F → Bool
  pub is_one : F → Bool

-- `schema_invalid` stands for the exceptions that are caught, `overflow` for one that is not.
pub data Fault : Type 0 where
  schema_invalid overflow : Fault

abbrev pub Checked : Type 0 → Type 0
Checked A = Result Fault A

pub record Scope : Type 0 where
  pub environment : Bytes
  pub trading_mode : Bytes
  pub profile : Bytes
  pub exchange : Bytes
  pub account_id : Bytes

pub record Recovery : Type 0 where
  pub present : Bool
  pub entries_blocked : Bool
  pub recovery_epoch : ℕ
  pub completed : Bool
  pub protected_trade_crossed_epoch : Bool

pub record Integrity : Type 0 where
  pub prepared_effects : ℕ
  pub failed_effects : ℕ
  pub duplicate_client_order_ids : ℕ
  pub foreign_scope_trades : ℕ
  pub foreign_scope_effects : ℕ
  pub cancel_order_effects : ℕ
  pub real_fill_events : ℕ
  pub public_failure_events : ℕ

pub record Trade (F : Type 0) : Type 0 where
  pub symbol : Bytes
  pub venue_symbol : Bytes
  pub trading_mode : Bytes
  pub profile : Bytes
  pub exchange : Bytes
  pub strategy_id : Bytes
  pub strategy_revision : Bytes
  pub state : Bytes
  pub filled_quantity : F
  pub marketable_ioc_limit : Bool
  pub next_bar_market : Bool
  pub decision_binding_valid : Bool
  pub event_types : List Bytes
  pub exit_reasons : List Bytes
  pub public_event_count : ℕ
  pub expected_public_event_count : ℕ
  pub public_sequence_contiguous : Bool
  pub public_scope_valid : Bool
  pub protected_sequence_valid : Bool
  pub internal_failure_count : ℕ
  pub cancel_order_effects : ℕ
  pub real_fill_event_count : ℕ

pub record Evidence (F : Type 0) : Type 0 where
  pub scope : Scope
  pub recovery : Recovery
  pub integrity : Integrity
  pub trades : List (Trade F)

module _ {F : Type 0} where
  abbrev pub mapping : Json F → Checked (Dict (Json F))
  mapping (object value) = ok (fields value)
  mapping _ = err schema_invalid

  abbrev pub list : Json F → Checked (List (Json F))
  list (array value) = ok (items value)
  list _ = err schema_invalid

  abbrev pub nonempty_text : Json F → Checked Bytes
  nonempty_text (text (c ∷ cs)) = ok (c ∷ cs)
  nonempty_text _ = err schema_invalid

  abbrev pub boolean : Json F → Checked Bool
  boolean (bool value) = ok value
  boolean _ = err schema_invalid

  abbrev pub integer : Json F → Checked ℕ
  integer (number value) = ok value
  integer _ = err schema_invalid

  -- `value == 1`
  abbrev pub is_version_one : Decimals F → Json F → Bool
  is_version_one decimals (number n) = n == 1
  is_version_one decimals (bool b) = b
  is_version_one decimals (decimal f) = decimals.is_one f
  is_version_one decimals _ = false

  abbrev from_integer : Option F → Checked F
  from_integer none = err overflow
  from_integer (some f) = ok f

  abbrev from_negative : Option F → Checked F
  from_negative none = err overflow
  from_negative (some f) = err schema_invalid

  unfoldable pub finite_nonnegative : Decimals F → Json F → Checked F
  finite_nonnegative decimals (number n) = from_integer (decimals.of_integer n)
  finite_nonnegative decimals (negative n) = from_negative (decimals.of_integer (n + 1))
  finite_nonnegative decimals (decimal f) =
      if decimals.is_finite_nonnegative f then ok f else err schema_invalid
  finite_nonnegative decimals _ = err schema_invalid

  unfoldable pub texts : List (Json F) → Checked (List Bytes)
  texts [] = ok []
  texts (x ∷ xs) = do
    first ← nonempty_text x
    rest ← texts xs
    raise_if (contains first rest) schema_invalid
    ok (first ∷ rest)

  unfoldable pub text_set : Json F → Checked (List Bytes)
  text_set value = do values ← list value; texts values

  -- `value[key]`
  unfoldable pub item : Bytes → Dict (Json F) → Checked (Json F)
  item key value = elim (lookup key value) [ none ↦ err schema_invalid | some x ↦ ok x ]

  -- An object with exactly these keys.
  unfoldable pub shaped : List Bytes → Json F → Checked (Dict (Json F))
  shaped expected value = do
    d ← mapping value
    raise_if (not (has_exact_keys expected d)) schema_invalid
    ok d

  -- One key's value, checked.
  abbrev pub get : {A : Type 0} → (Json F → Checked A) → Bytes → Dict (Json F) → Checked A
  get check key value = item key value >>= check

abbrev pub root_keys : List Bytes
root_keys =
    codes "schema_version"
    ∷ codes "scope"
    ∷ codes "recovery"
    ∷ codes "integrity"
    ∷ codes "trades"
    ∷ []

abbrev pub scope_keys : List Bytes
scope_keys =
    codes "environment"
    ∷ codes "trading_mode"
    ∷ codes "profile"
    ∷ codes "exchange"
    ∷ codes "account_id"
    ∷ []

abbrev pub recovery_keys : List Bytes
recovery_keys =
    codes "present"
    ∷ codes "entries_blocked"
    ∷ codes "recovery_epoch"
    ∷ codes "completed"
    ∷ codes "protected_trade_crossed_epoch"
    ∷ []

abbrev pub integrity_keys : List Bytes
integrity_keys =
    codes "prepared_effects"
    ∷ codes "failed_effects"
    ∷ codes "duplicate_client_order_ids"
    ∷ codes "foreign_scope_trades"
    ∷ codes "foreign_scope_effects"
    ∷ codes "cancel_order_effects"
    ∷ codes "real_fill_events"
    ∷ codes "public_failure_events"
    ∷ []

abbrev pub trade_keys : List Bytes
trade_keys =
    codes "symbol"
    ∷ codes "venue_symbol"
    ∷ codes "trading_mode"
    ∷ codes "profile"
    ∷ codes "exchange"
    ∷ codes "strategy_id"
    ∷ codes "strategy_revision"
    ∷ codes "state"
    ∷ codes "filled_quantity"
    ∷ codes "marketable_ioc_limit"
    ∷ codes "next_bar_market"
    ∷ codes "decision_binding_valid"
    ∷ codes "event_types"
    ∷ codes "exit_reasons"
    ∷ codes "public_event_count"
    ∷ codes "expected_public_event_count"
    ∷ codes "public_sequence_contiguous"
    ∷ codes "public_scope_valid"
    ∷ codes "protected_sequence_valid"
    ∷ codes "internal_failure_count"
    ∷ codes "cancel_order_effects"
    ∷ codes "real_fill_event_count"
    ∷ []

module _ {F : Type 0} where
  unfoldable pub read_scope : Json F → Checked Scope
  read_scope value = do
    d ← shaped scope_keys value
    environment ← get nonempty_text (codes "environment") d
    trading_mode ← get nonempty_text (codes "trading_mode") d
    profile ← get nonempty_text (codes "profile") d
    exchange ← get nonempty_text (codes "exchange") d
    account_id ← get nonempty_text (codes "account_id") d
    ok (record {
      environment = environment;
      trading_mode = trading_mode;
      profile = profile;
      exchange = exchange;
      account_id = account_id;
    })

  unfoldable pub read_recovery : Json F → Checked Recovery
  read_recovery value = do
    d ← shaped recovery_keys value
    present ← get boolean (codes "present") d
    entries_blocked ← get boolean (codes "entries_blocked") d
    recovery_epoch ← get integer (codes "recovery_epoch") d
    completed ← get boolean (codes "completed") d
    protected_trade_crossed_epoch ← get boolean (codes "protected_trade_crossed_epoch") d
    ok (record {
      present = present;
      entries_blocked = entries_blocked;
      recovery_epoch = recovery_epoch;
      completed = completed;
      protected_trade_crossed_epoch = protected_trade_crossed_epoch;
    })

  unfoldable pub read_integrity : Json F → Checked Integrity
  read_integrity value = do
    d ← shaped integrity_keys value
    prepared_effects ← get integer (codes "prepared_effects") d
    failed_effects ← get integer (codes "failed_effects") d
    duplicate_client_order_ids ← get integer (codes "duplicate_client_order_ids") d
    foreign_scope_trades ← get integer (codes "foreign_scope_trades") d
    foreign_scope_effects ← get integer (codes "foreign_scope_effects") d
    cancel_order_effects ← get integer (codes "cancel_order_effects") d
    real_fill_events ← get integer (codes "real_fill_events") d
    public_failure_events ← get integer (codes "public_failure_events") d
    ok (record {
      prepared_effects = prepared_effects;
      failed_effects = failed_effects;
      duplicate_client_order_ids = duplicate_client_order_ids;
      foreign_scope_trades = foreign_scope_trades;
      foreign_scope_effects = foreign_scope_effects;
      cancel_order_effects = cancel_order_effects;
      real_fill_events = real_fill_events;
      public_failure_events = public_failure_events;
    })

  unfoldable pub read_trade : Decimals F → Json F → Checked (Trade F)
  read_trade decimals value = do
    d ← shaped trade_keys value
    symbol ← get nonempty_text (codes "symbol") d
    venue_symbol ← get nonempty_text (codes "venue_symbol") d
    trading_mode ← get nonempty_text (codes "trading_mode") d
    profile ← get nonempty_text (codes "profile") d
    exchange ← get nonempty_text (codes "exchange") d
    strategy_id ← get nonempty_text (codes "strategy_id") d
    strategy_revision ← get nonempty_text (codes "strategy_revision") d
    state ← get nonempty_text (codes "state") d
    filled_quantity ← get (finite_nonnegative decimals) (codes "filled_quantity") d
    marketable_ioc_limit ← get boolean (codes "marketable_ioc_limit") d
    next_bar_market ← get boolean (codes "next_bar_market") d
    decision_binding_valid ← get boolean (codes "decision_binding_valid") d
    event_types ← get text_set (codes "event_types") d
    exit_reasons ← get text_set (codes "exit_reasons") d
    public_event_count ← get integer (codes "public_event_count") d
    expected_public_event_count ← get integer (codes "expected_public_event_count") d
    public_sequence_contiguous ← get boolean (codes "public_sequence_contiguous") d
    public_scope_valid ← get boolean (codes "public_scope_valid") d
    protected_sequence_valid ← get boolean (codes "protected_sequence_valid") d
    internal_failure_count ← get integer (codes "internal_failure_count") d
    cancel_order_effects ← get integer (codes "cancel_order_effects") d
    real_fill_event_count ← get integer (codes "real_fill_event_count") d
    ok (record {
      symbol = symbol;
      venue_symbol = venue_symbol;
      trading_mode = trading_mode;
      profile = profile;
      exchange = exchange;
      strategy_id = strategy_id;
      strategy_revision = strategy_revision;
      state = state;
      filled_quantity = filled_quantity;
      marketable_ioc_limit = marketable_ioc_limit;
      next_bar_market = next_bar_market;
      decision_binding_valid = decision_binding_valid;
      event_types = event_types;
      exit_reasons = exit_reasons;
      public_event_count = public_event_count;
      expected_public_event_count = expected_public_event_count;
      public_sequence_contiguous = public_sequence_contiguous;
      public_scope_valid = public_scope_valid;
      protected_sequence_valid = protected_sequence_valid;
      internal_failure_count = internal_failure_count;
      cancel_order_effects = cancel_order_effects;
      real_fill_event_count = real_fill_event_count;
    })

  unfoldable pub read_trades : Decimals F → List (Json F) → Checked (List (Trade F))
  read_trades decimals [] = ok []
  read_trades decimals (row ∷ rows) = do
    trade ← read_trade decimals row
    trades ← read_trades decimals rows
    ok (trade ∷ trades)

  -- The part of `evaluate_evidence` under `try`.
  unfoldable pub read_evidence : Decimals F → Json F → Checked (Evidence F)
  read_evidence decimals value = do
    root ← shaped root_keys value
    version ← item (codes "schema_version") root
    raise_if (not (is_version_one decimals version)) schema_invalid
    scope ← get read_scope (codes "scope") root
    recovery ← get read_recovery (codes "recovery") root
    integrity ← get read_integrity (codes "integrity") root
    rows ← get list (codes "trades") root
    trades ← read_trades decimals rows
    ok (record { scope = scope; recovery = recovery; integrity = integrity; trades = trades })
