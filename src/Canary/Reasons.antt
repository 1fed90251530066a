-- ===== src/Canary/Reasons.antt =====
-- When nothing failed and nothing is pending for `evaluate_evidence` in
-- scripts/paper_canary_acceptance.py.
use kairos_deploy.Base.{
  unnegated, negated, ℕ, ◌<◌, ◌≡◌, ◌↔◌, refl, arith, List, [], ◌∷◌, true, false, not, ◌||◌, &&_true,
  append_if-nil, append_if-nil_parts, append-nil_parts, ltb→lt, lt→ltb, ◌==◌, ==_iff,
}
use kairos_deploy.Base.Bytes.{Bytes}
use kairos_deploy.Base.Sets.{contains, All, bytes_eq_instance}
use kairos_deploy.Base.Sorting.{sorted, sorted-nil}
use kairos_deploy.Canary.Evidence.{Scope, Recovery, Integrity}
use kairos_deploy.Canary.Judge.{
  expected_symbols, required_exit_reasons, is_dedicated, is_restart_recovery,
}
use kairos_deploy.Canary.Report.{
  Totals, difference, barrier_failures, unresolved, early_failures, late_failures, is_nonempty,
  pending_reasons_of,
}
use kairos_deploy.Canary.Coverage.{difference-nil}

-- No durable fact counts against the canary.
pub record IsSound (i : Integrity) : Type 0 where
  pub prepared : i.prepared_effects ≡ 0
  pub unapplied : i.failed_effects ≡ 0
  pub duplicates : i.duplicate_client_order_ids ≡ 0
  pub foreign_trades : i.foreign_scope_trades ≡ 0
  pub foreign_effects : i.foreign_scope_effects ≡ 0
  pub public_failures : i.public_failure_events ≡ 0

pub is_nonempty-nil : (xs : List Bytes) → (is_nonempty xs ≡ false) ↔ (xs ≡ [])
is_nonempty-nil [] = (λ h. refl, λ h. refl)
is_nonempty-nil (x ∷ xs) = (λ h. cc, λ h. cc)

-- Nothing is missing of what has to be covered.
missing_nothing :
    (xs ys : List Bytes)
    → (is_nonempty (sorted (difference xs ys)) ≡ false) ↔ All (λ x. contains x ys ≡ true) xs
unfolding sorted
missing_nothing xs ys =
    let (from, to) = difference-nil xs ys in
    (λ h. from (sorted-nil (difference xs ys) ((is_nonempty-nil _).0 h)), λ h. rw (to h))

counted_nothing : (n : ℕ) → not (n == 0) ≡ false → n ≡ 0
counted_nothing n h = ground arith

or_zero : (m n : ℕ) → (not (m == 0) || not (n == 0)) ≡ false → (m ≡ 0) × (n ≡ 0)
or_zero m n h = ground arith

-- A recovery that was proven is behind its barrier.
barrier_failures-nil : (r : Recovery) → is_restart_recovery r ≡ true → barrier_failures r ≡ []
unfolding is_restart_recovery barrier_failures
barrier_failures-nil r h =
    let (present, h1) = &&_true r.present _ h in
    let (completed, h2) = &&_true r.completed _ h1 in
    let (unblocked, h3) = &&_true (not r.entries_blocked) _ h2 in
    rw (present, completed, negated r.entries_blocked unblocked)

pub early_failures-nil_from :
    (scope : Scope) (r : Recovery) (i : Integrity)
    → early_failures scope r i ≡ []
    → (is_dedicated scope ≡ true) × IsSound i
unfolding early_failures
early_failures-nil_from scope r i h =
    let (dedicated, h1) = append_if-nil_parts _ _ _ h in
    let (barrier, h2) = append-nil_parts (barrier_failures r) _ h1 in
    let (resolved, h3) = append_if-nil_parts _ _ _ h2 in
    let (single, h4) = append_if-nil_parts _ _ _ h3 in
    let (foreign, h5) = append_if-nil_parts _ _ _ h4 in
    let last = append_if-nil _ _ h5 in
    let none_left = counted_nothing (unresolved i) resolved in
    let (no_trades, no_effects) = or_zero i.foreign_scope_trades i.foreign_scope_effects foreign in
    (
      unnegated (is_dedicated scope) dedicated,
      record {
        prepared = omega (arith, none_left);
        unapplied = omega (arith, none_left);
        duplicates = counted_nothing i.duplicate_client_order_ids single;
        foreign_trades = no_trades;
        foreign_effects = no_effects;
        public_failures = counted_nothing i.public_failure_events last;
      },
    )

pub early_failures-nil :
    (scope : Scope) (r : Recovery) (i : Integrity)
    → is_dedicated scope ≡ true
    → is_restart_recovery r ≡ true
    → IsSound i
    → early_failures scope r i ≡ []
unfolding early_failures
early_failures-nil scope r i dedicated recovered sound = rw (
  dedicated,
  barrier_failures-nil r recovered,
  sound.prepared,
  sound.unapplied,
  sound.duplicates,
  sound.foreign_trades,
  sound.foreign_effects,
  sound.public_failures,
)

pub late_failures-nil_from :
    (i : Integrity) (s : Totals)
    → late_failures i s ≡ []
    → (s.computed_real_fill_events ≡ i.real_fill_events)
      × ((s.computed_cancel_effects ≡ i.cancel_order_effects)
          × ((s.nonterminal_trades ≡ 0) × (s.failed_lifecycles ≡ 0)))
unfolding late_failures
late_failures-nil_from i s h =
    let (fills, h1) = append_if-nil_parts _ _ _ h in
    let (cancels, h2) = append_if-nil_parts _ _ _ h1 in
    let (terminal, h3) = append_if-nil_parts _ _ _ h2 in
    (
      (==_iff _ _).0 (unnegated _ fills),
      (
        (==_iff _ _).0 (unnegated _ cancels),
        (counted_nothing _ terminal, counted_nothing _ (append_if-nil _ _ h3)),
      ),
    )

pub late_failures-nil :
    (i : Integrity) (s : Totals)
    → s.computed_real_fill_events ≡ i.real_fill_events
    → s.computed_cancel_effects ≡ i.cancel_order_effects
    → s.nonterminal_trades ≡ 0
    → s.failed_lifecycles ≡ 0
    → late_failures i s ≡ []
unfolding late_failures
late_failures-nil i s fills cancels terminal failed =
    rw ((==_iff _ _).1 fills, (==_iff _ _).1 cancels, terminal, failed)

-- Nothing is pending.
pub record IsComplete (r : Recovery) (i : Integrity) (s : Totals) : Type 0 where
  pub recovered : is_restart_recovery r ≡ true
  pub symbols : All (λ x. contains x s.protected_symbols ≡ true) expected_symbols
  pub reasons : All (λ x. contains x s.observed_exit_reasons ≡ true) required_exit_reasons
  pub marketable : s.marketable_ioc_limit ≡ true
  pub some_cancel : 0 < i.cancel_order_effects
  pub some_fill : 0 < i.real_fill_events

pub pending_reasons_of-nil_from :
    (r : Recovery) (i : Integrity) (s : Totals) → pending_reasons_of r i s ≡ [] → IsComplete r i s
unfolding pending_reasons_of
pending_reasons_of-nil_from r i s h =
    let (recovered, h1) = append_if-nil_parts _ _ _ h in
    let (symbols, h2) = append_if-nil_parts _ _ _ h1 in
    let (reasons, h3) = append_if-nil_parts _ _ _ h2 in
    let (marketable, h4) = append_if-nil_parts _ _ _ h3 in
    let (cancel, h5) = append_if-nil_parts _ _ _ h4 in
    record {
      recovered = unnegated (is_restart_recovery r) recovered;
      symbols = (missing_nothing expected_symbols s.protected_symbols).0 symbols;
      reasons = (missing_nothing required_exit_reasons s.observed_exit_reasons).0 reasons;
      marketable = unnegated s.marketable_ioc_limit marketable;
      some_cancel = ltb→lt 0 i.cancel_order_effects (unnegated _ cancel);
      some_fill = ltb→lt 0 i.real_fill_events (unnegated _ (append_if-nil _ _ h5));
    }

pub pending_reasons_of-nil :
    (r : Recovery) (i : Integrity) (s : Totals) → IsComplete r i s → pending_reasons_of r i s ≡ []
unfolding pending_reasons_of
pending_reasons_of-nil r i s c = rw (
  c.recovered,
  (missing_nothing expected_symbols s.protected_symbols).1 c.symbols,
  (missing_nothing required_exit_reasons s.observed_exit_reasons).1 c.reasons,
  c.marketable,
  lt→ltb 0 i.cancel_order_effects c.some_cancel,
  lt→ltb 0 i.real_fill_events c.some_fill,
)
