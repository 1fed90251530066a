-- ===== src/Canary/Accept.antt =====
-- What the report of `evaluate_evidence` in scripts/paper_canary_acceptance.py accepts.
use kairos_deploy.Base.{
  ◌<◌, ◌≡◌, ◌⊎◌, ◌↔◌, inl, inr, refl, sym, subst, ◌∙◌, arith, List, [], ◌∷◌, true, ok, Result-cases,
  ok-injective, append-nil_parts, length,
}
use kairos_deploy.Base.Bytes.{Bytes}
use kairos_deploy.Base.Sets.{contains, Exists, All, bytes_eq_instance}
use kairos_deploy.Base.Json.{Json}
use kairos_deploy.Canary.Evidence.{
  Decimals, schema_invalid, overflow, Trade, Evidence, read_evidence,
}
use kairos_deploy.Canary.Judge.{
  expected_symbols, required_exit_reasons, is_dedicated, is_restart_recovery,
}
use kairos_deploy.Canary.Report.{
  early_failures, pending_reasons_of, Report, is_pass, status_of, base_report,
  invalid_evidence_report, totals_before, totals, failures_of, judged, evaluate_evidence,
}
use kairos_deploy.Canary.Clean.{
  IsClean, IsQuiet, tally-IsQuiet, tally-IsQuiet_from, total, tally-fills, tally-cancels,
}
use kairos_deploy.Canary.Coverage.{IsTripOf, IsExitBy, tally-symbol, tally-reason}
use kairos_deploy.Canary.Reasons.{
  IsSound, IsComplete, early_failures-nil_from, early_failures-nil, late_failures-nil_from,
  late_failures-nil, pending_reasons_of-nil_from, pending_reasons_of-nil,
}

module _ {F : Type 0} (decimals : Decimals F) where
  -- What the canary has to show.
  pub record Qualifies (e : Evidence F) : Type 0 where
    pub dedicated : is_dedicated e.scope ≡ true
    pub recovered : is_restart_recovery e.recovery ≡ true
    pub sound : IsSound e.integrity
    pub some_cancel : 0 < e.integrity.cancel_order_effects
    pub some_fill : 0 < e.integrity.real_fill_events
    pub traded : 0 < length e.trades
    pub clean : All (IsClean decimals) e.trades
    pub symbols : All (λ x. Exists (IsTripOf decimals x) e.trades) expected_symbols
    pub reasons : All (λ x. Exists (IsExitBy decimals x) e.trades) required_exit_reasons
    pub fills :
        total decimals (λ t. t.real_fill_event_count) e.trades ≡ e.integrity.real_fill_events
    pub cancels :
        total decimals (λ t. t.cancel_order_effects) e.trades ≡ e.integrity.cancel_order_effects

All_map :
    {A : Type 0} {P Q : A → Type 0} (f : (a : A) → P a → Q a) (xs : List A) → All P xs → All Q xs
All_map f [] h = tt
All_map f (x ∷ xs) (p, h) = (f x p, All_map f xs h)

module _ {F : Type 0} (decimals : Decimals F) where
  before-IsQuiet :
      (ts : List (Trade F)) → IsQuiet decimals (totals_before decimals ts) → 0 < length ts
  before-IsQuiet [] q = absurd (let h = q.all_marketable in cc)
  before-IsQuiet (t ∷ ts) q = omega arith

  before-IsQuiet_if :
      (ts : List (Trade F)) → 0 < length ts → IsQuiet decimals (totals_before decimals ts)
  before-IsQuiet_if [] h = absurd (omega arith)
  before-IsQuiet_if (t ∷ ts) h = record {
    no_failures = refl;
    all_terminal = refl;
    none_failed = refl;
    all_marketable = ground arith;
  }

  or_never : {A : Type 0} (x : Bytes) → A ⊎ (contains x [] ≡ true) → A
  unfolding contains
  or_never x (inl a) = a
  or_never x (inr h) = cc

  totals-fills :
      (e : Evidence F)
      → (totals decimals e).computed_real_fill_events
        ≡ total decimals (λ t. t.real_fill_event_count) e.trades
  totals-fills e = omega (arith, tally-fills decimals e.trades (totals_before decimals e.trades))

  totals-cancels :
      (e : Evidence F)
      → (totals decimals e).computed_cancel_effects
        ≡ total decimals (λ t. t.cancel_order_effects) e.trades
  totals-cancels e =
      omega (arith, tally-cancels decimals e.trades (totals_before decimals e.trades))

  totals-symbol :
      (e : Evidence F) (x : Bytes)
      → (contains x (totals decimals e).protected_symbols ≡ true)
        ↔ Exists (IsTripOf decimals x) e.trades
  totals-symbol e x =
      let (from, to) = tally-symbol decimals x e.trades (totals_before decimals e.trades) in
      (λ h. or_never x (from h), λ h. to (inl h))

  totals-reason :
      (e : Evidence F) (x : Bytes)
      → (contains x (totals decimals e).observed_exit_reasons ≡ true)
        ↔ Exists (IsExitBy decimals x) e.trades
  totals-reason e x =
      let (from, to) = tally-reason decimals x e.trades (totals_before decimals e.trades) in
      (λ h. or_never x (from h), λ h. to (inl h))

  -- The totals of clean trades.
  totals-IsQuiet :
      (e : Evidence F)
      → 0 < length e.trades
      → All (IsClean decimals) e.trades
      → IsQuiet decimals (totals decimals e)
  totals-IsQuiet e traded clean =
      tally-IsQuiet decimals e.trades _ (before-IsQuiet_if e.trades traded) clean

  failures_of-nil : (e : Evidence F) → Qualifies decimals e → failures_of decimals e ≡ []
  unfolding failures_of
  failures_of-nil e q =
      let quiet = totals-IsQuiet e q.traded q.clean in
      rw (
        early_failures-nil e.scope e.recovery e.integrity q.dedicated q.recovered q.sound,
        late_failures-nil e.integrity (totals decimals e) (totals-fills e ∙ q.fills)
            (totals-cancels e ∙ q.cancels) quiet.all_terminal quiet.none_failed,
        quiet.no_failures,
      )

  totals-IsComplete :
      (e : Evidence F)
      → Qualifies decimals e
      → IsComplete e.recovery e.integrity (totals decimals e)
  totals-IsComplete e q = record {
    recovered = q.recovered;
    symbols =
        All_map {P = λ x. Exists (IsTripOf decimals x) e.trades}
          {Q = λ x. contains x (totals decimals e).protected_symbols ≡ true}
          (λ x. (totals-symbol e x).1) expected_symbols q.symbols;
    reasons =
        All_map {P = λ x. Exists (IsExitBy decimals x) e.trades}
          {Q = λ x. contains x (totals decimals e).observed_exit_reasons ≡ true}
          (λ x. (totals-reason e x).1) required_exit_reasons q.reasons;
    marketable = (totals-IsQuiet e q.traded q.clean).all_marketable;
    some_cancel = q.some_cancel;
    some_fill = q.some_fill;
  }

  failures_of-Qualifies :
      (e : Evidence F)
      → failures_of decimals e ≡ []
      → pending_reasons_of e.recovery e.integrity (totals decimals e) ≡ []
      → Qualifies decimals e
  unfolding failures_of
  failures_of-Qualifies e f p =
      let (early, f1) = append-nil_parts (early_failures e.scope e.recovery e.integrity) _ f in
      let (looped, late) = append-nil_parts (totals decimals e).failures _ f1 in
      let (dedicated, sound) = early_failures-nil_from e.scope e.recovery e.integrity early in
      let (fills, (cancels, (terminal, failed))) =
        late_failures-nil_from e.integrity (totals decimals e) late in
      let complete = pending_reasons_of-nil_from e.recovery e.integrity (totals decimals e) p in
      let (before, clean) =
        tally-IsQuiet_from decimals e.trades (totals_before decimals e.trades) (record {
          no_failures = looped;
          all_terminal = terminal;
          none_failed = failed;
          all_marketable = complete.marketable;
        }) in
      record {
        dedicated = dedicated;
        recovered = complete.recovered;
        sound = sound;
        some_cancel = complete.some_cancel;
        some_fill = complete.some_fill;
        traded = before-IsQuiet e.trades before;
        clean = clean;
        symbols =
            All_map {P = λ x. contains x (totals decimals e).protected_symbols ≡ true}
              {Q = λ x. Exists (IsTripOf decimals x) e.trades} (λ x. (totals-symbol e x).0)
              expected_symbols complete.symbols;
        reasons =
            All_map {P = λ x. contains x (totals decimals e).observed_exit_reasons ≡ true}
              {Q = λ x. Exists (IsExitBy decimals x) e.trades} (λ x. (totals-reason e x).0)
              required_exit_reasons complete.reasons;
        fills = sym (totals-fills e) ∙ fills;
        cancels = sym (totals-cancels e) ∙ cancels;
      }

  status_of-is_pass :
      (failures pending : List Bytes)
      → is_pass (status_of failures pending) ≡ true
      → (failures ≡ []) × (pending ≡ [])
  unfolding status_of
  status_of-is_pass [] [] h = (refl, refl)
  status_of-is_pass [] (x ∷ xs) h = cc
  status_of-is_pass (x ∷ xs) pending h = cc

  judged-Qualifies : (e : Evidence F) → ((judged decimals e).accepted ≡ true) ↔ Qualifies decimals e
  unfolding judged base_report status_of
  judged-Qualifies e = (
    λ h. let (f, p) = status_of-is_pass (failures_of decimals e) _ h in failures_of-Qualifies e f p,
    λ q. rw (
      failures_of-nil e q,
      pending_reasons_of-nil e.recovery e.integrity (totals decimals e) (totals-IsComplete e q),
    ),
  )

  -- A report accepts exactly if the evidence reads and qualifies.
  pub evaluate_evidence-Qualifies :
      (value : Json F) {r : Report}
      → evaluate_evidence decimals value ≡ ok r
      → (r.accepted ≡ true)
        ↔ ((e : Evidence F) × (read_evidence decimals value ≡ ok e) × Qualifies decimals e)
  unfolding evaluate_evidence invalid_evidence_report base_report
  evaluate_evidence-Qualifies value {r} h = elim (Result-cases (read_evidence decimals value)) [
    | inl (e, read) ↦
        let same : judged decimals e ≡ r = ok-injective (rw read at h) in
        let (from, to) = judged-Qualifies e in
        (
          λ a. (e, read, from (subst (λ x. x.accepted ≡ true) (sym same) a)),
          λ (e1, read1, q).
              let eq : e1 ≡ e = ok-injective (sym read1 ∙ read) in
              subst (λ x. x.accepted ≡ true) same (to (subst (λ x. Qualifies decimals x) eq q)),
        )
    | inr (schema_invalid, read) ↦ (
      λ a.
          let same : invalid_evidence_report ≡ r = ok-injective (rw read at h) in
          absurd (let k = subst (λ x. x.accepted ≡ true) (sym same) a in cc),
      λ (e1, read1, q). absurd (let k = sym read1 ∙ read in cc),
    )
    | inr (overflow, read) ↦ absurd (let k = rw read at h in cc)
  ]
