-- ===== src/Canary/Consistent.antt =====
-- The status of a report of scripts/paper_canary_acceptance.py and its reasons.
use kairos_deploy.Base.{
  ◌≡◌, ◌≢◌, ◌↔◌, inl, inr, refl, subst, List, [], ◌∷◌, true, ok, Result-cases, ok-injective,
}
use kairos_deploy.Base.Bytes.{Bytes, codes}
use kairos_deploy.Base.Sets.{add, add-ne-nil, bytes_eq_instance}
use kairos_deploy.Base.Sorting.{sorted, sorted-nil}
use kairos_deploy.Base.Json.{Json}
use kairos_deploy.Canary.Evidence.{Decimals, schema_invalid, overflow, Evidence, read_evidence}
use kairos_deploy.Canary.Report.{
  fail, updated, distinct, is_pass, status_of, Coverage, Counters, Report, base_report,
  invalid_evidence_report, failures_of, judged, evaluate_evidence,
}

-- The status and the reasons of a report agree.
pub record IsConsistent (r : Report) : Type 0 where
  pub failing : (r.status ≡ fail) ↔ (r.failure_reasons ≢ [])
  pub accepting : (r.accepted ≡ true) ↔ ((r.failure_reasons ≡ []) × (r.pending_reasons ≡ []))

updated-nil : (set xs : List Bytes) → updated set xs ≡ [] → (set ≡ []) × (xs ≡ [])
updated-nil set [] h = (h, refl)
updated-nil set (x ∷ xs) h = absurd (add-ne-nil x set (updated-nil (add x set) xs h).0)

distinct-nil : (xs : List Bytes) → (sorted (distinct xs) ≡ []) ↔ (xs ≡ [])
unfolding sorted
distinct-nil xs = (λ h. (updated-nil [] xs (sorted-nil _ h)).1, λ h. rw h)

status_of-fail :
    (failures pending : List Bytes) → (status_of failures pending ≡ fail) ↔ (failures ≢ [])
unfolding status_of
status_of-fail [] [] = (λ h. cc, λ h. absurd (h refl))
status_of-fail [] (x ∷ xs) = (λ h. cc, λ h. absurd (h refl))
status_of-fail (x ∷ xs) pending = (λ h e. cc, λ h. refl)

status_of-pass :
    (failures pending : List Bytes)
    → (is_pass (status_of failures pending) ≡ true) ↔ ((failures ≡ []) × (pending ≡ []))
unfolding status_of
status_of-pass [] [] = (λ h. (refl, refl), λ h. refl)
status_of-pass [] (x ∷ xs) = (λ h. cc, λ (f, p). cc)
status_of-pass (x ∷ xs) pending = (λ h. cc, λ (f, p). cc)

base_report-IsConsistent :
    (failures pending : List Bytes) (coverage : Coverage) (counters : Counters)
    → IsConsistent (base_report (status_of failures pending) pending failures coverage counters)
unfolding base_report
base_report-IsConsistent failures pending coverage counters =
    let (f_from, f_to) = distinct-nil failures in
    let (p_from, p_to) = distinct-nil pending in
    let (fail_from, fail_to) = status_of-fail failures pending in
    let (pass_from, pass_to) = status_of-pass failures pending in
    record {
      failing = (λ h e. fail_from h (f_from e), λ h. fail_to (λ e. h (f_to e)));
      accepting = (
        λ h. (f_to (pass_from h).0, p_to (pass_from h).1),
        λ (f, p). pass_to (f_from f, p_from p),
      );
    }

module _ {F : Type 0} (decimals : Decimals F) where
  judged-IsConsistent : (e : Evidence F) → IsConsistent (judged decimals e)
  unfolding judged
  judged-IsConsistent e = base_report-IsConsistent (failures_of decimals e) _ _ _

  invalid_evidence_report-IsConsistent : IsConsistent invalid_evidence_report
  unfolding invalid_evidence_report status_of
  invalid_evidence_report-IsConsistent =
      base_report-IsConsistent (codes "EVIDENCE_SCHEMA_INVALID" ∷ []) [] _ _

  -- A report fails exactly if it gives a failure, and accepts exactly if it gives no reason at all.
  pub evaluate_evidence-IsConsistent :
      (value : Json F) {r : Report} → evaluate_evidence decimals value ≡ ok r → IsConsistent r
  unfolding evaluate_evidence
  evaluate_evidence-IsConsistent value h = elim (Result-cases (read_evidence decimals value)) [
    | inl (e, read) ↦ subst IsConsistent (ok-injective (rw read at h)) (judged-IsConsistent e)
    | inr (schema_invalid, read) ↦
        subst IsConsistent (ok-injective (rw read at h)) invalid_evidence_report-IsConsistent
    | inr (overflow, read) ↦ absurd (let k = rw read at h in cc)
  ]
