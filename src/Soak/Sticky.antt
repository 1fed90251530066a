-- ===== src/Soak/Sticky.antt =====
-- What the summary of `run_soak` in scripts/soak_reconnect.py keeps of the passes.
use kairos_deploy.Base.{
  ℕ, suc, ◌+◌, ◌≡◌, ◌≢◌, refl, sym, ◌∙◌, subst, inl, inr, Bool, true, false, not, ◌||◌, none, some,
  List, [], ◌∷◌, ◌++◌, arith, take, ok, ok-injective, bound, >>=-Bound, passed, raise_if-Passed,
  ◌==◌, if◌then◌else◌, Bool-cases, &&_true, Option-cases, all,
}
use kairos_deploy.Base.Bytes.{Bytes, codes}
use kairos_deploy.Base.Sets.{add-ne-nil, bytes_eq_instance}
use kairos_deploy.Base.Count.{count}
use kairos_deploy.Base.Sorting.{sorted-nil}
use kairos_deploy.Soak.Health.{Floats}
use kairos_deploy.Soak.Samples.{
  union-nil, is_clean, is_sample, is_healthy, attempts, sampled-nil, sampled-attempts,
  sampled-samples, sampled-healthy,
}
use kairos_deploy.Soak.Loop.{
  Soak, initial, sampled, Pass, restarted_if_due, errors_of, run, availability, durable_at_end,
  Summary, summary, run_soak,
}

module _ {F : Type 0} (floats : Floats F) (paper command : Bool) where
  abbrev pub clean_pass : Pass F → Bool
  clean_pass pass = is_clean (errors_of floats paper pass.metrics)

  restarted_if_due_same :
      (pass : Pass F) (s : Soak) {s' : Soak}
      → restarted_if_due command pass s ≡ ok s'
      → (s'.durable_failures ≡ s.durable_failures) × (attempts s' ≡ attempts s)
  unfolding restarted_if_due
  restarted_if_due_same pass s h = ground arith

  restarted_if_due_kept :
      (pass : Pass F) (s : Soak) {s' : Soak}
      → restarted_if_due command pass s ≡ ok s'
      → (s'.samples ≡ s.samples) × (s'.healthy ≡ s.healthy)
  unfolding restarted_if_due
  restarted_if_due_kept pass s h = ground arith

  -- The passes that got metrics, and those of them that showed the service available.
  abbrev pub sample_pass : Pass F → Bool
  sample_pass pass = is_sample (errors_of floats paper pass.metrics)

  abbrev pub healthy_pass : Pass F → Bool
  healthy_pass pass = is_healthy paper (errors_of floats paper pass.metrics)

  -- The passes that the loop took.
  record IsTaken (passes : List (Pass F)) (s s' : Soak) : Type 0 where
    n : ℕ
    counted : attempts s' ≡ attempts s + n
    clean : all clean_pass (take n passes) ≡ true
    before : s.durable_failures ≡ []
    sampled_by : s'.samples ≡ s.samples + count sample_pass (take n passes)
    healthy_by : s'.healthy ≡ s.healthy + count healthy_pass (take n passes)

  run-IsTaken :
      (passes : List (Pass F)) (s : Soak) {s' : Soak}
      → run floats paper command passes s ≡ ok s'
      → s'.durable_failures ≡ []
      → IsTaken passes s s'
  unfolding run
  run-IsTaken [] s h d = cc
  run-IsTaken (pass ∷ passes) s {s'} h d = elim (Bool-cases (pass.time_left || s.samples == 0)) [
    | inl go ↦ elim (>>=-Bound (restarted_if_due command pass s) _ (rw go at h)) [
      | bound s1 e h1 ↦
          let o = errors_of floats paper pass.metrics in
          let later = run-IsTaken passes (sampled paper o s1) h1 d in
          let (of_pass, of_s1) = sampled-nil paper o s1 later.before in
          let (same, as_many) = restarted_if_due_same pass s e in
          let (samples, healthy) = restarted_if_due_kept pass s e in
          record {
            n = suc later.n;
            counted = omega (arith, later.counted, sampled-attempts paper o s1, as_many);
            clean = rw of_pass later.clean;
            before = sym same ∙ of_s1;
            sampled_by = omega (arith, later.sampled_by, sampled-samples paper o s1, samples);
            healthy_by = omega (arith, later.healthy_by, sampled-healthy paper o s1, healthy);
          }
    ]
    | inr stop ↦
        let same : s ≡ s' = ok-injective (rw stop at h) in
        record {
          n = 0;
          counted = subst (λ (x : Soak). attempts x ≡ attempts s + 0) same (omega arith);
          clean = refl;
          before = subst (λ (x : Soak). x.durable_failures ≡ []) (sym same) d;
          sampled_by = subst (λ (x : Soak). x.samples ≡ s.samples + 0) same (omega arith);
          healthy_by = subst (λ (x : Soak). x.healthy ≡ s.healthy + 0) same (omega arith);
        }
  ]

  durable_at_end-nil :
      (minimum : F) (text : Bytes) (s : Soak)
      → durable_at_end floats minimum text s ≡ []
      → (floats.less (availability floats s) minimum ≡ false) × (s.durable_failures ≡ [])
  unfolding durable_at_end
  durable_at_end-nil minimum text s h =
      elim (Bool-cases (floats.less (availability floats s) minimum)) [
        | inl low ↦
            absurd
              (add-ne-nil (codes "availability_below_" ++ text) s.durable_failures (rw low at h))
        | inr enough ↦ (enough, rw enough at h)
      ]

  -- The end of the loop behind a summary.
  run_soak-run :
      (minimum : F) (text : Bytes) (passes : List (Pass F)) {result : Summary}
      → run_soak floats minimum text paper command passes ≡ ok result
      → (s : Soak) × (run floats paper command passes initial ≡ ok s)
        × (summary floats minimum text s ≡ result)
  unfolding run_soak
  run_soak-run minimum text passes h =
      elim (raise_if-Passed
        (not (floats.less (floats.of 0) minimum)
          || not (floats.less minimum (floats.of 1) || floats.same minimum (floats.of 1)))
        _ _ h) [
          | passed _ h1 ↦
              elim (>>=-Bound (run floats paper command passes initial)
                (λ s. ok (summary floats minimum text s)) h1) [
                  | bound s e h2 ↦ (s, e, ok-injective h2)
                ]
        ]

  -- What a summary without terminal errors stands for.
  pub record IsQualified (minimum : F) (passes : List (Pass F)) (result : Summary) : Type 0 where
    pub taken : ℕ
    pub all_attempts : taken ≡ result.samples + result.transport_errors
    pub all_samples : result.samples ≡ count sample_pass (take taken passes)
    pub all_healthy : result.healthy_samples ≡ count healthy_pass (take taken passes)
    pub no_irreversible : all clean_pass (take taken passes) ≡ true
    pub available :
        floats.less
          (if taken == 0 then floats.of 0 else floats.ratio result.healthy_samples taken)
          minimum
        ≡ false

  -- If the observation ends without terminal errors, none of the passes it took, which are as many as
  -- its attempts, showed an irreversible error. Its samples are the passes with metrics, its healthy
  -- samples those whose metrics show no error, or on paper none but of the readiness of the window, and
  -- the share of the healthy ones in the passes is not below the minimum.
  pub run_soak-IsQualified :
      (minimum : F) (text : Bytes) (passes : List (Pass F)) {result : Summary}
      → run_soak floats minimum text paper command passes ≡ ok result
      → result.terminal_errors ≡ []
      → IsQualified minimum passes result
  unfolding summary availability
  run_soak-IsQualified minimum text passes {result} h clean =
      let (s, e, same) = run_soak-run minimum text passes h in
      let clean1 : (summary floats minimum text s).terminal_errors ≡ [] =
        subst (λ (x : Summary). x.terminal_errors ≡ []) (sym same) clean in
      let (durable, last) = union-nil _ s.last_errors (sorted-nil _ clean1) in
      let (enough, kept) = durable_at_end-nil minimum text s durable in
      let t = run-IsTaken passes initial e kept in
      let total : t.n ≡ s.samples + s.transport_errors = omega (arith, t.counted) in
      subst (IsQualified minimum passes) same (record {
        taken = t.n;
        all_attempts = total;
        all_samples = omega (arith, t.sampled_by);
        all_healthy = omega (arith, t.healthy_by);
        no_irreversible = t.clean;
        available = rw total enough;
      })

  abbrev pub has_metrics : Pass F → Bool
  has_metrics pass = elim pass.metrics [ none ↦ false | some metrics ↦ true ]

  restarted_if_due-samples :
      (pass : Pass F) (s : Soak) {s' : Soak}
      → restarted_if_due command pass s ≡ ok s'
      → s'.samples ≡ s.samples
  unfolding restarted_if_due
  restarted_if_due-samples pass s h = ground arith

  -- Without metrics, the pass leaves the samples as they are.
  unsampled :
      (pass : Pass F) (s : Soak)
      → has_metrics pass ≡ false
      → (sampled paper (errors_of floats paper pass.metrics) s).samples ≡ s.samples
  unfolding sampled
  unsampled pass s h = elim (Option-cases pass.metrics) [
    | inl absent ↦ rw absent refl
    | inr (metrics, present) ↦ let h1 = rw present at h in cc
  ]

  run-ne-ok :
      (passes : List (Pass F)) (s : Soak) {s' : Soak}
      → all (λ pass. not (has_metrics pass)) passes ≡ true
      → s.samples ≡ 0
      → run floats paper command passes s ≢ ok s'
  unfolding run
  run-ne-ok [] s silent zero_samples h = cc
  run-ne-ok (pass ∷ passes) s silent zero_samples h =
      let (first, later) =
        &&_true (not (has_metrics pass)) (all (λ (p : Pass F). not (has_metrics p)) passes)
          silent in
      elim (Bool-cases (pass.time_left || s.samples == 0)) [
        | inl go ↦ elim (>>=-Bound (restarted_if_due command pass s) _ (rw go at h)) [
          | bound s1 e h1 ↦
              run-ne-ok passes (sampled paper (errors_of floats paper pass.metrics) s1) later
                (unsampled pass s1 (ground (arith, first))
                  ∙ (restarted_if_due-samples pass s e ∙ zero_samples))
                h1
        ]
        | inr stop ↦ absurd (ground (arith, stop, zero_samples))
      ]

  -- The observation does not end on passes none of which got metrics, however much time they take.
  pub run_soak-ne-ok :
      (minimum : F) (text : Bytes) (passes : List (Pass F)) {result : Summary}
      → all (λ pass. not (has_metrics pass)) passes ≡ true
      → run_soak floats minimum text paper command passes ≢ ok result
  run_soak-ne-ok minimum text passes silent h =
      let (s, e, same) = run_soak-run minimum text passes h in
      run-ne-ok passes initial silent refl e
