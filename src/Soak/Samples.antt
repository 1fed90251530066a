-- ===== src/Soak/Samples.antt =====
-- What one sample of `run_soak` in scripts/soak_reconnect.py does to its counters and failures.
use kairos_deploy.Base.{
  ℕ, ◌+◌, ◌≡◌, refl, inl, inr, Bool, true, false, not, ◌&&◌, Option, none, some, List, [], ◌∷◌,
  arith, Bool-cases, all,
}
use kairos_deploy.Base.Bytes.{Bytes}
use kairos_deploy.Base.Sets.{add-ne-nil, bytes_eq_instance}
use kairos_deploy.Base.Count.{one_if}
use kairos_deploy.Soak.Loop.{
  Soak, is_irreversible, keep_durable, sampled, is_available, is_window_readiness_error, union,
}

abbrev pub is_reversible : Bytes → Bool
is_reversible error = not (is_irreversible error)

keep_durable-nil :
    (errors durable : List Bytes)
    → keep_durable errors durable ≡ []
    → (all is_reversible errors ≡ true) × (durable ≡ [])
keep_durable-nil [] durable h = (refl, h)
keep_durable-nil (error ∷ errors) durable h = elim (Bool-cases (is_irreversible error)) [
  | inl bad ↦ absurd (add-ne-nil error (keep_durable errors durable) (rw bad at h))
  | inr fine ↦
      let (rest, none_before) = keep_durable-nil errors durable (rw fine at h) in
      (rw fine rest, none_before)
]

pub union-nil :
    (durable errors : List Bytes) → union durable errors ≡ [] → (durable ≡ []) × (errors ≡ [])
union-nil durable [] h = (h, refl)
union-nil durable (error ∷ errors) h = absurd (add-ne-nil error (union durable errors) h)

-- No error of the observation is irreversible.
abbrev pub is_clean : Option (List Bytes) → Bool
is_clean none = true
is_clean (some errors) = all is_reversible errors

pub sampled-nil :
    (paper : Bool) (o : Option (List Bytes)) (s : Soak)
    → (sampled paper o s).durable_failures ≡ []
    → (is_clean o ≡ true) × (s.durable_failures ≡ [])
unfolding sampled
sampled-nil paper none s h = (refl, h)
sampled-nil paper (some errors) s h = keep_durable-nil errors s.durable_failures h

abbrev pub attempts : Soak → ℕ
attempts s = s.samples + s.transport_errors

pub sampled-attempts :
    (paper : Bool) (o : Option (List Bytes)) (s : Soak)
    → attempts (sampled paper o s) ≡ attempts s + 1
unfolding sampled
sampled-attempts paper none s = omega arith
sampled-attempts paper (some errors) s = omega arith

abbrev pub is_sample : Option (List Bytes) → Bool
is_sample none = false
is_sample (some errors) = true

-- An error that does not count against the service: on paper, one of the readiness of the window.
abbrev pub is_harmless : Bool → Bytes → Bool
is_harmless paper error = paper && is_window_readiness_error error

-- The metrics came, and no error of theirs counts against the service.
abbrev pub is_healthy : Bool → Option (List Bytes) → Bool
is_healthy paper none = false
is_healthy paper (some errors) = all (is_harmless paper) errors

is_available-is_healthy :
    (paper : Bool) (errors : List Bytes)
    → is_available paper errors ≡ all (is_harmless paper) errors
unfolding is_available
is_available-is_healthy true errors = refl
is_available-is_healthy false [] = refl
is_available-is_healthy false (error ∷ errors) = refl

pub sampled-samples :
    (paper : Bool) (o : Option (List Bytes)) (s : Soak)
    → (sampled paper o s).samples ≡ s.samples + one_if (is_sample o)
unfolding sampled
sampled-samples paper none s = omega arith
sampled-samples paper (some errors) s = refl

pub sampled-healthy :
    (paper : Bool) (o : Option (List Bytes)) (s : Soak)
    → (sampled paper o s).healthy ≡ s.healthy + one_if (is_healthy paper o)
unfolding sampled
sampled-healthy paper none s = omega arith
sampled-healthy paper (some errors) s =
    rw (← is_available-is_healthy paper errors) (elim (Bool-cases (is_available paper errors)) [
      | inl fine ↦ rw fine refl
      | inr failing ↦ rw failing (omega arith)
    ])
