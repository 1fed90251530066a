-- ===== src/Epoch/Circuit/Tally.antt =====
-- The counters of `SourceCircuit` in scripts/runtime_epoch_worker.py, read off the history of rounds.
use Prim.Native.Nat.{min}
use kairos_deploy.Base.{
  ℕ, zero, suc, ◌-◌, ◌≡◌, refl, ap, ◌∙◌, subst, inl, inr, Bool, true, false, Option, none, some,
  List, [], ◌∷◌, arith, ok, ok-injective, bound, >>=-Bound, length, if◌then◌else◌, ◌==◌,
  Option-cases,
}
use kairos_deploy.Epoch.Failures.{
  Reason, fetch_timeout, fetch_dns_failure, Failure, source_wait_reason, reason_eq,
}
use kairos_deploy.Epoch.Circuit.{
  Circuit, counted, failed, succeeded, wait_seconds, at_index, delay, Outcome, round_failed,
  round_succeeded, rounds,
}

abbrev failed_round : Outcome → Bool
failed_round (round_failed f) = true
failed_round round_succeeded = false

abbrev is_reason : Reason → Option Reason → Bool
is_reason r none = false
is_reason r (some q) = reason_eq r q

abbrev pub waited_for : Reason → Outcome → Bool
waited_for r (round_failed f) = is_reason r (source_wait_reason f)
waited_for r round_succeeded = false

-- How many rounds pass the test, ever and since the last one that does not.
abbrev pub count : (Outcome → Bool) → List Outcome → ℕ
count p [] = 0
count p (o ∷ older) = if p o then suc (count p older) else count p older

abbrev pub trailing : (Outcome → Bool) → List Outcome → ℕ
trailing p [] = 0
trailing p (o ∷ older) = if p o then suc (trailing p older) else 0

-- Successes right after a failed round.
abbrev recovered : List Outcome → ℕ
recovered [] = 0
recovered (round_failed f ∷ older) = recovered older
recovered (round_succeeded ∷ older) =
    if trailing failed_round older == 0 then recovered older else suc (recovered older)

pub record IsTally (history : List Outcome) (c : Circuit) : Type 0 where
  pub timeouts_all : c.timeouts ≡ count (waited_for fetch_timeout) history
  pub dns_all : c.dns_failures ≡ count (waited_for fetch_dns_failure) history
  pub recoveries_all : c.recoveries ≡ recovered history
  pub in_a_row : c.consecutive ≡ trailing failed_round history
  pub timeouts_in_a_row : c.consecutive_timeouts ≡ trailing (waited_for fetch_timeout) history
  pub dns_in_a_row : c.consecutive_dns_failures ≡ trailing (waited_for fetch_dns_failure) history

counted-IsTally :
    (history : List Outcome) (f : Failure) (c : Circuit) (r : Reason)
    → IsTally history c
    → source_wait_reason f ≡ some r
    → IsTally (round_failed f ∷ history) (counted r c)
counted-IsTally history f c fetch_timeout i h = ground arith
counted-IsTally history f c fetch_dns_failure i h = ground arith

failed-IsTally :
    (history : List Outcome) (f : Failure) (c : Circuit) (r : Reason) (c' : Circuit)
    → IsTally history c
    → failed f c ≡ ok (r, c')
    → IsTally (round_failed f ∷ history) c'
unfolding failed
failed-IsTally history f c r c' i h = elim (Option-cases (source_wait_reason f)) [
  | inl no_reason ↦ let h1 = rw no_reason at h in cc
  | inr (q, e) ↦
      let h1 = rw e at h in
      let same : q ≡ r = cc in
      let c_same : counted q c ≡ c' = cc in
      subst (IsTally (round_failed f ∷ history)) c_same (counted-IsTally history f c q i e)
]

succeeded-IsTally :
    (history : List Outcome) (c : Circuit)
    → IsTally history c
    → IsTally (round_succeeded ∷ history) (succeeded c)
unfolding succeeded
succeeded-IsTally history c i = ground arith

-- The counters say how many rounds failed for each reason, ever and in a row, and how many successes
-- followed a failed round.
pub rounds-IsTally :
    (history : List Outcome) {c : Circuit} → rounds history ≡ ok c → IsTally history c
unfolding rounds
rounds-IsTally [] h = subst (IsTally []) (ok-injective h) (ground arith)
rounds-IsTally (round_failed f ∷ older) h = elim (>>=-Bound (rounds older) _ h) [
  | bound c e h1 ↦ elim (>>=-Bound (failed f c) _ h1) [
    | bound (r, c') e1 h2 ↦
        subst (IsTally (round_failed f ∷ older)) (ok-injective h2)
          (failed-IsTally older f c r c' (rounds-IsTally older e) e1)
  ]
]
rounds-IsTally (round_succeeded ∷ older) h = elim (>>=-Bound (rounds older) _ h) [
  | bound c e h1 ↦
      subst (IsTally (round_succeeded ∷ older)) (ok-injective h1)
        (succeeded-IsTally older c (rounds-IsTally older e))
]

-- The pause after so many failed rounds in a row.
abbrev pub pause : ℕ → ℕ
pause zero = 5
pause (suc zero) = 5
pause (suc (suc zero)) = 15
pause (suc (suc (suc zero))) = 30
pause (suc (suc (suc (suc n)))) = 60

delay-pause : (n : ℕ) → at_index 0 (min (n - 1) (length wait_seconds - 1)) wait_seconds ≡ pause n
delay-pause zero = refl
delay-pause (suc zero) = refl
delay-pause (suc (suc zero)) = refl
delay-pause (suc (suc (suc zero))) = refl
delay-pause (suc (suc (suc (suc n)))) =
    let capped : min (suc (suc (suc (suc n))) - 1) (length wait_seconds - 1) ≡ 3 = omega arith in
    ap (λ (i : ℕ). at_index 0 i wait_seconds) capped

-- The pause depends on the failed rounds in a row alone: 5, 15, 30, then 60 seconds.
pub rounds-delay :
    (history : List Outcome) {c : Circuit}
    → rounds history ≡ ok c
    → delay c ≡ pause (trailing failed_round history)
unfolding delay
rounds-delay history {c} h =
    let tally = rounds-IsTally history h in delay-pause c.consecutive ∙ ap pause tally.in_a_row
