-- ===== src/Epoch/Redis/Rounds.antt =====
-- What one round of the loop in `runtime_redis_call` of scripts/runtime_epoch_worker.py does.
use kairos_deploy.Base.{ℕ, suc, ◌+◌, ◌≡◌, ◌≢◌, refl, inl, inr, true, false, arith, ◌==◌, Bool-cases}
use kairos_deploy.Base.Bytes.{Bytes}
use kairos_deploy.Epoch.Redis.{
  DriverError, redis_transport_failure, Telemetry, redis_attempts, sanitized_redis_failure, Reply,
  answered, failing, Moment, Ending, returned, raised, cancelled, exhausted, settled,
  counted_failure, replied, attempts_from,
}

-- The attempt was made, and met a connectivity failure.
abbrev pub IsLost : {A : Type 0} → Moment A → Type 0
IsLost m =
    (m.stopped ≡ false)
    × ((e : DriverError) × (m.reply ≡ failing e) × (redis_transport_failure e ≡ true))

-- What one round of the loop did.
pub data Round {A : Type 0} (left attempt : ℕ) (moments : ℕ → Moment A) (stage : Bytes)
    (t : Telemetry) (out : Telemetry × Ending A) : Type 0 where
  stopped : out ≡ (t, cancelled) → Round left attempt moments stage t out
  answer :
      (a : A)
      → (moments attempt).stopped ≡ false
      → (moments attempt).reply ≡ answered a
      → out ≡ (settled attempt t, returned a)
      → Round left attempt moments stage t out
  refuse :
      (e : DriverError)
      → redis_transport_failure e ≡ false
      → (moments attempt).reply ≡ failing e
      → out ≡ (t, raised e)
      → Round left attempt moments stage t out
  give_up :
      (e : DriverError)
      → attempt + 1 ≡ redis_attempts
      → redis_transport_failure e ≡ true
      → (moments attempt).stopped ≡ false
      → (moments attempt).reply ≡ failing e
      → out ≡ (
        counted_failure stage (moments attempt).elapsed e attempt t,
        exhausted (
            sanitized_redis_failure
              (counted_failure stage (moments attempt).elapsed e attempt t).last_failure),
      )
      → Round left attempt moments stage t out
  stopped_later :
      (e : DriverError)
      → out ≡ (counted_failure stage (moments attempt).elapsed e attempt t, cancelled)
      → Round left attempt moments stage t out
  retry :
      (e : DriverError)
      → attempt + 1 ≢ redis_attempts
      → redis_transport_failure e ≡ true
      → (moments attempt).stopped ≡ false
      → (moments attempt).stopped_in_pause ≡ false
      → (moments attempt).reply ≡ failing e
      → out
        ≡ attempts_from left
            (attempt + 1)
            moments
            stage
            (counted_failure stage (moments attempt).elapsed e attempt t)
      → Round left attempt moments stage t out

module _ {A : Type 0} (moments : ℕ → Moment A) (stage : Bytes) where
  replied-Round :
      (left attempt : ℕ) (t : Telemetry) (r : Reply A)
      → (moments attempt).stopped ≡ false
      → (moments attempt).reply ≡ r
      → Round left attempt moments stage t (
          replied stage attempt
            (moments attempt)
            r
            t
            (λ t'. attempts_from left (attempt + 1) moments stage t'))
  replied-Round left attempt t (answered a) made r = answer a made r refl
  replied-Round left attempt t (failing e) made r = elim (Bool-cases (redis_transport_failure e)) [
    | inl transport ↦ elim (Bool-cases (attempt + 1 == redis_attempts)) [
      | inl last ↦ give_up e (ground (arith, last)) transport made r (rw transport (rw last refl))
      | inr more ↦ elim (Bool-cases (moments attempt).stopped_in_pause) [
        | inl stop ↦ stopped_later e (rw transport (rw more (rw stop refl)))
        | inr go ↦
            retry e (ground (arith, more)) transport made go r (rw transport (rw more (rw go refl)))
      ]
    ]
    | inr other ↦ refuse e other r (rw other refl)
  ]

  pub attempts_from-Round :
      (left attempt : ℕ) (t : Telemetry)
      → Round left attempt moments stage t (attempts_from (suc left) attempt moments stage t)
  unfolding attempts_from
  attempts_from-Round left attempt t = elim (Bool-cases (moments attempt).stopped) [
    | inl stop ↦ stopped (rw stop refl)
    | inr go ↦ rw go (replied-Round left attempt t (moments attempt).reply go refl)
  ]
