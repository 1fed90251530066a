-- ===== src/Epoch/Redis/Retries.antt =====
-- What `runtime_redis_call` of scripts/runtime_epoch_worker.py may end with, and what its telemetry says.
use kairos_deploy.Base.{
  false, ℕ, zero, suc, ◌+◌, ◌≤◌, ◌<◌, ◌≡◌, ◌≢◌, refl, sym, ap, ◌∙◌, subst, inl, inr, true, Option,
  none, some, arith, any, ◌==◌, ==_iff, if◌then◌else◌, Bool-cases,
}
use Prim.Native.Nat.{min}
use kairos_deploy.Base.Bytes.{Bytes, bytes_eq}
use kairos_deploy.Epoch.Redis.Records.{redis_error_class-is_class_name, record_shown}
use kairos_deploy.Epoch.Redis.Rounds.{
  IsLost, stopped, answer, refuse, give_up, stopped_later, retry, attempts_from-Round,
}
use kairos_deploy.Epoch.Redis.{
  DriverError, redis_error_class, FailureRecord, Telemetry, redis_attempts, stages,
  record_redis_failure, sanitized_redis_failure, answered, failing, Moment, Ending, returned,
  exhausted, unreachable, settled, counted_failure, attempts_from, runtime_redis_call,
}

-- The pause behind the attempt was not cut short by the stop event.
abbrev pub IsWaited : {A : Type 0} → Moment A → Type 0
IsWaited m = m.stopped_in_pause ≡ false

recorded-IsShown :
    (stage : Bytes) (elapsed attempt : ℕ) (e : DriverError) (t : Telemetry)
    → any (bytes_eq stage) stages ≡ true
    → attempt + 1 ≤ redis_attempts
    → sanitized_redis_failure (counted_failure stage elapsed e attempt t).last_failure
      ≡ (counted_failure stage elapsed e attempt t).last_failure
recorded-IsShown stage elapsed attempt e t known few =
    record_shown stage elapsed (redis_error_class e) (attempt + 1)
      (record t { transport_failures = t.transport_failures + 1 }) known (omega arith) few
      (redis_error_class-is_class_name e)

module _ {A : Type 0} (moments : ℕ → Moment A) (stage : Bytes) where
  -- What holds of an attempt and of those behind it.
  failures_continue :
      (C : Moment A → Type 0) (attempt end : ℕ)
      → C (moments attempt)
      → ((k : ℕ) → attempt + 1 ≤ k → k < end → C (moments k))
      → (k : ℕ) → attempt ≤ k
      → k < end
      → C (moments k)
  failures_continue C attempt end first later k from until = elim (Bool-cases (k == attempt)) [
    | inl same ↦ subst (λ (j : ℕ). C (moments j)) (sym ((==_iff k attempt).0 same)) first
    | inr other ↦ later k (ground (arith, other, from)) until
  ]

  -- The answer came after `tries` connectivity failures.
  pub record IsAnswer (left attempt : ℕ) (t t' : Telemetry) (a : A) : Type 0 where
    pub tries : ℕ
    pub within : tries < left
    pub earlier : (k : ℕ) → attempt ≤ k → k < attempt + tries → IsLost (moments k)
    pub waited : (k : ℕ) → attempt ≤ k → k < attempt + tries → IsWaited (moments k)
    pub made : (moments (attempt + tries)).stopped ≡ false
    pub answered_by : (moments (attempt + tries)).reply ≡ answered a
    pub failures : t'.transport_failures ≡ t.transport_failures + tries
    pub recovered :
        t'.recoveries ≡ (if attempt + tries == 0 then t.recoveries else t.recoveries + 1)
    pub clean : t'.last_failure ≡ none

  returned-IsAnswer :
      (left attempt : ℕ) (t : Telemetry) {t' : Telemetry} {a : A}
      → attempts_from left attempt moments stage t ≡ (t', returned a)
      → IsAnswer left attempt t t' a
  unfolding attempts_from record_redis_failure
  returned-IsAnswer zero attempt t h = cc
  returned-IsAnswer (suc left) attempt t {t'} {a} h =
      elim (attempts_from-Round moments stage left attempt t) [
        | stopped e ↦ cc
        | answer b made r e ↦
            let joined : (settled attempt t, returned b) ≡ (t', returned a) = sym e ∙ h in
            let same : settled attempt t ≡ t' = ap (λ (p : Telemetry × Ending A). p.0) joined in
            let b_is_a : b ≡ a = cc in
            subst (λ (u : Telemetry). IsAnswer (suc left) attempt t u a) same
              (record {
                tries = 0;
                within = omega arith;
                earlier = λ k from until. absurd (omega (arith, from, until));
                waited = λ k from until. absurd (omega (arith, from, until));
                made = subst (λ (k : ℕ). (moments k).stopped ≡ false) (omega arith) made;
                answered_by =
                    subst (λ (k : ℕ). (moments k).reply ≡ answered a) (omega arith)
                      (rw b_is_a at r);
                failures = omega arith;
                recovered =
                    ap (λ (k : ℕ). if k == 0 then t.recoveries else t.recoveries + 1) (omega arith);
                clean = refl;
              })
        | refuse _ _ _ e ↦ cc
        | give_up _ _ _ _ _ e ↦ cc
        | stopped_later _ e ↦ cc
        | retry e0 _ transport made go reply e ↦
            let i =
              returned-IsAnswer left (attempt + 1)
                (counted_failure stage (moments attempt).elapsed e0 attempt t) (sym e ∙ h) in
            record {
              tries = suc i.tries;
              within = omega (arith, i.within);
              earlier = λ k from until.
                  failures_continue IsLost attempt (attempt + suc i.tries)
                    (made, (e0, reply, transport))
                    (λ k' from' until'. i.earlier k' from' (omega (arith, until'))) k from until;
              waited = λ k from until.
                  failures_continue IsWaited attempt (attempt + suc i.tries) go
                    (λ k' from' until'. i.waited k' from' (omega (arith, until'))) k from until;
              made = subst (λ (k : ℕ). (moments k).stopped ≡ false) (omega arith) i.made;
              answered_by =
                  subst (λ (k : ℕ). (moments k).reply ≡ answered a) (omega arith) i.answered_by;
              failures = omega (arith, i.failures);
              recovered =
                  i.recovered
                  ∙ ap (λ (k : ℕ). if k == 0 then t.recoveries else t.recoveries + 1) (omega arith);
              clean = i.clean;
            }
      ]

  -- The record of the failure of the third attempt.
  pub record IsOfThird (r : Option FailureRecord) : Type 0 where
    pub e : DriverError
    pub f : FailureRecord
    pub reply : (moments 2).reply ≡ failing e
    pub carried : r ≡ some f
    pub stage_of : f.stage ≡ stage
    pub class_of : f.error_class ≡ redis_error_class e
    pub time_of : f.elapsed_ms ≡ min 86_400_000 (moments 2).elapsed
    pub attempts_of : f.attempts ≡ 3

  pub record IsExhausted (attempt : ℕ) (t t' : Telemetry) (r : Option FailureRecord) : Type 0 where
    pub shown : r ≡ t'.last_failure
    pub lost : (k : ℕ) → attempt ≤ k → k < redis_attempts → IsLost (moments k)
    pub waited : (k : ℕ) → attempt ≤ k → k + 1 < redis_attempts → IsWaited (moments k)
    pub last : IsOfThird r
    pub all_failed : t'.transport_failures + attempt ≡ t.transport_failures + redis_attempts
    pub kept : t'.recoveries ≡ t.recoveries

  exhausted-IsExhausted :
      (left attempt : ℕ) (t : Telemetry) {t' : Telemetry} {r : Option FailureRecord}
      → any (bytes_eq stage) stages ≡ true
      → attempts_from left attempt moments stage t ≡ (t', exhausted r)
      → IsExhausted attempt t t' r
  unfolding attempts_from record_redis_failure
  exhausted-IsExhausted zero attempt t known h = cc
  exhausted-IsExhausted (suc left) attempt t {t'} {r} known h =
      elim (attempts_from-Round moments stage left attempt t) [
        | stopped e ↦ cc
        | answer a _ r e ↦ cc
        | refuse _ _ _ e ↦ cc
        | give_up e0 at_end transport made reply e ↦
            let third : attempt ≡ 2 = omega (arith, at_end) in
            let t1 = counted_failure stage (moments attempt).elapsed e0 attempt t in
            let shown : sanitized_redis_failure t1.last_failure ≡ t1.last_failure =
              recorded-IsShown stage (moments attempt).elapsed attempt e0 t known (omega arith) in
            let joined : (t1, exhausted (sanitized_redis_failure t1.last_failure))
                ≡ (t', exhausted r) =
              sym e ∙ h in
            let same : t1 ≡ t' = ap (λ (p : Telemetry × Ending A). p.0) joined in
            let carried : sanitized_redis_failure t1.last_failure ≡ r = cc in
            subst (λ (u : Telemetry). IsExhausted attempt t u r) same
              (record {
                shown = sym carried ∙ shown;
                lost = λ k from until.
                    failures_continue IsLost attempt redis_attempts (made, (e0, reply, transport))
                      (λ k' from' until'. absurd (omega (arith, at_end, from', until'))) k from
                      until;
                waited = λ k from until. absurd (omega (arith, at_end, from, until));
                last = record {
                  e = e0;
                  f = _;
                  reply = subst (λ (k : ℕ). (moments k).reply ≡ failing e0) third reply;
                  carried = sym carried ∙ shown;
                  stage_of = refl;
                  class_of = refl;
                  time_of = ap (λ (k : ℕ). min 86_400_000 (moments k).elapsed) third;
                  attempts_of = at_end;
                };
                all_failed = omega arith;
                kept = refl;
              })
        | stopped_later _ e ↦ cc
        | retry e0 _ transport made go reply e ↦
            let i =
              exhausted-IsExhausted left (attempt + 1)
                (counted_failure stage (moments attempt).elapsed e0 attempt t) known (sym e ∙ h) in
            record {
              shown = i.shown;
              lost = λ k from until.
                  failures_continue IsLost attempt redis_attempts (made, (e0, reply, transport))
                    i.lost k from until;
              waited = λ k from until.
                  failures_continue IsWaited attempt 2 go
                    (λ k' from' until'. i.waited k' from' (omega (arith, until'))) k from
                    (omega (arith, until));
              last = i.last;
              all_failed = omega (arith, i.all_failed);
              kept = i.kept;
            }
      ]

  reaches_end :
      (left attempt : ℕ) (t : Telemetry) {t' : Telemetry}
      → attempt + left ≡ redis_attempts
      → attempt < redis_attempts
      → attempts_from left attempt moments stage t ≢ (t', unreachable)
  reaches_end zero attempt t room more h = absurd (omega (arith, room, more))
  reaches_end (suc left) attempt t {t'} room more h =
      elim (attempts_from-Round moments stage left attempt t) [
        | stopped e ↦ cc
        | answer a _ r e ↦ cc
        | refuse _ _ _ e ↦ cc
        | give_up e0 at_end _ _ _ e ↦ cc
        | stopped_later _ e ↦ cc
        | retry e0 further _ _ _ _ e ↦
            reaches_end left (attempt + 1)
              (counted_failure stage (moments attempt).elapsed e0 attempt t) (omega arith)
              (omega arith) (sym e ∙ h)
      ]

-- A call that returns does so on an answer within three attempts; each attempt before it met a
-- connectivity failure, and the stop event came neither before these attempts nor in the pauses
-- behind them. Its telemetry counts the failures, and one recovery if there were any, and keeps no
-- failure.
pub runtime_redis_call-IsAnswer :
    {A : Type 0} (moments : ℕ → Moment A) (stage : Bytes) (t : Telemetry) {t' : Telemetry} {a : A}
    → runtime_redis_call moments stage t ≡ (t', returned a)
    → IsAnswer moments stage redis_attempts 0 t t' a
unfolding runtime_redis_call
runtime_redis_call-IsAnswer moments stage t h = returned-IsAnswer moments stage redis_attempts 0 t h

-- A call for a known stage that gives up met a connectivity failure at each of its three attempts,
-- all counted, and the stop event came neither before these attempts nor in the pauses between
-- them; its error carries the record of the third: its class, time, stage and number.
pub runtime_redis_call-IsExhausted :
    {A : Type 0} (moments : ℕ → Moment A) (stage : Bytes) (t : Telemetry) {t' : Telemetry}
    {r : Option FailureRecord}
    → any (bytes_eq stage) stages ≡ true
    → runtime_redis_call moments stage t ≡ (t', exhausted r)
    → IsExhausted moments stage 0 t t' r
unfolding runtime_redis_call
runtime_redis_call-IsExhausted moments stage t known h =
    exhausted-IsExhausted moments stage redis_attempts 0 t known h

-- The loop never runs off its end.
pub runtime_redis_call-ne-unreachable :
    {A : Type 0} (moments : ℕ → Moment A) (stage : Bytes) (t : Telemetry) {t' : Telemetry}
    → runtime_redis_call moments stage t ≢ (t', unreachable)
unfolding runtime_redis_call
runtime_redis_call-ne-unreachable moments stage t h =
    reaches_end moments stage redis_attempts 0 t refl (omega arith) h
