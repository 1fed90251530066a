-- ===== src/Epoch/Redis/Records.antt =====
-- Which failure records scripts/runtime_epoch_worker.py may show: `record_redis_failure` and
-- `sanitized_redis_failure`.
use Prim.Native.Nat.{min}
use kairos_deploy.Base.{
  ℕ, ◌≤◌, ◌≡◌, refl, inl, inr, true, Option, none, some, arith, any, leb, Bool-cases,
}
use kairos_deploy.Base.Bytes.{Bytes, bytes_eq}
use kairos_deploy.Epoch.Redis.{
  DriverError, is_class_name, redis_error_class, FailureRecord, Telemetry, redis_attempts, stages,
  record_redis_failure, sanitized_redis_failure,
}

pub redis_error_class-is_class_name : (e : DriverError) → is_class_name (redis_error_class e) ≡ true
unfolding redis_error_class is_class_name
redis_error_class-is_class_name e = elim (Bool-cases (is_class_name e.class_name)) [
  | inl fine ↦ rw fine fine
  | inr odd ↦ rw odd refl
]

-- A record of a known stage, with up to three attempts and the name of a class, may be shown.
pub record_shown :
    (stage : Bytes) (elapsed : ℕ) (class : Bytes) (attempts : ℕ) (t : Telemetry)
    → any (bytes_eq stage) stages ≡ true
    → 1 ≤ attempts
    → attempts ≤ redis_attempts
    → is_class_name class ≡ true
    → sanitized_redis_failure (record_redis_failure stage elapsed class attempts t).last_failure
      ≡ (record_redis_failure stage elapsed class attempts t).last_failure
unfolding record_redis_failure sanitized_redis_failure
record_shown stage elapsed class attempts t known least most named =
    let small : leb (min 86_400_000 elapsed) 86_400_000 ≡ true = ground arith in
    let at_most : leb attempts redis_attempts ≡ true = ground arith in
    let at_least : leb 1 attempts ≡ true = ground arith in
    rw (known, small, at_most, at_least, named) refl

-- What is shown names a class.
pub sanitized-is_class_name :
    (r : Option FailureRecord) {f : FailureRecord}
    → sanitized_redis_failure r ≡ some f
    → is_class_name f.error_class ≡ true
unfolding sanitized_redis_failure
sanitized-is_class_name none h = cc
sanitized-is_class_name (some r) {f} h = elim (Bool-cases (is_class_name r.error_class)) [
  | inl fine ↦ ground (arith, h)
  | inr odd ↦ ground (arith, h)
]
