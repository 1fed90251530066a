-- ===== src/Epoch/Errors.antt =====
-- The reasons that `EpochError` carries in the modelled parts of scripts/runtime_epoch_worker.py.
use kairos_deploy.Base.{Result}

pub data EpochError : Type 0 where
  fixed_catchup_interval_required finality_clock_regression : EpochError
  runtime_watermark_skew_exceeds_pending_cap epoch_interval_exceeds_fixed_cap : EpochError
  official_closed_bar_fetch_timeout official_closed_bar_fetch_dns_failure : EpochError
  consumer_stopped redis_transport_retry_exhausted : EpochError
  epoch_dispatcher_already_running new_epoch_pending_cap_exceeded non_bar_outbox_rejected :
      EpochError
  outbox_hash_conflict positive_redis_receipt_required : EpochError

abbrev pub Guarded : Type 0 → Type 0
Guarded A = Result EpochError A
