-- ===== src/Epoch.antt =====
-- scripts/runtime_epoch_worker.py: the worker that keeps a runtime epoch's bars current.
pub mod Errors
pub mod Catchup
pub mod Failures
pub mod Circuit
pub mod Redis
pub mod Outbox
pub mod Transport
mod Tests
