-- ===== src/Aof.antt =====
-- scripts/runtime_epoch_redis_aof.py: the bounded inventory of a Redis append-only file.
pub mod Codes
pub mod Tokens
pub mod Reader
pub mod Commands
pub mod Scan
pub mod Inventory
mod Tests
