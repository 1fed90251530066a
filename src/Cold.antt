-- ===== src/Cold.antt =====
-- scripts/cold_redis_acceptance.py: the reader of Redis replies, the scan of a stream for a message, and
-- the layout of a volume.
pub mod Resp
pub mod Scan
pub mod Manifest
pub mod Layout
