-- ===== src/Soak.antt =====
-- scripts/soak_reconnect.py: the observation of a runtime's health over a time, with a restart of
-- Redis in it, and whether it qualifies.
pub mod Health
pub mod Loop
mod Samples
pub mod Sticky
mod Tests
