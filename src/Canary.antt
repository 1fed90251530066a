-- ===== src/Canary.antt =====
-- scripts/paper_canary_acceptance.py: the acceptance of the technical canary from a snapshot of
-- durable evidence.
pub mod Evidence
pub mod Judge
pub mod Report
pub mod Clean
pub mod Coverage
pub mod Reasons
pub mod Accept
pub mod Consistent
mod Tests
