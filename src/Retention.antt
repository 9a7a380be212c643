-- ===== src/Retention.antt =====
-- The retention of logs and summaries: src/core/retention.
pub mod Attempt
pub mod Policy
pub mod Rows
pub mod Store
pub mod Purge
pub mod Run
pub mod Jobs
mod Tests
