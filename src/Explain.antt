-- ===== src/Explain.antt =====
-- src/core/explain: how sure an explanation is.
pub mod Confidence
mod Tests
