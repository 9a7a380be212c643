-- ===== src/Rca.antt =====
-- src/core/rca: the structural inference of root causes.
pub mod Result
pub mod Observable
pub mod Expectations
pub mod Hypothesis
pub mod Partition
pub mod Outcome
pub mod Builder
pub mod CallGraph
mod Tests
