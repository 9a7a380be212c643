-- ===== src/Llm.antt =====
-- src/core/llm/resilience.py
pub mod Breaker
pub mod Invoke
pub mod Packet
mod Tests
