-- ===== src/Api.antt =====
-- src/api: who may call what, in which scope and how often.
pub mod Routes
pub mod Scope
pub mod Roles
pub mod RateLimit
pub mod Idempotency
pub mod Keys
pub mod Oidc
pub mod Auth
mod Tests
