-- ===== src/Core.antt =====
-- The shared library of the services (core/).
pub mod Result
pub mod Session
pub mod Idempotency
pub mod Outbox
pub mod RateLimiter
pub mod Http
pub mod Security
pub mod DateTime
