-- ===== src/Resilience.antt =====
-- src/resilience.rs: the circuit breaker, its health, and the retry loop with backoff.
pub mod Breaker
pub mod Retry
