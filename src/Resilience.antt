-- ===== src/Resilience.antt =====
-- src/app/infrastructure/resilience
pub mod Breaker
