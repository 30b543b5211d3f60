-- ===== src/Idempotency.antt =====
-- The idempotency of commands: src/app/application/idempotency and src/app/infrastructure/idempotency.
pub mod Models
pub mod Policy
pub mod HotStore
pub mod Hex
pub mod Slot
pub mod Redis
pub mod Durable
pub mod Transactional
pub mod Coordinator
pub mod Guarded
pub mod Protector
pub mod Wiring
