-- ===== src/Application/Dispatching.antt =====
-- The dispatching of commands: src/app/application/dispatching, and the codec and the middleware of
-- src/app/application/idempotency. The values that handlers return are of any one type `Value`.
pub mod Codec
pub mod Registry
pub mod Fingerprint
pub mod Execution
pub mod Wiring
