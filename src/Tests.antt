-- ===== src/Tests.antt =====
-- Examples: the theorems at concrete inputs, and the codec and the platform that they need.
pub mod Wire
pub mod Breaker
pub mod Aggregates
pub mod HotStore
pub mod Durable
pub mod Queries
pub mod Guarded
pub mod Commands
pub mod Provisioning
pub mod Dispatch
pub mod Http
pub mod Tables
pub mod Protector
