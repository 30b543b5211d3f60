-- ===== src/Http.antt =====
-- The HTTP entry points of src/app/entrypoints/http: what they accept, and what they answer.
pub mod Versions
pub mod RequestId
pub mod Lifecycle
pub mod Identity
pub mod Errors
pub mod Patch
pub mod Routes
