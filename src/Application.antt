-- ===== src/Application.antt =====
-- The application layer of src/app/application: what queries answer and what commands do.
pub mod Dto
pub mod Queries
pub mod Commands
pub mod Repositories
pub mod Provisioning
pub mod Dispatching
