-- ===== src/Domain.antt =====
-- src/app/domain: value objects, the base of aggregates, the two aggregates and the privacy policy.
pub mod Platform
pub mod Username
pub mod DisplayName
pub mod Bio
pub mod Enums
pub mod Timezone
pub mod Base
pub mod Profile
pub mod Settings
pub mod Privacy
