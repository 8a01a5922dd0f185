-- ===== src/Conditions.antt =====
-- The condition vocabulary and its helpers: pkg/conditions.
pub mod Constants
pub mod Vocabulary
pub mod Validate
pub mod Update
pub mod Membership
pub mod Transition
pub mod Replaced
mod Tests
