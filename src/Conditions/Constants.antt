-- ===== src/Conditions/Constants.antt =====
-- The constants of pkg/conditions/conditions.go.
mod Guardian
mod Platform
mod Bootstrap
mod DayTwo
mod Wrapper
mod Upgrade
pub use Guardian.*
pub use Platform.*
pub use Bootstrap.*
pub use DayTwo.*
pub use Wrapper.*
pub use Upgrade.*
