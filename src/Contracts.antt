-- ===== src/Contracts.antt =====
-- Maintenance contracts: backend/src/ticketing/amc.
pub mod Schedule
pub mod Visits
pub mod Removal
pub mod Renewal
pub mod Alerts
pub mod Spacing
pub mod Overlaps
pub mod DailyRun
unfoldable pub use Schedule.*
unfoldable pub use Visits.*
