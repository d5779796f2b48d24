-- ===== src/Tickets.antt =====
-- backend/src/ticketing/tickets/tickets.service.ts, one child per group of its operations.
pub mod Labels
pub mod Routing
pub mod Numbering
pub mod Announce
pub mod Creation
pub mod Dispatch
pub mod Edits
pub mod Progress
pub mod Intake
pub mod Queries
