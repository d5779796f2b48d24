-- ===== src/Machines.antt =====
-- Machines with their warranties and the engines that watch them: backend/src/ticketing/equipment.
pub mod Warranty
pub mod Engines
pub mod PmDates
pub mod Predictive
pub mod Checkpoints
pub mod Expiry
