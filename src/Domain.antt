-- ===== src/Domain.antt =====
-- The enumerations of backend/prisma/schema.prisma that the ticketing code reads.
pub mod Ticketing
pub mod People
pub mod Masters
pub mod Logs
pub mod Contracts
