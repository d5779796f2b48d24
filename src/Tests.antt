-- ===== src/Tests.antt =====
-- Concrete data, and the theorems applied to it.
mod Fixtures
mod TicketTests
mod ClockTests
mod RequestTests
mod AccountTests
mod VisitTests
mod SalesTests
mod ContractTests
