-- ===== src/Quotations.antt =====
-- Quotations, sales orders and invoices: backend/src/ticketing/quotations/quotation.service.ts.
pub mod Chargeability
pub mod Drafting
pub mod Orders
pub mod Billing
pub mod Direct
pub mod Totals
pub mod Covering
pub mod Invoices
unfoldable pub use Chargeability.*
unfoldable pub use Drafting.*
unfoldable pub use Orders.*
unfoldable pub use Billing.*
unfoldable pub use Direct.*
