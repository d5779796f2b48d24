-- ===== src/Schema/Sales.antt =====
-- Quotations with their lines, and deliveries: backend/prisma/schema.prisma. A quantity or an amount of
-- money is a number of JavaScript's, under its bits.
use proman_edge_ace.Prelude.{ℕ, String, Option}
use proman_edge_ace.Domain.Contracts.{QuotationStatus, DeliveryStatus}

pub record Quotation : Type 0 where
  pub quotation_no : String
  pub ticket_id : ℕ
  pub customer_id : ℕ
  pub created_by_user_id : ℕ
  pub amc_contract_id : Option ℕ
  pub valid_until : ℕ
  pub labour_charges : Option ℕ
  pub subtotal : Option ℕ
  pub tax_amount : Option ℕ
  pub grand_total : Option ℕ
  pub notes_to_customer : Option String
  pub terms_and_conditions : Option String
  pub selling_price_list : Option String
  pub status : QuotationStatus
  pub sent_at : Option ℕ
  pub customer_po_number : Option String
  pub customer_po_date : Option ℕ
  pub customer_po_doc_url : Option String
  pub erpnext_quotation_id : Option String
  pub erpnext_sales_order_id : Option String
  pub erpnext_delivery_note_id : Option String
  pub erpnext_invoice_id : Option String

pub record QuotationItem : Type 0 where
  pub quotation_id : ℕ
  pub item_code : String
  pub item_name : String
  pub qty : ℕ
  pub uom : String
  pub unit_price : ℕ
  pub tax_amount : ℕ
  pub line_total : ℕ
  pub price_list_name : Option String

pub record Delivery : Type 0 where
  pub quotation_id : Option ℕ
  pub ticket_id : Option ℕ
  pub erpnext_sales_order_id : Option String
  pub erpnext_sync_note : Option String
  pub erpnext_delivery_note_id : Option String
  pub delivery_date : Option ℕ
  pub status : DeliveryStatus
  pub tracking_notes : Option String
