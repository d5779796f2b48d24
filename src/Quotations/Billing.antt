-- ===== src/Quotations/Billing.antt =====
-- Deliveries and invoices: `handleDeliveryNoteSubmitted` `checkDeliveryNote`,
-- `createInvoice` and `updateDelivery` of backend/src/ticketing/quotations/quotation.service.ts.
use mathlib.Core.Option
use proman_edge_ace.Prelude.{
  ℕ, String, Bool, true, not, ◌&&◌, Option, none, some, [], ◌∷◌, ◌==◌, nat_eq, string_eq, get_or,
  or_else, is_some, is_just,
}
use proman_edge_ace.Prelude.Text.{is_blank}
use proman_edge_ace.Domain.Ticketing.{closed, ticket_status_eq}
use proman_edge_ace.Domain.Contracts.{DeliveryStatus}
use proman_edge_ace.Domain.Logs.{NotifChannel}
use proman_edge_ace.Schema.{Quotation, Delivery, Ticket, User}
use proman_edge_ace.Env.{DocStatus}
use proman_edge_ace.Action.{
  Action, ◌>>=◌, ◌>>◌, pure, ask, gets, throw_if, throw_some, first_error, run_if, with_some,
  or_throw, bad_request, Error,
}
use proman_edge_ace.Store.{find_ticket, find_customer, update_ticket}
use proman_edge_ace.Store.Tables.{quotation_table, delivery_table, find_row, update_row, row_where}
use proman_edge_ace.Workflow.{given}
use proman_edge_ace.Tickets.Announce.{send_named, related}
use proman_edge_ace.Quotations.Orders.{erp_call, order_status, drafted_invoice}

-- N-12
unfoldable pub fire_delivery_confirmed : ℕ → Action (Unit {0})
fire_delivery_confirmed ticket_id = do
  ticket ← find_ticket ticket_id
  customer ← find_customer ticket.customer_id
  assigned ← gets (λ db. related ticket.assigned_engineer_id db.users)
  let vars = ("ticket_no", ticket.ticket_no) ∷ ("site_name", customer.customer_name) ∷ []
  let mobile = customer.primary_contact_mobile
  with_some assigned λ (u : ℕ × User).
      send_named "N-12" "N-12 Delivery confirmed" NotifChannel.push true u.1.email vars ticket_id
        (some u.0)
  run_if (not (is_blank mobile)) (
      send_named "N-12" "N-12 Delivery confirmed" NotifChannel.whatsapp true mobile vars ticket_id
        none)

abbrev pub delivered : String → Quotation → Quotation
delivered note q = record q { erpnext_delivery_note_id = some note }

abbrev pub invoiced : String → Quotation → Quotation
invoiced invoice q = record q { erpnext_invoice_id = some invoice }

abbrev pub billed : String → Ticket → Ticket
billed invoice t = record t { erpnext_invoice_id = some invoice }

-- The draft of an order that has become "To Bill".
unfoldable pub bill_if_due : ℕ → Quotation → String → Action (Unit {0})
bill_if_due id quotation order = do
  status ← erp_call (order_status order)
  run_if (status.status == "To Bill") do
    invoice ← erp_call (drafted_invoice order)
    update_row quotation_table id (invoiced invoice)
    update_ticket quotation.ticket_id (billed invoice)
    pure tt

unfoldable pub handle_delivery_note_submitted : String → String → Action (Unit {0})
handle_delivery_note_submitted note order = do
  found ← gets λ db. row_where (λ q. is_just q.erpnext_sales_order_id order) db.quotations
  with_some found λ (r : ℕ × Quotation). do
    update_row quotation_table r.0 (delivered note)
    fire_delivery_confirmed r.1.ticket_id
    run_if (not (is_some (given r.1.erpnext_invoice_id))) (bill_if_due r.0 r.1 order)

unfoldable pub check_delivery_note : ℕ → Action Quotation
check_delivery_note id = do
  quotation ← find_row quotation_table id
  throw_some (
      first_error (
        (
          not (is_some (given quotation.erpnext_sales_order_id)),
          bad_request "This quotation has no Sales Order yet",
        )
        ∷ (
          is_some (given quotation.erpnext_delivery_note_id),
          bad_request "A Delivery Note is already recorded for this quotation",
        )
        ∷ []))
  found ← erp_call (λ env. env.erp.find_delivery_note (get_or quotation.erpnext_sales_order_id ""))
  note ←
      or_throw (given found)
        (bad_request "No Delivery Note has been raised against this Sales Order in ERPNext yet")
  updated ← update_row quotation_table id (delivered note)
  fire_delivery_confirmed quotation.ticket_id
  pure updated

-- Submitted in ERPNext, and nothing of it billed.
unfoldable pub is_billable : DocStatus → Bool
is_billable s = s.docstatus == 1 && get_or s.per_billed 0 == 0

-- The guards of `createInvoice`.
unfoldable pub invoice_error : Quotation → Ticket → Option Error
invoice_error quotation ticket = first_error (
    (
      not (is_some (given quotation.erpnext_sales_order_id)),
      bad_request "This quotation has no Sales Order yet",
    )
    ∷ (
      is_some (given quotation.erpnext_invoice_id),
      bad_request "A Sales Invoice already exists for this quotation",
    )
    ∷ (
      not (ticket.status == closed),
      bad_request "Ticket must be Closed before creating a Sales Invoice",
    )
    ∷ [])

unfoldable pub create_invoice : ℕ → Action Quotation
create_invoice id = do
  quotation ← find_row quotation_table id
  ticket ← find_ticket quotation.ticket_id
  throw_some (invoice_error quotation ticket)
  let order = get_or quotation.erpnext_sales_order_id ""
  status ← erp_call (order_status order)
  throw_if (not (is_billable status))
      (bad_request "Sales Order is not yet ready to bill in ERPNext")
  invoice ← erp_call (drafted_invoice order)
  update_ticket quotation.ticket_id (billed invoice)
  update_row quotation_table id (invoiced invoice)

pub record UpdateDelivery : Type 0 where
  pub delivery_date : Option String
  pub status : Option DeliveryStatus
  pub tracking_notes : Option String
  pub erpnext_delivery_note_id : Option String

unfoldable pub update_delivery : ℕ → UpdateDelivery → Action Delivery
update_delivery id dto = do
  env ← ask (λ env. env)
  update_row delivery_table id λ d. record d {
    delivery_date = or_else (Option.map env.parse_date (given dto.delivery_date)) d.delivery_date;
    status = get_or dto.status d.status;
    tracking_notes = or_else dto.tracking_notes d.tracking_notes;
    erpnext_delivery_note_id = or_else dto.erpnext_delivery_note_id d.erpnext_delivery_note_id;
  }
