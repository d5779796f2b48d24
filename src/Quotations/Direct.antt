-- ===== src/Quotations/Direct.antt =====
-- The sales order of a ticket that nobody is charged for: `attemptDirectSalesOrderWriteback` to
-- `createDirectInvoice` of backend/src/ticketing/quotations/quotation.service.ts. The seven days up to a
-- delivery have no daylight saving in them.
use Prim.Native.String.{◌++◌}
use mathlib.Core.List.{◌++◌ as append}
use proman_edge_ace.Prelude.{
  ℕ, ◌+◌, ◌*◌, String, not, Option, none, some, [], ◌∷◌, map, if◌then◌else◌, ltb, length, ◌==◌,
  nat_eq, string_eq, get_or, or_else, is_some, is_just,
}
use proman_edge_ace.Prelude.Dict.{Dict}
use proman_edge_ace.Prelude.Text.{take_units}
use proman_edge_ace.Domain.Ticketing.{closed, ticket_status_eq}
use proman_edge_ace.Domain.Contracts.{DeliveryStatus}
use proman_edge_ace.Schema.{Delivery, Ticket, Visit, Part}
use proman_edge_ace.Env.{ErpLine}
use proman_edge_ace.Action.{
  Action, Result, ok, err, ◌>>=◌, ◌>>◌, pure, gets, throw_if, throw_some, first_error, or_throw,
  attempt, bad_request, plain, Error,
}
use proman_edge_ace.Store.{find_ticket, find_customer, update_ticket}
use proman_edge_ace.Store.Tables.{delivery_table, find_row, create_row, update_row, row_where}
use proman_edge_ace.Workflow.{given}
use proman_edge_ace.Visits.Editing.{visits_of, parts_of}
use proman_edge_ace.Quotations.Chargeability.{is_chargeable}
use proman_edge_ace.Quotations.Orders.{erp_call, order_status}
use proman_edge_ace.Quotations.Billing.{is_billable, billed}

-- The parts on all the visits of a ticket
abbrev pub parts_on : Dict Visit → Dict Part → Dict Part
parts_on [] parts = []
parts_on (v ∷ vs) parts = append (parts_of v.0 parts) (parts_on vs parts)

abbrev pub part_line : ℕ × Part → ErpLine
part_line (_, p) = record {
  item_code = p.item_code;
  qty = p.qty;
  rate = p.selling_rate;
  uom = p.uom;
}

-- An order's name, or a note on why there is none.
pub record Writeback : Type 0 where
  pub order : Option String
  pub note : Option String

-- The answer of ERPNext, whose exceptions are swallowed.
abbrev pub noted : Result String → Writeback
noted (ok name) = record { order = some name; note = none }
noted (err (plain message)) = record {
  order = none;
  note = some ("Sync failed: " ++ take_units 300 message);
}
noted (err _) = record { order = none; note = some "Sync failed: " }

abbrev pub unsynced : String → Writeback
unsynced note = record { order = none; note = some note }

-- The delivery is due in seven days.
unfoldable pub send_direct_order : ℕ → String → String → Dict Part → Action Writeback
send_direct_order ticket_id ticket_no customer parts = do
  answer ← attempt (
      erp_call λ env.
        env.erp.sales_order_direct ticket_id customer (map part_line parts)
          ("WARRANTY-AMC-" ++ ticket_no) (env.iso_date env.now)
          (env.iso_date (env.now + 7 * 86400000)))
  pure (noted answer)

unfoldable pub attempt_direct_sales_order_writeback : ℕ → Action Writeback
attempt_direct_sales_order_writeback ticket_id = do
  ticket ← find_ticket ticket_id
  customer ← find_customer ticket.customer_id
  visits ← gets (λ db. visits_of ticket_id db.visits)
  parts ← gets (λ db. parts_on visits db.parts)
  if not (is_some (given customer.erpnext_customer_id))
      then pure (unsynced "Not synced — customer has no erpnextCustomerId")
      else if ltb (length parts) 1
      then pure (unsynced "Not synced — no FSV parts logged yet. Log parts, then retry.")
      else send_direct_order ticket_id ticket.ticket_no (get_or customer.erpnext_customer_id "")
          parts

unfoldable pub create_direct_sales_order : ℕ → Action (ℕ × Delivery)
create_direct_sales_order ticket_id = do
  charged ← is_chargeable ticket_id
  throw_if charged (
      bad_request
        "This ticket is chargeable — use the Quotation path instead of a direct Sales Order")
  existing ← gets λ db. row_where (λ (d : Delivery). is_just d.ticket_id ticket_id) db.deliveries
  throw_if (is_some existing) (bad_request "A direct Sales Order already exists for this ticket")
  w ← attempt_direct_sales_order_writeback ticket_id
  create_row delivery_table (record {
    quotation_id = none;
    ticket_id = some ticket_id;
    erpnext_sales_order_id = w.order;
    erpnext_sync_note = w.note;
    erpnext_delivery_note_id = none;
    delivery_date = none;
    status = DeliveryStatus.pending;
    tracking_notes = none;
  })

-- A retry's answer. `undefined` leaves the order as it is.
abbrev pub retried : Writeback → Delivery → Delivery
retried w d = record d {
  erpnext_sales_order_id = or_else w.order d.erpnext_sales_order_id;
  erpnext_sync_note = if is_some (given w.order) then none else or_else w.note d.erpnext_sync_note;
}

unfoldable pub retry_direct_sales_order : ℕ → Action Delivery
retry_direct_sales_order id = do
  delivery ← find_row delivery_table id
  throw_if (is_some (given delivery.erpnext_sales_order_id))
      (bad_request "This Sales Order already synced to ERPNext")
  ticket_id ←
      or_throw delivery.ticket_id
        (bad_request "This Delivery has no direct ticket to retry against")
  w ← attempt_direct_sales_order_writeback ticket_id
  update_row delivery_table id (retried w)

-- The guards of `createDirectInvoice`.
unfoldable pub direct_invoice_error : Delivery → Ticket → Option Error
direct_invoice_error d ticket = first_error (
    (
      not (is_some (given d.erpnext_sales_order_id)),
      bad_request "This ticket has no Sales Order yet",
    )
    ∷ (
      is_some (given ticket.erpnext_invoice_id),
      bad_request "A Sales Invoice already exists for this ticket",
    )
    ∷ (
      not (ticket.status == closed),
      bad_request "Ticket must be Closed before creating a Sales Invoice",
    )
    ∷ [])

unfoldable pub create_direct_invoice : ℕ → Action Ticket
create_direct_invoice ticket_id = do
  found ← gets λ db. row_where (λ (d : Delivery). is_just d.ticket_id ticket_id) db.deliveries
  delivery ← or_throw found (bad_request "This ticket has no Sales Order yet")
  ticket ← find_ticket ticket_id
  throw_some (direct_invoice_error delivery.1 ticket)
  let order = get_or delivery.1.erpnext_sales_order_id ""
  status ← erp_call (order_status order)
  throw_if (not (is_billable status))
      (bad_request "Sales Order is not yet ready to bill in ERPNext")
  invoice ← erp_call (λ env. env.erp.draft_zero_rate_sales_invoice order)
  update_ticket ticket_id (billed invoice)
