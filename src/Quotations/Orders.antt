-- ===== src/Quotations/Orders.antt =====
-- A quotation in ERPNext: `pushToErpNext`, `updateCustomerPo`, `handleQuotationSubmitted` and
-- `createSalesOrder` of backend/src/ticketing/quotations/quotation.service.ts, and `resolveTaxesTemplate`
-- of backend/src/ticketing/erp-writeback/erp-writeback.service.ts.
use mathlib.Core.Option
use proman_edge_ace.Prelude.{
  ℕ, String, Bool, true, not, ◌&&◌, ◌||◌, Option, none, some, List, [], ◌∷◌, map, if◌then◌else◌,
  keep, ltb, length, ◌==◌, nat_eq, string_eq, get_or, or_else, is_some, is_just, ◌⊎◌, inl, inr,
}
use proman_edge_ace.Prelude.Text.{trim, is_blank, contains}
use proman_edge_ace.Domain.People.{cs_support, role_eq}
use proman_edge_ace.Domain.Contracts.{sent, converted_to_sales_order}
use proman_edge_ace.Domain.Logs.{NotifChannel}
use proman_edge_ace.Schema.{Quotation, QuotationItem, User, Ticket, Customer}
use proman_edge_ace.Env.{Env, ErpLine, DocStatus}
use proman_edge_ace.Action.{
  Action, ok, err, ◌>>=◌, ◌>>◌, pure, ask, gets, throw, throw_if, throw_some, first_error, run_if,
  with_some, for_each, attempt, bad_request, plain, Error,
}
use proman_edge_ace.Store.{find_ticket, find_customer}
use proman_edge_ace.Store.Tables.{quotation_table, find_row, update_row, row_where}
use proman_edge_ace.Workflow.{given}
use proman_edge_ace.Tickets.Announce.{send_named, push_to, related}
use proman_edge_ace.Quotations.Drafting.{items_of}

-- A call of ERPNext, whose exception has a message.
abbrev pub erp_call : {A : Type 0} → (Env → String ⊎ A) → Action A
erp_call f env db = elim (f env) [ inl message ↦ (err (plain message), db) | inr a ↦ (ok a, db) ]

-- `getDocStatus`, `draftSalesInvoiceFromSalesOrder`, `salesOrderFromQuotation`,
-- `findSalesOrderByPoNo` and `updateQuotationRemarks`
unfoldable pub quotation_status : String → Env → String ⊎ DocStatus
quotation_status name env = env.erp.doc_status "Quotation" name

unfoldable pub order_status : String → Env → String ⊎ DocStatus
order_status name env = env.erp.doc_status "Sales Order" name

unfoldable pub drafted_invoice : String → Env → String ⊎ String
drafted_invoice order env = env.erp.draft_sales_invoice order

unfoldable pub ordered_from : String → String → String → Env → String ⊎ String
ordered_from quotation po date env = env.erp.sales_order_from_quotation quotation po date

unfoldable pub order_with_po : String → Env → String ⊎ Option String
order_with_po po env = env.erp.find_sales_order_by_po_no po

unfoldable pub remarked : String → ℕ → String → String → Env → String ⊎ Unit {0}
remarked quotation ticket_id po date env =
    env.erp.update_quotation_remarks quotation ticket_id po date

unfoldable pub resolve_taxes_template : Env → Option String → String
resolve_taxes_template env state = elim (given env.company_state) [
  | none ↦ env.sales_taxes_template
  | some ours ↦ elim (given state) [
    | none ↦ env.sales_taxes_template
    | some theirs ↦
        if env.to_lower_case (trim ours) == env.to_lower_case (trim theirs)
        then env.sales_taxes_template
        else env.sales_igst_template
  ]
]

abbrev pub erp_line : ℕ × QuotationItem → ErpLine
erp_line (_, it) = record {
  item_code = it.item_code;
  qty = it.qty;
  rate = it.unit_price;
  uom = it.uom;
}

-- The guards of `pushToErpNext`.
unfoldable pub push_error : Quotation → List (ℕ × QuotationItem) → Customer → Option Error
push_error quotation items customer = first_error (
    (is_some (given quotation.erpnext_quotation_id), bad_request "Already pushed to ERPNext")
    ∷ (ltb (length items) 1, bad_request "Add at least one item first")
    ∷ (
      not (is_some (given customer.erpnext_customer_id)),
      bad_request "This customer has no erpnextCustomerId — cannot create a Quotation in ERPNext",
    )
    ∷ [])

abbrev pub pushed_row : Env → String → Quotation → Quotation
pushed_row env name q = record q {
  status = sent;
  sent_at = some env.now;
  erpnext_quotation_id = some name;
}

-- N-10
unfoldable pub notify_quotation : Quotation → Ticket → Customer → Action (Unit {0})
notify_quotation quotation ticket customer = do
  env ← ask (λ env. env)
  let vars =
      ("quotation_no", quotation.quotation_no)
      ∷ ("ticket_no", ticket.ticket_no)
      ∷ ("grand_total", get_or (Option.map env.number_text quotation.grand_total) "0")
      ∷ ("valid_until", env.iso_date quotation.valid_until)
      ∷ []
  let email = customer.primary_contact_email
  let mobile = customer.primary_contact_mobile
  run_if (not (is_blank email)) (
      send_named "N-10" "N-10 Quotation sent" NotifChannel.email true email vars quotation.ticket_id
        none)
  run_if (not (is_blank mobile)) (
      send_named "N-10" "N-10 Quotation sent" NotifChannel.whatsapp true mobile vars
        quotation.ticket_id none)

unfoldable pub push_to_erpnext : ℕ → Action Quotation
push_to_erpnext id = do
  quotation ← find_row quotation_table id
  items ← gets (λ db. items_of id db.quotation_items)
  customer ← find_customer quotation.customer_id
  ticket ← find_ticket quotation.ticket_id
  throw_some (push_error quotation items customer)
  name ← erp_call λ env.
      env.erp.quotation_draft quotation.ticket_id (get_or customer.erpnext_customer_id "")
        (map erp_line items) (env.iso_date quotation.valid_until) quotation.selling_price_list
        (resolve_taxes_template env customer.billing_state)
  env ← ask (λ env. env)
  updated ← update_row quotation_table id (pushed_row env name)
  notify_quotation quotation ticket customer
  pure updated

-- N-11
unfoldable pub notify_po : Quotation → Action (Unit {0})
notify_po quotation = do
  ticket ← find_ticket quotation.ticket_id
  customer ← find_customer quotation.customer_id
  let vars =
      ("quotation_no", quotation.quotation_no) ∷ ("customer_name", customer.customer_name) ∷ []
  support ← gets λ db. keep (λ (u : ℕ × User). u.1.role == cs_support && u.1.is_active) db.users
  for_each support (push_to "N-11" vars (some quotation.ticket_id))
  asm ← gets (λ db. related ticket.assigned_asm_id db.users)
  with_some asm (push_to "N-11" vars (some quotation.ticket_id))

abbrev pub with_po : Env → Option String → Option String → Quotation → Quotation
with_po env number date q = record q {
  customer_po_number = or_else number q.customer_po_number;
  customer_po_date = or_else (Option.map env.parse_date date) q.customer_po_date;
}

unfoldable pub update_customer_po : ℕ → Option String → Option String → Action Quotation
unfolding notify_po
update_customer_po id number date = do
  existing ← find_row quotation_table id
  env ← ask (λ env. env)
  updated ← update_row quotation_table id (with_po env number date)
  run_if (not (is_some (given existing.customer_po_number)) && is_some (given number))
      (notify_po existing)
  pure updated

unfoldable pub upload_customer_po_document : ℕ → String → Action Quotation
upload_customer_po_document id url =
    update_row quotation_table id λ q. record q { customer_po_doc_url = some url }

-- The order that a refused purchase-order number is already on.
unfoldable pub order_of_po : String → Error → Action String
order_of_po po (plain message) =
    if contains message "already created for the same PO number"
    then (do
      found ← erp_call (order_with_po po)
      elim (given found) [ none ↦ throw (plain message) | some name ↦ pure name ])
    else throw (plain message)
order_of_po po e = throw e

abbrev pub converted : String → Quotation → Quotation
converted order q = record q {
  status = converted_to_sales_order;
  erpnext_sales_order_id = some order;
}

-- What is left to do with ERPNext's answer. The remarks may fail.
unfoldable pub link_order : ℕ → Quotation → String → String → String → Action Quotation
link_order id quotation po date order = do
  attempt
      (erp_call (remarked (get_or quotation.erpnext_quotation_id "") quotation.ticket_id po date))
  update_row quotation_table id (converted order)

unfoldable pub create_sales_order_for_quotation : ℕ → Quotation → Action Quotation
create_sales_order_for_quotation id quotation = do
  env ← ask (λ env. env)
  let po = get_or quotation.customer_po_number ""
  let date = env.iso_date (get_or quotation.customer_po_date 0)
  answer ← attempt (erp_call (ordered_from (get_or quotation.erpnext_quotation_id "") po date))
  order ← (elim answer [ ok name ↦ pure name | err e ↦ order_of_po po e ])
  link_order id quotation po date order

-- A purchase order with its number and its date.
unfoldable pub has_po : Quotation → Bool
has_po q = is_some (given q.customer_po_number) && is_some q.customer_po_date

unfoldable pub handle_quotation_submitted : String → Action (Unit {0})
handle_quotation_submitted name = do
  found ← gets λ db. row_where (λ q. is_just q.erpnext_quotation_id name) db.quotations
  with_some found λ (r : ℕ × Quotation).
      run_if (not (is_some (given r.1.erpnext_sales_order_id)) && has_po r.1)
        do create_sales_order_for_quotation r.0 r.1; pure tt

-- A purchase order that comes with the request.
unfoldable pub supply_po : ℕ → Quotation → Option String → Option String → Action Quotation
supply_po id quotation number date =
    if is_some number || is_some date
    then (do env ← ask (λ env. env); update_row quotation_table id (with_po env number date))
    else pure quotation

unfoldable pub create_sales_order : ℕ → Option String → Option String → Action Quotation
create_sales_order id number date = do
  read ← find_row quotation_table id
  throw_some (
      first_error (
        (
          not (is_some (given read.erpnext_quotation_id)),
          bad_request "This quotation has not been pushed to ERPNext yet",
        )
        ∷ (
          is_some (given read.erpnext_sales_order_id),
          bad_request "A Sales Order already exists for this quotation",
        )
        ∷ []))
  quotation ← supply_po id read (given number) (given date)
  throw_if (not (has_po quotation))
      (bad_request "Customer PO Number and PO Date are required before creating a Sales Order.")
  status ← erp_call (quotation_status (get_or quotation.erpnext_quotation_id ""))
  throw_if (not (status.docstatus == 1)) (
      bad_request
        "Quotation is not yet submitted in ERPNext — ask the client to submit it there first")
  create_sales_order_for_quotation id quotation
