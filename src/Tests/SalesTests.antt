-- ===== src/Tests/SalesTests.antt =====
-- The theorems on quotations, each at a concrete input.
use mathlib.Core.Path.{subst}
use proman_edge_ace.Prelude.{
  inl, ◌≡◌, refl, ◌⊎◌, inr, String, true, none, some, [], ◌∷◌, nat_eq, is_some,
}
use proman_edge_ace.Domain.Ticketing.{working, closed, ticket_status_eq}
use proman_edge_ace.Domain.Contracts
use proman_edge_ace.Schema.{Db, Quotation}
use proman_edge_ace.Action.{ok, err, Error, bad_request}
use proman_edge_ace.Workflow.{given}
use proman_edge_ace.Quotations.{
  CreateQuotation, create, create_direct_sales_order, create_invoice, drafted_invoice, invoiced,
  add_item, editable_quotation, recompute_totals, order_status, subtotal_of, tax_of, invoice_error,
  is_billable,
}
use proman_edge_ace.Quotations.Totals.{Totalled, Edit, adding, perform, edit_leaves_right_totals}
use proman_edge_ace.Quotations.Covering.{IsCovered}
use proman_edge_ace.Quotations.Invoices.{
  MayInvoice, IsInvoiced, one_path_per_ticket, invoice_outcome, second_invoice_is_refused,
}
use proman_edge_ace.Tests.Fixtures.{at_time, ticket, db_with, the_asm}

-- A quotation for ticket 7, ordered in ERPNext or not yet.
abbrev quotation : String → Quotation
quotation order = record {
  quotation_no = "QTN-2026-000001";
  ticket_id = 7;
  customer_id = 1;
  created_by_user_id = 1;
  amc_contract_id = none;
  valid_until = 900000;
  labour_charges = some 10;
  subtotal = none;
  tax_amount = none;
  grand_total = none;
  notes_to_customer = none;
  terms_and_conditions = none;
  selling_price_list = none;
  status = Contracts.QuotationStatus.draft;
  sent_at = none;
  customer_po_number = none;
  customer_po_date = none;
  customer_po_doc_url = none;
  erpnext_quotation_id = none;
  erpnext_sales_order_id = some order;
  erpnext_delivery_note_id = none;
  erpnext_invoice_id = none;
}

abbrev request : CreateQuotation
request = record {
  valid_until = "2026-09-01";
  labour_charges = none;
  notes_to_customer = none;
  terms_and_conditions = none;
  amc_contract_id = none;
  price_list_name = none;
}

abbrev workshop : Db
workshop = record (db_with (ticket working (some 2) 0)) { quotations = (1, quotation "") ∷ [] }

one_path_per_ticket_example :
    (IsCovered 2000 (ticket working (some 2) 0) workshop
      × (create 7 request the_asm (at_time 2000) workshop ≡ (
        err (
            bad_request
              "This ticket is warranty/AMC-covered — use the direct Sales Order path instead of a Quotation"),
        workshop,
      )))
    ⊎ ((¬ IsCovered 2000 (ticket working (some 2) 0) workshop)
        × (create_direct_sales_order 7 (at_time 2000) workshop ≡ (
          err (
              bad_request
                "This ticket is chargeable — use the Quotation path instead of a direct Sales Order"),
          workshop,
        )))
one_path_per_ticket_example =
    one_path_per_ticket 7 (ticket working (some 2) 0) request the_asm (at_time 2000) workshop refl

-- Three belts at seven.
abbrev belts : Edit
belts = adding (record {
  item_code = "B2";
  item_name = "Belt";
  qty = 3;
  uom = "Nos";
  unit_price = 7;
  tax_amount = some 2;
  price_list_name = none;
})

abbrev totalled_quotation : Quotation
totalled_quotation = record (quotation "") {
  subtotal = some 21;
  tax_amount = some 2;
  grand_total = some 33;
}

belts_are_added :
    perform 1 belts (at_time 2000) workshop
    ≡ (ok totalled_quotation, (perform 1 belts (at_time 2000) workshop).1)
unfolding add_item editable_quotation recompute_totals subtotal_of tax_of
belts_are_added = refl

edit_leaves_right_totals_example :
    Totalled (at_time 2000) 1 totalled_quotation (perform 1 belts (at_time 2000) workshop).1
edit_leaves_right_totals_example =
    edit_leaves_right_totals 1 belts (at_time 2000) workshop totalled_quotation
      (perform 1 belts (at_time 2000) workshop).1 belts_are_added

abbrev shipped : Db
shipped = record (db_with (ticket closed (some 2) 0)) {
  quotations = (1, quotation "SAL-ORD-1") ∷ [];
}

invoice_outcome_example :
    (MayInvoice (quotation "SAL-ORD-1") (ticket closed (some 2) 0) (at_time 2000)
      × ((invoice : String) × (db' : Db) × (drafted_invoice "SAL-ORD-1" (at_time 2000)
            ≡ inr invoice)
          × (create_invoice 1 (at_time 2000) shipped
              ≡ (ok (record (quotation "SAL-ORD-1") { erpnext_invoice_id = some invoice }), db'))
          × IsInvoiced 1 (quotation "SAL-ORD-1") (ticket closed (some 2) 0) invoice shipped db'))
    ⊎ ((e : Error) × (create_invoice 1 (at_time 2000) shipped ≡ (err e, shipped)))
invoice_outcome_example =
    invoice_outcome 1 (quotation "SAL-ORD-1") (ticket closed (some 2) 0) (at_time 2000) shipped refl
      refl

invoices_are_named :
    (order invoice : String)
    → drafted_invoice order (at_time 2000) ≡ inr invoice
    → is_some (given (some invoice)) ≡ true
unfolding drafted_invoice
invoices_are_named order invoice e =
    subst
      (λ (s : String ⊎ String). elim s [ inl x ↦ Unit | inr i ↦ is_some (given (some i)) ≡ true ]) e
      refl

invoice_is_drafted : create_invoice 1 (at_time 2000) shipped ≡ (
  ok (invoiced "ACC-SINV-1" (quotation "SAL-ORD-1")),
  (create_invoice 1 (at_time 2000) shipped).1,
)
unfolding create_invoice drafted_invoice order_status invoice_error is_billable
invoice_is_drafted = refl

second_invoice_is_refused_example :
    create_invoice 1 (at_time 3000) (create_invoice 1 (at_time 2000) shipped).1 ≡ (
      err (bad_request "A Sales Invoice already exists for this quotation"),
      (create_invoice 1 (at_time 2000) shipped).1,
    )
second_invoice_is_refused_example =
    second_invoice_is_refused 1 (quotation "SAL-ORD-1")
      (invoiced "ACC-SINV-1" (quotation "SAL-ORD-1")) (ticket closed (some 2) 0) (at_time 2000)
      (at_time 3000) shipped (create_invoice 1 (at_time 2000) shipped).1 invoices_are_named refl
      refl invoice_is_drafted
