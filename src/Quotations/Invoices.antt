-- ===== src/Quotations/Invoices.antt =====
-- From a ticket to its invoice: backend/src/ticketing/quotations/quotation.service.ts.
use mathlib.Core.Path.{subst}
use proman_edge_ace.Prelude.{
  ℕ, ◌≢◌, Bool, ◌≡◌, refl, sym, ◌∙◌, ap, ◌⊎◌, inl, inr, true, false, none, some, String, arith,
  get_or, is_some, Option-cases, Bool-cases, Sum-cases,
}
use proman_edge_ace.Prelude.Dict.{lookup, modify, lookup-modify_self, lookup-modify_ne}
use proman_edge_ace.Prelude.Text.{contains}
use proman_edge_ace.Domain.Ticketing.{closed, ticket_status_eq}
use proman_edge_ace.Schema.{Db, Quotation, Ticket}
use proman_edge_ace.Env.{Env, DocStatus}
use proman_edge_ace.Action.{ok, err, err_is_not_ok, Error, bad_request, plain}
use proman_edge_ace.Store.{put_tickets}
use proman_edge_ace.Store.Tables.{quotation_table, change}
use proman_edge_ace.Workflow.{given}
use proman_edge_ace.Tickets.Labels.{RequestUser}
use proman_edge_ace.Quotations.Covering.{IsCovered, uncharged_iff}
use proman_edge_ace.Quotations.{
  CreateQuotation, order_status, drafted_invoice, ordered_from, order_with_po, create,
  create_direct_sales_order, is_chargeable, is_charged, get_chargeability, chargeability_of,
  create_sales_order_for_quotation, order_of_po, link_order, converted, create_invoice,
  invoice_error, is_billable, billed, invoiced,
}

-- Of the two ways of a ticket on file one is closed at any time, and what covers the ticket then says which:
-- under warranty, or under a contract of its machine that has started and is not over, a quotation for it
-- is refused, and otherwise a direct sales order for it; a refusal writes nothing.
pub one_path_per_ticket :
    (ticket_id : ℕ) (t : Ticket) (dto : CreateQuotation) (actor : RequestUser) (env : Env) (db : Db)
    → lookup ticket_id db.tickets ≡ some t
    → (IsCovered env.now t db
        × (create ticket_id dto actor env db ≡ (
          err (
              bad_request
                "This ticket is warranty/AMC-covered — use the direct Sales Order path instead of a Quotation"),
          db,
        )))
      ⊎ ((¬ IsCovered env.now t db)
          × (create_direct_sales_order ticket_id env db ≡ (
            err (
                bad_request
                  "This ticket is chargeable — use the Quotation path instead of a direct Sales Order"),
            db,
          )))
unfolding create create_direct_sales_order is_chargeable get_chargeability
one_path_per_ticket ticket_id t dto actor env db found =
    elim (Bool-cases (is_charged (chargeability_of env.now t db))) [
      | inl charged ↦ inr (
        λ c. true_or_false charged ((uncharged_iff env.now t db).1 c),
        ground (arith, found, charged),
      )
      | inr not_charged ↦
          inl ((uncharged_iff env.now t db).0 not_charged, ground (arith, found, not_charged))
    ]
  where
    true_or_false : {b : Bool} → b ≡ true → b ≡ false → ⊥
    true_or_false e f = cc

-- ERPNext's answer to a number of a purchase order that is in use: the quotation is linked to the order
-- that has it.
pub duplicate_po_is_linked :
    (id : ℕ) (q : Quotation) (message name : String) (env : Env) (db : Db)
    → lookup id db.quotations ≡ some q
    → ordered_from
        (get_or q.erpnext_quotation_id "")
        (get_or q.customer_po_number "")
        (env.iso_date (get_or q.customer_po_date 0))
        env
      ≡ inl message
    → contains message "already created for the same PO number" ≡ true
    → order_with_po (get_or q.customer_po_number "") env ≡ inr (some name)
    → given (some name) ≡ some name
    → create_sales_order_for_quotation id q env db
      ≡ (ok (converted name q), change quotation_table (modify id (converted name)) db)
unfolding create_sales_order_for_quotation order_of_po link_order
duplicate_po_is_linked id q message name env db found refused known other named =
    ground (arith, refused, known, other, named, found)

-- What an invoice takes.
pub record MayInvoice (q : Quotation) (t : Ticket) (env : Env) : Type 0 where
  pub ordered : is_some (given q.erpnext_sales_order_id) ≡ true
  pub unbilled : is_some (given q.erpnext_invoice_id) ≡ false
  pub is_closed : t.status ≡ closed
  pub doc : DocStatus
  pub answered : order_status (get_or q.erpnext_sales_order_id "") env ≡ inr doc
  pub submitted : doc.docstatus ≡ 1
  pub not_billed : get_or doc.per_billed 0 ≡ 0

-- The ticket's row and the quotation's row with the invoice.
abbrev pub invoiced_db : ℕ → ℕ → String → Db → Db
invoiced_db id ticket_id invoice db =
    change quotation_table (modify id (invoiced invoice))
      (put_tickets ticket_id (billed invoice) db)

module _ (id : ℕ) (q : Quotation) (t : Ticket) (env : Env) (db : Db) where
  create_invoice-refused :
      (e : Error)
      → lookup id db.quotations ≡ some q
      → lookup q.ticket_id db.tickets ≡ some t
      → invoice_error q t ≡ some e
      → create_invoice id env db ≡ (err e, db)
  unfolding create_invoice
  create_invoice-refused e found parent bad = ground (arith, found, parent, bad)

  create_invoice-unanswered :
      (message : String)
      → lookup id db.quotations ≡ some q
      → lookup q.ticket_id db.tickets ≡ some t
      → invoice_error q t ≡ none
      → order_status (get_or q.erpnext_sales_order_id "") env ≡ inl message
      → create_invoice id env db ≡ (err (plain message), db)
  unfolding create_invoice
  create_invoice-unanswered message found parent fine failed =
      ground (arith, found, parent, fine, failed)

  create_invoice-too_early :
      (doc : DocStatus)
      → lookup id db.quotations ≡ some q
      → lookup q.ticket_id db.tickets ≡ some t
      → invoice_error q t ≡ none
      → order_status (get_or q.erpnext_sales_order_id "") env ≡ inr doc
      → is_billable doc ≡ false
      → create_invoice id env db
        ≡ (err (bad_request "Sales Order is not yet ready to bill in ERPNext"), db)
  unfolding create_invoice
  create_invoice-too_early doc found parent fine answered early =
      ground (arith, found, parent, fine, answered, early)

  create_invoice-drafted :
      (doc : DocStatus)
      → lookup id db.quotations ≡ some q
      → lookup q.ticket_id db.tickets ≡ some t
      → invoice_error q t ≡ none
      → order_status (get_or q.erpnext_sales_order_id "") env ≡ inr doc
      → is_billable doc ≡ true
      → ((invoice : String) × (drafted_invoice (get_or q.erpnext_sales_order_id "") env
            ≡ inr invoice)
          × (create_invoice id env db
              ≡ (ok (invoiced invoice q), invoiced_db id q.ticket_id invoice db)))
        ⊎ ((message : String) × (create_invoice id env db ≡ (err (plain message), db)))
  unfolding create_invoice
  create_invoice-drafted doc found parent fine answered ready =
      elim (Sum-cases (drafted_invoice (get_or q.erpnext_sales_order_id "") env)) [
        | inl (message, failed) ↦
            inr (message, ground (arith, found, parent, fine, answered, ready, failed))
        | inr (invoice, made) ↦
            inl (invoice, made, ground (arith, found, parent, fine, answered, ready, made, found))
      ]

  invoice_found :
      lookup id db.quotations ≡ some q
      → lookup q.ticket_id db.tickets ≡ some t
      → (MayInvoice q t env
          × ((invoice : String) × (drafted_invoice (get_or q.erpnext_sales_order_id "") env
                ≡ inr invoice)
              × (create_invoice id env db
                  ≡ (ok (invoiced invoice q), invoiced_db id q.ticket_id invoice db))))
        ⊎ ((e : Error) × (create_invoice id env db ≡ (err e, db)))
  unfolding invoice_error is_billable
  invoice_found found parent = elim (Option-cases (invoice_error q t)) [
    | inr (e, bad) ↦ inr (e, create_invoice-refused e found parent bad)
    | inl fine ↦ elim (Sum-cases (order_status (get_or q.erpnext_sales_order_id "") env)) [
      | inl (message, failed) ↦
          inr (plain message, create_invoice-unanswered message found parent fine failed)
      | inr (doc, answered) ↦ elim (Bool-cases (is_billable doc)) [
        | inr early ↦ inr (_, create_invoice-too_early doc found parent fine answered early)
        | inl ready ↦ elim (create_invoice-drafted doc found parent fine answered ready) [
          | inr (message, threw) ↦ inr (plain message, threw)
          | inl (invoice, made, done) ↦ inl (
            record {
              ordered = ground (arith, fine);
              unbilled = ground (arith, fine);
              is_closed = ground (arith, fine);
              doc = doc;
              answered = answered;
              submitted = ground (arith, ready);
              not_billed = ground (arith, ready);
            },
            (invoice, made, done),
          )
        ]
      ]
    ]
  ]

-- The two rows with the invoice, nothing else in them new, and all other rows as they were.
pub record IsInvoiced (id : ℕ) (q : Quotation) (t : Ticket) (invoice : String) (db db' : Db)
    : Type 0 where
  pub quotation : lookup id db'.quotations ≡ some (record q { erpnext_invoice_id = some invoice })
  pub ticket :
      lookup q.ticket_id db'.tickets ≡ some (record t { erpnext_invoice_id = some invoice })
  pub other_quotations : (j : ℕ) → j ≢ id → lookup j db'.quotations ≡ lookup j db.quotations
  pub other_tickets : (j : ℕ) → j ≢ q.ticket_id → lookup j db'.tickets ≡ lookup j db.tickets

invoiced_db-IsInvoiced :
    (id : ℕ) (q : Quotation) (t : Ticket) (invoice : String) (db : Db)
    → lookup id db.quotations ≡ some q
    → lookup q.ticket_id db.tickets ≡ some t
    → IsInvoiced id q t invoice db (invoiced_db id q.ticket_id invoice db)
invoiced_db-IsInvoiced id q t invoice db found parent = record {
  quotation = lookup-modify_self id (invoiced invoice) db.quotations q found;
  ticket = lookup-modify_self q.ticket_id (billed invoice) db.tickets t parent;
  other_quotations = λ j ne. lookup-modify_ne j id (invoiced invoice) db.quotations ne;
  other_tickets = λ j ne. lookup-modify_ne j q.ticket_id (billed invoice) db.tickets ne;
}

-- An invoice for a quotation that is on file with its ticket: ERPNext drafts it, the call returns the
-- quotation with the invoice's name, the quotation's row and the ticket's row have that name and are
-- otherwise as before, like all other rows of both tables; and then there was an order and no
-- invoice, the ticket is CLOSED, and ERPNext has the order as submitted with nothing billed. Or the call
-- throws and writes nothing.
pub invoice_outcome :
    (id : ℕ) (q : Quotation) (t : Ticket) (env : Env) (db : Db)
    → lookup id db.quotations ≡ some q
    → lookup q.ticket_id db.tickets ≡ some t
    → (MayInvoice q t env
        × ((invoice : String) × (db' : Db) × (drafted_invoice
                (get_or q.erpnext_sales_order_id "")
                env
              ≡ inr invoice)
            × (create_invoice id env db
                ≡ (ok (record q { erpnext_invoice_id = some invoice }), db'))
            × IsInvoiced id q t invoice db db'))
      ⊎ ((e : Error) × (create_invoice id env db ≡ (err e, db)))
invoice_outcome id q t env db found parent = elim (invoice_found id q t env db found parent) [
  | inr threw ↦ inr threw
  | inl (may, (invoice, made, wrote)) ↦ inl (
    may,
    (
      invoice,
      invoiced_db id q.ticket_id invoice db,
      made,
      wrote,
      invoiced_db-IsInvoiced id q t invoice db found parent,
    ),
  )
]

-- A quotation is invoiced once: where the first call has returned and ERPNext gives its invoices names,
-- every later call for the quotation, at any time and whatever ERPNext then says, is refused and
-- writes nothing.
pub second_invoice_is_refused :
    (id : ℕ) (q q' : Quotation) (t : Ticket) (env later : Env) (db db' : Db)
    → ((order invoice : String)
        → drafted_invoice order env ≡ inr invoice
        → is_some (given (some invoice)) ≡ true)
    → lookup id db.quotations ≡ some q
    → lookup q.ticket_id db.tickets ≡ some t
    → create_invoice id env db ≡ (ok q', db')
    → create_invoice id later db'
      ≡ (err (bad_request "A Sales Invoice already exists for this quotation"), db')
unfolding invoice_error
second_invoice_is_refused id q q' t env later db db' names found parent done =
    elim (invoice_found id q t env db found parent) [
      | inr (e, threw) ↦ absurd (err_is_not_ok (sym threw ∙ done))
      | inl (may, (invoice, made, wrote)) ↦
          let same = ap (λ r. r.1) (sym wrote ∙ done) in
          let billed_db = invoiced_db id q.ticket_id invoice db in
          subst
            (λ d.
              create_invoice id later d
              ≡ (err (bad_request "A Sales Invoice already exists for this quotation"), d))
            same
            (create_invoice-refused id (invoiced invoice q) (billed invoice t) later billed_db
              (bad_request "A Sales Invoice already exists for this quotation")
              (lookup-modify_self id (invoiced invoice) db.quotations q found)
              (lookup-modify_self q.ticket_id (billed invoice) db.tickets t parent)
              (already invoice may.ordered
                (names (get_or q.erpnext_sales_order_id "") invoice made)))
    ]
  where
    already :
        (invoice : String)
        → is_some (given q.erpnext_sales_order_id) ≡ true
        → is_some (given (some invoice)) ≡ true
        → invoice_error (invoiced invoice q) (billed invoice t)
          ≡ some (bad_request "A Sales Invoice already exists for this quotation")
    already invoice ordered named = rw (ordered, named) refl
