-- ===== src/Quotations/Drafting.antt =====
-- A quotation while it is edited here: `create` to `recomputeTotals` of
-- backend/src/ticketing/quotations/quotation.service.ts. `undefined` in a request leaves a column as
-- it is.
use mathlib.Core.Option
use proman_edge_ace.Prelude.{
  ℕ, String, Bool, false, not, ◌&&◌, Option, none, some, [], ◌∷◌, map, if◌then◌else◌, keep, ltb,
  ◌==◌, nat_eq, get_or, or_else, is_some,
}
use proman_edge_ace.Prelude.Dict.{Dict}
use proman_edge_ace.Domain.Contracts.{draft, sent, expired, quotation_status_eq}
use proman_edge_ace.Schema.{Ticket, Quotation, QuotationItem}
use proman_edge_ace.Env.{Env}
use proman_edge_ace.Action.{Action, ◌>>=◌, ◌>>◌, pure, ask, gets, throw_if, bad_request}
use proman_edge_ace.Store.{find_ticket}
use proman_edge_ace.Store.Tables.{
  quotation_table, quotation_item_table, find_row, create_row, update_row, delete_row,
}
use proman_edge_ace.PriceLists.{default_name}
use proman_edge_ace.Workflow.{given}
use proman_edge_ace.Tickets.Labels.{RequestUser}
use proman_edge_ace.Visits.Editing.{next_no}
use proman_edge_ace.Quotations.Chargeability.{is_chargeable}

pub record CreateQuotation : Type 0 where
  pub valid_until : String
  pub labour_charges : Option ℕ
  pub notes_to_customer : Option String
  pub terms_and_conditions : Option String
  pub amc_contract_id : Option ℕ
  pub price_list_name : Option String

abbrev pub new_quotation :
    Env → ℕ → Ticket → RequestUser → CreateQuotation → String → Option String → Quotation
new_quotation env ticket_id ticket actor dto number price_list = record {
  quotation_no = number;
  ticket_id = ticket_id;
  customer_id = ticket.customer_id;
  created_by_user_id = actor.user_id;
  amc_contract_id = dto.amc_contract_id;
  valid_until = env.parse_date dto.valid_until;
  labour_charges = dto.labour_charges;
  subtotal = none;
  tax_amount = none;
  grand_total = none;
  notes_to_customer = dto.notes_to_customer;
  terms_and_conditions = dto.terms_and_conditions;
  selling_price_list = price_list;
  status = draft;
  sent_at = none;
  customer_po_number = none;
  customer_po_date = none;
  customer_po_doc_url = none;
  erpnext_quotation_id = none;
  erpnext_sales_order_id = none;
  erpnext_delivery_note_id = none;
  erpnext_invoice_id = none;
}

abbrev pub quotation_nos : Dict Quotation → Dict String
quotation_nos = map λ (r : ℕ × Quotation). (r.0, r.1.quotation_no)

unfoldable pub create : ℕ → CreateQuotation → RequestUser → Action (ℕ × Quotation)
create ticket_id dto actor = do
  ticket ← find_ticket ticket_id
  charged ← is_chargeable ticket_id
  throw_if (not charged) (
      bad_request
        "This ticket is warranty/AMC-covered — use the direct Sales Order path instead of a Quotation")
  quotations ← gets (λ db. db.quotations)
  default ← default_name
  env ← ask (λ env. env)
  create_row quotation_table (
      new_quotation env ticket_id ticket actor dto
        (next_no "QTN" env.local_year (quotation_nos quotations))
        (or_else dto.price_list_name default))

-- `assertEditable`, on the quotation's row
unfoldable pub editable_quotation : ℕ → Action Quotation
editable_quotation id = do
  quotation ← find_row quotation_table id
  throw_if (is_some (given quotation.erpnext_quotation_id))
      (bad_request "This quotation is already in ERPNext — edit it there, not in ACE")
  pure quotation

abbrev pub items_of : ℕ → Dict QuotationItem → Dict QuotationItem
items_of id = keep λ (r : ℕ × QuotationItem). r.1.quotation_id == id

-- `items.reduce((sum, it) => sum + f(it), 0)`
abbrev pub total_of : (ℕ → ℕ → ℕ) → (QuotationItem → ℕ) → ℕ → Dict QuotationItem → ℕ
total_of plus f sum [] = sum
total_of plus f sum (r ∷ rs) = total_of plus f (plus sum (f r.1)) rs

unfoldable pub subtotal_of : Env → Dict QuotationItem → ℕ
subtotal_of env = total_of env.plus (λ it. env.times it.qty it.unit_price) 0

unfoldable pub tax_of : Env → Dict QuotationItem → ℕ
tax_of env = total_of env.plus (λ it. it.tax_amount) 0

abbrev pub totalled : Env → Dict QuotationItem → Option ℕ → Quotation → Quotation
totalled env items labour q = record q {
  subtotal = some (subtotal_of env items);
  tax_amount = some (tax_of env items);
  grand_total =
      some (env.plus (env.plus (subtotal_of env items) (tax_of env items)) (get_or labour 0));
}

unfoldable pub recompute_totals : ℕ → Action Quotation
recompute_totals id = do
  quotation ← find_row quotation_table id
  items ← gets (λ db. items_of id db.quotation_items)
  env ← ask (λ env. env)
  update_row quotation_table id (totalled env items quotation.labour_charges)

pub record UpdateQuotation : Type 0 where
  pub valid_until : Option String
  pub labour_charges : Option ℕ
  pub notes_to_customer : Option String
  pub terms_and_conditions : Option String

-- FSD §14.4 rule 29: the new end of validity is in the future.
unfoldable pub is_reactivating : Env → UpdateQuotation → Quotation → Bool
is_reactivating env dto q = q.status == expired && (elim (given dto.valid_until) [
  | none ↦ false
  | some date ↦ ltb env.now (env.parse_date date)
])

abbrev pub edited_quotation : Env → UpdateQuotation → Quotation → Quotation → Quotation
edited_quotation env dto read q = record q {
  valid_until = get_or (Option.map env.parse_date (given dto.valid_until)) q.valid_until;
  labour_charges = or_else dto.labour_charges q.labour_charges;
  notes_to_customer = or_else dto.notes_to_customer q.notes_to_customer;
  terms_and_conditions = or_else dto.terms_and_conditions q.terms_and_conditions;
  status =
      if is_reactivating env dto read
      then (if is_some read.sent_at then sent else draft)
      else q.status;
}

unfoldable pub update : ℕ → UpdateQuotation → Action Quotation
update id dto = do
  quotation ← editable_quotation id
  env ← ask (λ env. env)
  update_row quotation_table id (edited_quotation env dto quotation)
  recompute_totals id

pub record AddItem : Type 0 where
  pub item_code : String
  pub item_name : String
  pub qty : ℕ
  pub uom : String
  pub unit_price : ℕ
  pub tax_amount : Option ℕ
  pub price_list_name : Option String

abbrev pub new_item : Env → ℕ → AddItem → QuotationItem
new_item env id dto = record {
  quotation_id = id;
  item_code = dto.item_code;
  item_name = dto.item_name;
  qty = dto.qty;
  uom = dto.uom;
  unit_price = dto.unit_price;
  tax_amount = get_or dto.tax_amount 0;
  line_total = env.plus (env.times dto.qty dto.unit_price) (get_or dto.tax_amount 0);
  price_list_name = dto.price_list_name;
}

unfoldable pub add_item : ℕ → AddItem → Action Quotation
add_item id dto = do
  editable_quotation id
  env ← ask (λ env. env)
  create_row quotation_item_table (new_item env id dto)
  recompute_totals id

pub record UpdateItem : Type 0 where
  pub qty : Option ℕ
  pub uom : Option String
  pub unit_price : Option ℕ
  pub tax_amount : Option ℕ

abbrev pub edited_item : Env → UpdateItem → QuotationItem → QuotationItem → QuotationItem
edited_item env dto read it =
    let qty = get_or dto.qty read.qty in
    let unit_price = get_or dto.unit_price read.unit_price in
    let tax_amount = get_or dto.tax_amount read.tax_amount in
    record it {
      qty = qty;
      unit_price = unit_price;
      tax_amount = tax_amount;
      line_total = env.plus (env.times qty unit_price) tax_amount;
      uom = get_or dto.uom read.uom;
    }

unfoldable pub update_item : ℕ → ℕ → UpdateItem → Action Quotation
update_item id item_id dto = do
  editable_quotation id
  item ← find_row quotation_item_table item_id
  env ← ask (λ env. env)
  update_row quotation_item_table item_id (edited_item env dto item)
  recompute_totals id

unfoldable pub remove_item : ℕ → ℕ → Action Quotation
remove_item id item_id = do
  editable_quotation id
  delete_row quotation_item_table item_id
  recompute_totals id
