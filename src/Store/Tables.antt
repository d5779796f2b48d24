-- ===== src/Store/Tables.antt =====
-- Prisma's calls on any table: `findUniqueOrThrow`, `findMany`, `create`, `update` and `delete`.
pub mod Every
pub mod Keys
use mathlib.Core.Option
use proman_edge_ace.Prelude.{
  ℕ, ◌≡◌, refl, Bool, Option, none, some, List, [], ◌∷◌, keep, if◌then◌else◌,
}
use proman_edge_ace.Prelude.Dict.{Dict, lookup, modify, insert, remove, fresh}
use proman_edge_ace.Schema.{
  Db, Visit, Part, Photo, PriceList, Quotation, QuotationItem, Delivery, AmcContract,
  ScheduledVisit, PmVisit, Equipment, User, Ticket,
}
use proman_edge_ace.Action.{Action, ◌>>=◌, ◌>>◌, pure, gets, or_throw, modify_db, record_not_found}

-- One table of the database, with the laws of its place there.
pub record Table (V : Type 0) : Type 0 where
  pub rows : Db → Dict V
  pub set_rows : Dict V → Db → Db
  pub rows-set : (d : Dict V) (db : Db) → rows (set_rows d db) ≡ d

-- `findFirst`: the first row that satisfies `p`, with its key.
abbrev pub row_where : {V : Type 0} → (V → Bool) → Dict V → Option (ℕ × V)
row_where p [] = none
row_where p ((id, v) ∷ rows) = let rest = row_where p rows in if p v then some (id, v) else rest

module _ {V : Type 0} (t : Table V) where
  abbrev pub find_row : ℕ → Action V
  find_row id = do rows ← gets t.rows; or_throw (lookup id rows) record_not_found

  abbrev pub rows_where : (V → Bool) → Action (Dict V)
  rows_where p = gets (λ db. keep (λ (r : ℕ × V). p r.1) (t.rows db))

  abbrev pub change : (Dict V → Dict V) → Db → Db
  change f db = t.set_rows (f (t.rows db)) db

  -- The new row's key is returned with it.
  abbrev pub create_row : V → Action (ℕ × V)
  create_row v = do
    id ← gets (λ db. fresh (t.rows db))
    modify_db (change (insert id v))
    pure (id, v)

  abbrev pub update_row : ℕ → (V → V) → Action V
  update_row id f = do v ← find_row id; modify_db (change (modify id f)); pure (f v)

  abbrev pub delete_row : ℕ → Action V
  delete_row id = do v ← find_row id; modify_db (change (remove id)); pure v

abbrev pub ticket_table : Table Ticket
ticket_table = record {
  rows = λ db. db.tickets;
  set_rows = λ d db. record db { tickets = d };
  rows-set = λ d db. refl;
}

abbrev pub visit_table : Table Visit
visit_table = record {
  rows = λ db. db.visits;
  set_rows = λ d db. record db { visits = d };
  rows-set = λ d db. refl;
}

abbrev pub part_table : Table Part
part_table = record {
  rows = λ db. db.parts;
  set_rows = λ d db. record db { parts = d };
  rows-set = λ d db. refl;
}

abbrev pub photo_table : Table Photo
photo_table = record {
  rows = λ db. db.photos;
  set_rows = λ d db. record db { photos = d };
  rows-set = λ d db. refl;
}

abbrev pub price_list_table : Table PriceList
price_list_table = record {
  rows = λ db. db.price_lists;
  set_rows = λ d db. record db { price_lists = d };
  rows-set = λ d db. refl;
}

abbrev pub quotation_table : Table Quotation
quotation_table = record {
  rows = λ db. db.quotations;
  set_rows = λ d db. record db { quotations = d };
  rows-set = λ d db. refl;
}

abbrev pub quotation_item_table : Table QuotationItem
quotation_item_table = record {
  rows = λ db. db.quotation_items;
  set_rows = λ d db. record db { quotation_items = d };
  rows-set = λ d db. refl;
}

abbrev pub delivery_table : Table Delivery
delivery_table = record {
  rows = λ db. db.deliveries;
  set_rows = λ d db. record db { deliveries = d };
  rows-set = λ d db. refl;
}

abbrev pub contract_table : Table AmcContract
contract_table = record {
  rows = λ db. db.contracts;
  set_rows = λ d db. record db { contracts = d };
  rows-set = λ d db. refl;
}

abbrev pub scheduled_visit_table : Table ScheduledVisit
scheduled_visit_table = record {
  rows = λ db. db.scheduled_visits;
  set_rows = λ d db. record db { scheduled_visits = d };
  rows-set = λ d db. refl;
}

abbrev pub pm_visit_table : Table PmVisit
pm_visit_table = record {
  rows = λ db. db.pm_visits;
  set_rows = λ d db. record db { pm_visits = d };
  rows-set = λ d db. refl;
}

abbrev pub equipment_table : Table Equipment
equipment_table = record {
  rows = λ db. db.equipment;
  set_rows = λ d db. record db { equipment = d };
  rows-set = λ d db. refl;
}

abbrev pub user_table : Table User
user_table = record {
  rows = λ db. db.users;
  set_rows = λ d db. record db { users = d };
  rows-set = λ d db. refl;
}
