-- ===== src/PriceLists.antt =====
-- backend/src/ticketing/price-lists/price-list.service.ts; the list of ERPNext's own price lists is a
-- query of another database.
pub mod Defaults
use proman_edge_ace.Prelude.{
  ℕ, String, Bool, true, false, ◌&&◌, Option, none, some, [], ◌∷◌, if◌then◌else◌, map, ◌==◌,
  string_eq, get_or, is_just, is_some,
}
use proman_edge_ace.Prelude.Dict.{Dict}
use proman_edge_ace.Schema.{Db, PriceList}
use proman_edge_ace.Action.{Action, ◌>>=◌, ◌>>◌, pure, gets, modify_db, throw_if, run_if, conflict}
use proman_edge_ace.Store.Tables.{price_list_table, change, create_row, update_row, delete_row}

-- The first list that satisfies `p`.
abbrev pub list_where : (PriceList → Bool) → Dict PriceList → Option PriceList
list_where p [] = none
list_where p ((id, l) ∷ ls) = let rest = list_where p ls in if p l then some l else rest

-- `updateMany({ data: { isDefault: false } })`
abbrev pub without_default : Dict PriceList → Dict PriceList
without_default = map λ (r : ℕ × PriceList). (r.0, record r.1 { is_default = false })

unfoldable pub clear_default : Action (Unit {0})
clear_default = modify_db (change price_list_table without_default)

unfoldable pub create : String → Option Bool → Action (Unit {0})
unfolding clear_default
create name is_default = do
  existing ← gets (λ db. list_where (λ l. l.name == name) db.price_lists)
  throw_if (is_some existing) (conflict "A price list with this name already exists")
  run_if (get_or is_default false) clear_default
  create_row price_list_table
      (record { name = name; is_default = get_or is_default false; is_active = true })
  pure tt

-- `undefined` leaves a column as it is.
abbrev pub edited : Option Bool → Option Bool → PriceList → PriceList
edited is_default is_active l = record l {
  is_default = get_or is_default l.is_default;
  is_active = get_or is_active l.is_active;
}

unfoldable pub update : ℕ → Option Bool → Option Bool → Action (Unit {0})
unfolding clear_default
update id is_default is_active = do
  run_if (get_or is_default false) clear_default
  update_row price_list_table id (edited is_default is_active)
  pure tt

unfoldable pub remove : ℕ → Action (Unit {0})
remove id = do delete_row price_list_table id; pure tt

abbrev pub listed_default : Dict PriceList → Option String
listed_default lists = elim (list_where (λ l. l.is_default && l.is_active) lists) [
  | none ↦ none
  | some l ↦ some l.name
]

unfoldable pub default_name : Action (Option String)
default_name = gets (λ db. listed_default db.price_lists)

-- What the administration screen asks for.
pub data Request : Type 0 where
  creating : String → Option Bool → Request
  updating : ℕ → Option Bool → Option Bool → Request
  removing : ℕ → Request

abbrev pub handle : Request → Action (Unit {0})
handle (creating name is_default) = create name is_default
handle (updating id is_default is_active) = update id is_default is_active
handle (removing id) = remove id
