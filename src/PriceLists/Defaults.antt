-- ===== src/PriceLists/Defaults.antt =====
-- The default of the price lists: backend/src/ticketing/price-lists/price-list.service.ts.
use proman_edge_ace.Prelude.{
  ℕ, ◌+◌, ◌≤◌, ◌≡◌, refl, String, Bool, true, false, Option, none, some, List, [], ◌∷◌, length,
  keep, arith, if◌then◌else◌, get_or,
}
use proman_edge_ace.Prelude.Dict
use proman_edge_ace.Prelude.Dict.{Dict}
use proman_edge_ace.Schema.{Db, PriceList}
use proman_edge_ace.Env.{Env}
use proman_edge_ace.Action.Requests.{serve, serve-keeps}
use proman_edge_ace.PriceLists.{
  create, update, remove, edited, without_default, clear_default, Request, creating, updating,
  removing, handle,
}

-- How many lists are the default.
abbrev pub defaults : Dict PriceList → ℕ
defaults ls = length (keep (λ r. r.1.is_default) ls)

defaults-without_default : (ls : Dict PriceList) → defaults (without_default ls) ≡ 0
defaults-without_default [] = refl
defaults-without_default (l ∷ ls) = defaults-without_default ls

defaults-insert :
    (id : ℕ) (l : PriceList) (ls : Dict PriceList)
    → defaults (Dict.insert id l ls) ≡ defaults ls + (if l.is_default then 1 else 0)
defaults-insert id l [] = ground arith
defaults-insert id l (r ∷ ls) = ground (arith, defaults-insert id l ls)

defaults-remove : (id : ℕ) (ls : Dict PriceList) → defaults (Dict.remove id ls) ≤ defaults ls
defaults-remove id [] = omega arith
defaults-remove id ((j, l) ∷ ls) = ground (arith, defaults-remove id ls)

-- An edit makes at most the one list the default, and only where it says so.
defaults-modify :
    (id : ℕ) (d a : Option Bool) (ls : Dict PriceList)
    → defaults (Dict.modify id (edited d a) ls) ≤ defaults ls + (if get_or d false then 1 else 0)
defaults-modify id d a [] = ground arith
defaults-modify id none a ((j, l) ∷ ls) = ground (arith, defaults-modify id none a ls)
defaults-modify id (some true) a ((j, l) ∷ ls) = ground (arith, defaults-modify id (some true) a ls)
defaults-modify id (some false) a ((j, l) ∷ ls) =
    ground (arith, defaults-modify id (some false) a ls)

abbrev AtMostOne : Db → Type 0
AtMostOne db = defaults db.price_lists ≤ 1

create-AtMostOne :
    (name : String) (d : Option Bool) (env : Env) (db : Db)
    → AtMostOne db
    → AtMostOne (create name d env db).1
unfolding create clear_default
create-AtMostOne name none env db one = ground (
  arith,
  defaults-insert (Dict.fresh db.price_lists)
      (record { name = name; is_default = false; is_active = true }) db.price_lists,
)
create-AtMostOne name (some false) env db one = ground (
  arith,
  defaults-insert (Dict.fresh db.price_lists)
      (record { name = name; is_default = false; is_active = true }) db.price_lists,
)
create-AtMostOne name (some true) env db one =
    let ls = without_default db.price_lists in
    ground (
      arith,
      defaults-insert (Dict.fresh ls) (record { name = name; is_default = true; is_active = true })
          ls,
      defaults-without_default db.price_lists,
    )

update-AtMostOne :
    (id : ℕ) (d a : Option Bool) (env : Env) (db : Db)
    → AtMostOne db
    → AtMostOne (update id d a env db).1
unfolding update clear_default
update-AtMostOne id none a env db one = ground (arith, defaults-modify id none a db.price_lists)
update-AtMostOne id (some false) a env db one =
    ground (arith, defaults-modify id (some false) a db.price_lists)
update-AtMostOne id (some true) a env db one = ground (
  arith,
  defaults-modify id (some true) a (without_default db.price_lists),
  defaults-without_default db.price_lists,
)

remove-AtMostOne : (id : ℕ) (env : Env) (db : Db) → AtMostOne db → AtMostOne (remove id env db).1
unfolding remove
remove-AtMostOne id env db one = ground (arith, defaults-remove id db.price_lists)

handle-AtMostOne :
    (r : Request) (env : Env) (db : Db) → AtMostOne db → AtMostOne (handle r env db).1
handle-AtMostOne (creating name d) env db one = create-AtMostOne name d env db one
handle-AtMostOne (updating id d a) env db one = update-AtMostOne id d a env db one
handle-AtMostOne (removing id) env db one = remove-AtMostOne id env db one

-- However many requests the service answers, at any times, those that throw included: where at most one
-- price list is the default, at most one is afterwards.
pub one_default_list :
    (rs : List (Env × Request)) (db : Db)
    → defaults db.price_lists ≤ 1
    → defaults (serve handle rs db).price_lists ≤ 1
one_default_list = serve-keeps handle AtMostOne handle-AtMostOne
