-- ===== src/Quotations/Chargeability.antt =====
-- Who pays for a ticket: `getChargeability` of backend/src/ticketing/quotations/quotation.service.ts.
use proman_edge_ace.Prelude.{
  ℕ, String, Bool, true, false, ◌&&◌, Option, none, some, List, [], ◌∷◌, if◌then◌else◌, leb, ◌==◌,
  nat_eq,
}
use proman_edge_ace.Prelude.Dict.{Dict, lookup}
use proman_edge_ace.Schema.{Db, Ticket, AmcContract}
use proman_edge_ace.Action.{Action, ◌>>=◌, pure, ask, gets}
use proman_edge_ace.Store.{find_ticket}

-- The contracts that cover a machine, in the order of the join table.
abbrev pub contracts_of : ℕ → List (ℕ × ℕ) → Dict AmcContract → List (ℕ × AmcContract)
contracts_of equipment_id [] rows = []
contracts_of equipment_id ((c, e) ∷ links) rows =
    let rest = contracts_of equipment_id links rows in
    elim (lookup c rows) [
      | none ↦ rest
      | some contract ↦ if e == equipment_id then (c, contract) ∷ rest else rest
    ]

abbrev pub is_current : ℕ → AmcContract → Bool
is_current now c = leb c.start_date now && leb now c.end_date

abbrev pub first_current : ℕ → List (ℕ × AmcContract) → Option AmcContract
first_current now [] = none
first_current now ((id, c) ∷ cs) =
    let rest = first_current now cs in if is_current now c then some c else rest

-- The answer of `getChargeability`, by its reason.
pub data Chargeability : Type 0 where
  by_warranty : Option ℕ → Chargeability
  by_amc : String → ℕ → Chargeability
  chargeable : Chargeability

abbrev pub covering_contract : ℕ → Ticket → Db → Option AmcContract
covering_contract now t db = elim t.equipment_id [
  | none ↦ none
  | some e ↦ first_current now (contracts_of e db.covered db.contracts)
]

abbrev pub warranty_end : Ticket → Db → Option ℕ
warranty_end t db = elim t.equipment_id [
  | none ↦ none
  | some e ↦ elim (lookup e db.equipment) [ none ↦ none | some m ↦ some m.warranty_end_date ]
]

unfoldable pub chargeability_of : ℕ → Ticket → Db → Chargeability
chargeability_of now t db =
    if t.warranty_eligible
    then by_warranty (warranty_end t db)
    else elim (covering_contract now t db) [
      | some c ↦ by_amc c.contract_reference_no c.end_date
      | none ↦ chargeable
    ]

unfoldable pub get_chargeability : ℕ → Action Chargeability
get_chargeability ticket_id = do
  ticket ← find_ticket ticket_id
  now ← ask (λ env. env.now)
  gets (chargeability_of now ticket)

abbrev pub is_charged : Chargeability → Bool
is_charged chargeable = true
is_charged (by_warranty _) = false
is_charged (by_amc _ _) = false

unfoldable pub is_chargeable : ℕ → Action Bool
unfolding get_chargeability
is_chargeable ticket_id = do c ← get_chargeability ticket_id; pure (is_charged c)
