-- ===== src/Contracts/Schedule.antt =====
-- Maintenance contracts and their planned visits: backend/src/ticketing/amc/amc-contract.service.ts. The
-- interval between visits is exact, where JavaScript's quotient is rounded.
use mathlib.Core.List.{◌++◌ as append}
use Prim.Native.String.{◌++◌}
use proman_edge_ace.Prelude.{
  ℕ, zero, suc, ◌+◌, ◌-◌, ◌*◌, ◌/◌, ◌%◌, String, Bool, not, ◌&&◌, ◌||◌, Option, none, some, List,
  [], ◌∷◌, map, if◌then◌else◌, keep, leb, ltb, length, ◌==◌, nat_eq, includes,
}
use proman_edge_ace.Prelude.Dict.{Dict, lookup}
use proman_edge_ace.Prelude.Text.{show}
use proman_edge_ace.Domain.Contracts
use proman_edge_ace.Domain.Contracts.{renewal_status_eq}
use proman_edge_ace.Schema.{Db, AmcContract, ScheduledVisit, Equipment}
use proman_edge_ace.Env.{Env}
use proman_edge_ace.Action.{
  Action, ◌>>=◌, ◌>>◌, pure, ask, gets, modify_db, throw_if, throw_some, first_error, for_each,
  bad_request,
}
use proman_edge_ace.Store.Tables.{
  contract_table, scheduled_visit_table, find_row, rows_where, create_row, update_row,
}

pub record CreateContract : Type 0 where
  pub contract_reference_no : String
  pub customer_id : ℕ
  pub start_date : String
  pub end_date : String
  pub contract_value : String
  pub visits_included : ℕ
  pub parts_coverage : Contracts.PartsCoverage
  pub scope_of_services : Option String
  pub exclusions : Option String
  pub owning_asm_id : Option ℕ
  pub previous_contract_id : Option ℕ
  pub signed_agreement_url : Option String
  pub terms_and_conditions : Option String
  pub covered_equipment_ids : List ℕ
  pub visit_dates : Option (List String)

abbrev pub new_contract : Env → CreateContract → AmcContract
new_contract env dto = record {
  contract_reference_no = dto.contract_reference_no;
  customer_id = dto.customer_id;
  start_date = env.parse_date dto.start_date;
  end_date = env.parse_date dto.end_date;
  contract_value = dto.contract_value;
  visits_included = dto.visits_included;
  parts_coverage = dto.parts_coverage;
  scope_of_services = dto.scope_of_services;
  exclusions = dto.exclusions;
  renewal_status = Contracts.RenewalStatus.active;
  renewal_alert30_sent_at = none;
  renewal_alert15_sent_at = none;
  renewal_alert7_sent_at = none;
  owning_asm_id = dto.owning_asm_id;
  previous_contract_id = dto.previous_contract_id;
  signed_agreement_url = dto.signed_agreement_url;
  terms_and_conditions = dto.terms_and_conditions;
}

-- `start + (end - start) / (n + 1) * i`, in whole milliseconds
unfoldable pub spaced_date : ℕ → ℕ → ℕ → ℕ → ℕ
spaced_date start end' n i =
    if leb start end'
    then start + (end' - start) * i / suc n
    else start - ((start - end') * i + n) / suc n

-- The dates of the visits from number `i` on, `left` of them.
unfoldable pub spaced_from : ℕ → ℕ → ℕ → ℕ → ℕ → List ℕ
unfolding spaced_date
spaced_from start end' n zero i = []
spaced_from start end' n (suc left) i =
    spaced_date start end' n i ∷ spaced_from start end' n left (suc i)

unfoldable pub planned_dates : Env → ℕ → ℕ → ℕ → Option (List String) → List ℕ
unfolding spaced_from
planned_dates env n start end' none = spaced_from start end' n n 1
planned_dates env n start end' (some dates) =
    if length dates == n then map env.parse_date dates else spaced_from start end' n n 1

-- `xs[i]`, and `x` beyond the end
unfoldable pub nth_or : ℕ → List ℕ → ℕ → ℕ
nth_or x [] i = x
nth_or x (y ∷ ys) zero = y
nth_or x (y ∷ ys) (suc i) = nth_or x ys i

-- The visits on the given dates, the first with the number `i + 1`, over the machines in turn.
unfoldable pub visits_on : ℕ → List ℕ → List ℕ → ℕ → List ScheduledVisit
visits_on contract_id machines [] i = []
visits_on contract_id machines (date ∷ dates) i =
    record {
      contract_id = contract_id;
      visit_seq_no = suc i;
      planned_date = date;
      equipment_id = nth_or 0 machines (i % length machines);
      notes = none;
      status = Contracts.scheduled_pending;
      linked_ticket_id = none;
    }
    ∷ visits_on contract_id machines dates (suc i)

-- `generateScheduledVisits`, as the rows of its `createMany`
unfoldable pub scheduled : Env → ℕ → ℕ → ℕ → ℕ → List ℕ → Option (List String) → List ScheduledVisit
scheduled env contract_id n start end' machines dates =
    if ltb n 1 || ltb (length machines) 1
    then []
    else visits_on contract_id machines (planned_dates env n start end' dates) 0

create_visit : ScheduledVisit → Action (Unit {0})
create_visit v = do create_row scheduled_visit_table v; pure tt

unfoldable pub generate_scheduled_visits :
    ℕ → ℕ → ℕ → ℕ → List ℕ → Option (List String) → Action (Unit {0})
unfolding create_visit
generate_scheduled_visits contract_id n start end' machines dates = do
  env ← ask (λ env. env)
  for_each (scheduled env contract_id n start end' machines dates) create_visit

pub record Overlap : Type 0 where
  pub equipment_id : ℕ
  pub equipment_serial_no : String
  pub other_contract_ref_no : String

abbrev pub machines_of : ℕ → List (ℕ × ℕ) → List ℕ
machines_of contract_id links =
    map (λ (l : ℕ × ℕ). l.1) (keep (λ (l : ℕ × ℕ). l.0 == contract_id) links)

abbrev pub serial_of : ℕ → Dict Equipment → String
serial_of id rows = elim (lookup id rows) [ none ↦ "" | some e ↦ e.serial_no ]

abbrev pub overlaps_with : Db → List ℕ → ℕ × AmcContract → List Overlap
overlaps_with db machines (id, c) =
    map
      (λ (e : ℕ). record {
        equipment_id = e;
        equipment_serial_no = serial_of e db.equipment;
        other_contract_ref_no = c.contract_reference_no;
      })
      (keep (includes machines) (machines_of id db.covered))

-- Another contract whose dates meet the given ones
unfoldable pub is_overlapping : ℕ → ℕ → ℕ → ℕ × AmcContract → Bool
is_overlapping self start end' (id, c) =
    not (id == self) && leb c.start_date end' && leb start c.end_date

unfoldable pub overlaps_among : Db → ℕ → List ℕ → ℕ → ℕ → Dict AmcContract → List Overlap
overlaps_among db self machines start end' [] = []
overlaps_among db self machines start end' (r ∷ rs) =
    let rest = overlaps_among db self machines start end' rs in
    if is_overlapping self start end' r then append (overlaps_with db machines r) rest else rest

unfoldable pub find_overlaps : ℕ → List ℕ → ℕ → ℕ → Action (List Overlap)
find_overlaps self machines start end' =
    gets (λ db. overlaps_among db self machines start end' db.contracts)

abbrev pub link : ℕ → List ℕ → Db → Db
link contract_id machines db = record db {
  covered = append db.covered (map (λ (e : ℕ). (contract_id, e)) machines);
}

unfoldable pub create : CreateContract → Action (ℕ × AmcContract × List Overlap)
create dto = do
  env ← ask (λ env. env)
  let start = env.parse_date dto.start_date
  let end' = env.parse_date dto.end_date
  r ← create_row contract_table (new_contract env dto)
  modify_db (link r.0 dto.covered_equipment_ids)
  warnings ← find_overlaps r.0 dto.covered_equipment_ids start end'
  generate_scheduled_visits r.0 dto.visits_included start end' dto.covered_equipment_ids
      dto.visit_dates
  pure (r.0, r.1, warnings)

unfoldable pub renew : ℕ → CreateContract → Action (ℕ × AmcContract × List Overlap)
renew old_id dto = do
  old ← find_row contract_table old_id
  throw_if (old.renewal_status == Contracts.renewed) (
      bad_request
        "This contract has already been renewed — renew its replacement instead once that one needs it.")
  result ← create (record dto { previous_contract_id = some old_id })
  update_row contract_table old_id λ c. record c { renewal_status = Contracts.renewed }
  pure result

unfoldable pub generate_schedule_for_existing : ℕ → List String → Action (Unit {0})
generate_schedule_for_existing id dates = do
  contract ← find_row contract_table id
  visits ← rows_where scheduled_visit_table (λ v. v.contract_id == id)
  machines ← gets (λ db. machines_of id db.covered)
  throw_some (
      first_error (
        (not (ltb (length visits) 1), bad_request "This contract already has scheduled visits")
        ∷ (
          not (length dates == contract.visits_included),
          bad_request (
              "Expected "
              ++ show contract.visits_included
              ++ " visit dates, got "
              ++ show (length dates)),
        )
        ∷ []))
  generate_scheduled_visits id contract.visits_included contract.start_date contract.end_date
      machines (some dates)
