-- ===== src/Contracts/Visits.antt =====
-- Changes of planned visits and of contracts: backend/src/ticketing/amc/amc-contract.service.ts.
-- `undefined` in a request leaves a column as it is.
use Prim.Native.Nat.{max}
use proman_edge_ace.Prelude.{
  ℕ, suc, String, Bool, not, ◌||◌, Option, none, some, List, [], ◌∷◌, if◌then◌else◌, keep, ◌==◌,
  nat_eq, or_else,
}
use proman_edge_ace.Prelude.Dict.{Dict}
use proman_edge_ace.Domain.Contracts
use proman_edge_ace.Domain.Contracts.{visit_status_eq}
use proman_edge_ace.Schema.{Db, AmcContract, ScheduledVisit}
use proman_edge_ace.Env.{Env}
use proman_edge_ace.Action.{Action, ◌>>=◌, ◌>>◌, pure, ask, gets, modify_db, throw_if, bad_request}
use proman_edge_ace.Store.Tables.{
  contract_table, scheduled_visit_table, find_row, create_row, update_row, delete_row,
}
use proman_edge_ace.Contracts.Schedule.{CreateContract, Overlap, find_overlaps, link}

abbrev pub rescheduled_row : ℕ → Option String → ScheduledVisit → ScheduledVisit
rescheduled_row date notes v = record v {
  planned_date = date;
  notes = or_else notes v.notes;
  status = Contracts.rescheduled;
}

unfoldable pub reschedule_visit : ℕ → String → Option String → Action ScheduledVisit
reschedule_visit visit_id date notes = do
  env ← ask (λ env. env)
  update_row scheduled_visit_table visit_id (rescheduled_row (env.parse_date date) notes)

-- `aggregate({ _max: { visitSeqNo: true } })`, and 0 where there is none
unfoldable pub max_seq : ℕ → Dict ScheduledVisit → ℕ
max_seq contract_id [] = 0
max_seq contract_id ((_, v) ∷ rows) =
    let rest = max_seq contract_id rows in
    if v.contract_id == contract_id then max v.visit_seq_no rest else rest

unfoldable pub add_visit : ℕ → ℕ → String → Action (ℕ × ScheduledVisit)
add_visit contract_id equipment_id date = do
  last ← gets (λ db. max_seq contract_id db.scheduled_visits)
  env ← ask (λ env. env)
  create_row scheduled_visit_table (record {
    contract_id = contract_id;
    visit_seq_no = suc last;
    planned_date = env.parse_date date;
    equipment_id = equipment_id;
    notes = none;
    status = Contracts.scheduled_pending;
    linked_ticket_id = none;
  })

unfoldable pub is_under_way : ScheduledVisit → Bool
is_under_way v = v.status == Contracts.ticket_raised || v.status == Contracts.completed

unfoldable pub remove_visit : ℕ → Action ScheduledVisit
remove_visit visit_id = do
  visit ← find_row scheduled_visit_table visit_id
  throw_if (is_under_way visit) (
      bad_request (
        if visit.status == Contracts.ticket_raised
        then "Cannot remove a visit that's already raised a ticket"
        else "Cannot remove a visit that's already completed"))
  delete_row scheduled_visit_table visit_id

abbrev pub updated_contract : Env → CreateContract → AmcContract → AmcContract
updated_contract env dto c = record c {
  contract_reference_no = dto.contract_reference_no;
  customer_id = dto.customer_id;
  start_date = env.parse_date dto.start_date;
  end_date = env.parse_date dto.end_date;
  contract_value = dto.contract_value;
  visits_included = dto.visits_included;
  parts_coverage = dto.parts_coverage;
  scope_of_services = or_else dto.scope_of_services c.scope_of_services;
  exclusions = or_else dto.exclusions c.exclusions;
  owning_asm_id = or_else dto.owning_asm_id c.owning_asm_id;
  previous_contract_id = or_else dto.previous_contract_id c.previous_contract_id;
  signed_agreement_url = or_else dto.signed_agreement_url c.signed_agreement_url;
  terms_and_conditions = or_else dto.terms_and_conditions c.terms_and_conditions;
}

-- `coveredEquipment: { set: … }` clears the contract's links first.
abbrev pub unlink : ℕ → Db → Db
unlink contract_id db = record db {
  covered = keep (λ (l : ℕ × ℕ). not (l.0 == contract_id)) db.covered;
}

unfoldable pub update : ℕ → CreateContract → Action (AmcContract × List Overlap)
update id dto = do
  env ← ask (λ env. env)
  contract ← update_row contract_table id (updated_contract env dto)
  modify_db (λ db. link id dto.covered_equipment_ids (unlink id db))
  warnings ←
      find_overlaps id dto.covered_equipment_ids (env.parse_date dto.start_date)
        (env.parse_date dto.end_date)
  pure (contract, warnings)

unfoldable pub upload_document : ℕ → String → Action AmcContract
upload_document id url =
    update_row contract_table id λ c. record c { signed_agreement_url = some url }
