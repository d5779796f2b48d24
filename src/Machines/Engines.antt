-- ===== src/Machines/Engines.antt =====
-- The nightly engines of machines under warranty:
-- backend/src/ticketing/equipment/warranty-engine.cron.ts and warranty-pm.cron.ts, and the tickets of
-- backend/src/ticketing/amc/amc-visit.cron.ts. A look-ahead of days has no daylight saving in it.
use proman_edge_ace.Prelude.{
  ℕ, zero, suc, ◌+◌, ◌*◌, Bool, not, ◌&&◌, Option, none, some, List, [], ◌∷◌, if◌then◌else◌, keep,
  any, leb, ltb, ◌==◌, nat_eq, string_eq, get_or, is_just, is_some,
}
use proman_edge_ace.Prelude.Dict.{Dict}
use proman_edge_ace.Domain.Ticketing.{closed, ticket_status_eq}
use proman_edge_ace.Domain.Masters.{EquipStatus, equip_status_eq, warranty_status_eq}
use proman_edge_ace.Domain.Contracts
use proman_edge_ace.Domain.Contracts.{EquipCategory, renewal_status_eq, equip_category_eq}
use proman_edge_ace.Schema.{
  Db, Equipment, AmcContract, PmVisit, ScheduledVisit, PredictiveRule, Ticket,
}
use proman_edge_ace.Action.{
  Action, ◌>>=◌, ◌>>◌, pure, ask, gets, or_throw, attempt, run_if, for_each, record_not_found,
  modify_db,
}
use proman_edge_ace.Store.Tables.{
  equipment_table, pm_visit_table, scheduled_visit_table, contract_table, find_row, create_row,
  update_row, row_where,
}
use proman_edge_ace.Quotations.Chargeability.{contracts_of}
use proman_edge_ace.Tickets.Intake.{
  create_from_warranty_outreach, create_from_warranty_pm_schedule, create_from_amc_schedule,
}
use proman_edge_ace.Machines.Warranty.{compute_warranty_status, soon}

-- Whether a contract is in force for the engines: neither LAPSED nor RENEWED.
unfoldable pub is_in_force : AmcContract → Bool
is_in_force c =
    not (c.renewal_status == Contracts.lapsed) && not (c.renewal_status == Contracts.renewed)

abbrev pub has_active_amc : ℕ → Db → Bool
has_active_amc id db =
    any (λ (c : ℕ × AmcContract). is_in_force c.1) (contracts_of id db.covered db.contracts)

abbrev pub is_active : Equipment → Bool
is_active e = e.status == EquipStatus.active

-- Rule 12, for one machine
unfoldable pub recompute_one : ℕ × Equipment → Action (Unit {0})
recompute_one (id, e) = do
  now ← ask (λ env. env.now)
  let next = compute_warranty_status now e.warranty_end_date
  run_if (not (next == e.warranty_status))
      do update_row equipment_table id λ r. record r { warranty_status = next }; pure tt

unfoldable pub recompute_warranty_statuses : Action (Unit {0})
recompute_warranty_statuses = do
  machines ← gets (λ db. keep (λ (r : ℕ × Equipment). is_active r.1) db.equipment)
  for_each machines recompute_one

-- The `try` of rule 15
unfoldable pub reach_out : ℕ × Equipment → Action (Unit {0})
reach_out (id, e) = do
  now ← ask (λ env. env.now)
  create_from_warranty_outreach e.customer_id id e.serial_no e.warranty_end_date
  update_row equipment_table id λ r. record r { warranty_outreach_sent_at = some now }
  pure tt

unfoldable pub is_due_for_outreach : ℕ → Equipment → Bool
is_due_for_outreach now e =
    is_active e && not (is_some e.warranty_outreach_sent_at) && leb e.warranty_end_date (now + soon)

-- Rule 15, for one machine
unfoldable pub outreach_one : ℕ × Equipment → Action (Unit {0})
outreach_one r = do
  covered ← gets (has_active_amc r.0)
  run_if (not covered) (do attempt (reach_out r); pure tt)

unfoldable pub generate_outreach_tickets : Action (Unit {0})
generate_outreach_tickets = do
  now ← ask (λ env. env.now)
  machines ← gets (λ db. keep (λ (r : ℕ × Equipment). is_due_for_outreach now r.1) db.equipment)
  for_each machines outreach_one

-- `WarrantyEngineCron.run`
unfoldable pub run_warranty_engine : Action (Unit {0})
run_warranty_engine = do recompute_warranty_statuses; generate_outreach_tickets

abbrev pub rule_for : EquipCategory → List PredictiveRule → Option PredictiveRule
rule_for category [] = none
rule_for category (r ∷ rs) =
    let rest = rule_for category rs in if r.equipment_category == category then some r else rest

-- The loop of `generateSchedules` on `fuel` intervals: `none` is a loop that needs more.
unfoldable pub pm_dates : (ℕ → ℕ → ℕ) → ℕ → ℕ → ℕ → ℕ → ℕ → Option (List ℕ)
pm_dates add_months zero start end' months seq = none
pm_dates add_months (suc fuel) start end' months seq =
    let d = add_months start (months * seq) in
    let rest = pm_dates add_months fuel start end' months (suc seq) in
    if ltb end' d then some [] else (elim rest [ none ↦ none | some ds ↦ some (d ∷ ds) ])

-- Visits with the numbers from `i + 1` on
unfoldable pub pm_visits_on : ℕ → List ℕ → ℕ → List PmVisit
pm_visits_on id [] i = []
pm_visits_on id (date ∷ dates) i =
    record {
      equipment_id = id;
      visit_seq_no = suc i;
      planned_date = date;
      status = Contracts.scheduled_pending;
      linked_ticket_id = none;
    }
    ∷ pm_visits_on id dates (suc i)

create_pm_visit : PmVisit → Action (Unit {0})
create_pm_visit v = do create_row pm_visit_table v; pure tt

abbrev pub interval_of : Option PredictiveRule → ℕ
interval_of none = 3
interval_of (some r) = r.warranty_pm_interval_months

-- One machine of `generateSchedules`. The milliseconds of the warranty are fuel enough.
unfoldable pub schedule_one : ℕ × Equipment → Action (Unit {0})
unfolding create_pm_visit
schedule_one (id, e) = do
  covered ← gets (has_active_amc id)
  rule ← gets (λ db. rule_for e.equipment_category db.predictive_rules)
  env ← ask (λ env. env)
  let months = interval_of rule
  let dates =
      pm_dates env.add_months (e.warranty_end_date + 2) e.warranty_start_date e.warranty_end_date
        months 1
  run_if (not covered) (for_each (pm_visits_on id (get_or dates []) 0) create_pm_visit)

abbrev pub has_pm_visits : ℕ → Dict PmVisit → Bool
has_pm_visits id visits = any (λ (v : ℕ × PmVisit). v.1.equipment_id == id) visits

unfoldable pub generate_schedules : Action (Unit {0})
generate_schedules = do
  machines ← gets λ db.
      keep (λ (r : ℕ × Equipment). is_active r.1 && not (has_pm_visits r.0 db.pm_visits))
        db.equipment
  for_each machines schedule_one

unfoldable pub has_open_scheduled_pm : ℕ → Dict Ticket → Bool
has_open_scheduled_pm id tickets =
    any
      (λ (t : ℕ × Ticket).
        is_just t.1.equipment_id id
        && is_just t.1.service_type "SCHEDULED_PM"
        && not (t.1.status == closed))
      tickets

-- The key of a ticket that has been returned; ticket numbers are unique.
abbrev pub id_of : Ticket → Action ℕ
id_of t = do
  rows ← gets (λ db. db.tickets)
  r ← or_throw (row_where (λ (u : Ticket). u.ticket_no == t.ticket_no) rows) record_not_found
  pure r.0

-- The `try` of one due visit
unfoldable pub raise_pm_ticket : ℕ × PmVisit → Action (Unit {0})
raise_pm_ticket (id, v) = do
  machine ← find_row equipment_table v.equipment_id
  has_open ← gets (λ db. has_open_scheduled_pm v.equipment_id db.tickets)
  run_if (not has_open) do
    ticket ←
        create_from_warranty_pm_schedule machine.customer_id v.equipment_id machine.serial_no
          v.visit_seq_no v.planned_date
    ticket_id ← id_of ticket
    update_row pm_visit_table id
        λ r. record r { status = Contracts.ticket_raised; linked_ticket_id = some ticket_id }
    pure tt

-- The look-ahead of the settings' row, which is created with 7 days where it is missing.
unfoldable pub get_pm_look_ahead_days : Action ℕ
get_pm_look_ahead_days = do
  days ← gets (λ db. get_or db.pm_look_ahead 7)
  modify_db (λ db. record db { pm_look_ahead = some days })
  pure days

unfoldable pub get_amc_look_ahead_days : Action ℕ
get_amc_look_ahead_days = do
  days ← gets (λ db. get_or db.amc_look_ahead 7)
  modify_db (λ db. record db { amc_look_ahead = some days })
  pure days

unfoldable pub raise_due_tickets : Action (Unit {0})
raise_due_tickets = do
  days ← get_pm_look_ahead_days
  now ← ask (λ env. env.now)
  due ← gets λ db.
      keep
        (λ (r : ℕ × PmVisit).
          not (is_some r.1.linked_ticket_id) && leb r.1.planned_date (now + days * 86400000))
        db.pm_visits
  for_each due (λ r. do attempt (raise_pm_ticket r); pure tt)

-- `WarrantyPmCron.run`
unfoldable pub run_warranty_pm : Action (Unit {0})
run_warranty_pm = do generate_schedules; raise_due_tickets

-- The `try` of one due visit of a contract
unfoldable pub raise_amc_ticket : ℕ × ScheduledVisit → Action (Unit {0})
raise_amc_ticket (id, v) = do
  contract ← find_row contract_table v.contract_id
  ticket ←
      create_from_amc_schedule contract.customer_id v.equipment_id v.visit_seq_no
        contract.contract_reference_no v.planned_date
  ticket_id ← id_of ticket
  update_row scheduled_visit_table id
      λ r. record r { status = Contracts.ticket_raised; linked_ticket_id = some ticket_id }
  pure tt

-- `AmcVisitCron.run`
unfoldable pub run_amc_visits : Action (Unit {0})
run_amc_visits = do
  days ← get_amc_look_ahead_days
  now ← ask (λ env. env.now)
  due ← gets λ db.
      keep
        (λ (r : ℕ × ScheduledVisit).
          not (is_some r.1.linked_ticket_id) && leb r.1.planned_date (now + days * 86400000))
        db.scheduled_visits
  for_each due (λ r. do attempt (raise_amc_ticket r); pure tt)
