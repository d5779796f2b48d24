-- ===== src/Machines/Predictive.antt =====
-- backend/src/ticketing/equipment/predictive-engine.cron.ts. The operating hours of a machine are thousandths of
-- an hour.
use Prim.Native.String.{◌++◌}
use proman_edge_ace.Prelude.{
  ℕ, ◌+◌, ◌-◌, ◌*◌, ◌/◌, ◌%◌, String, Bool, false, not, ◌&&◌, Option, none, some, if◌then◌else◌,
  keep, any, leb, length, ◌==◌, nat_eq, string_eq, get_or, is_just,
}
use proman_edge_ace.Prelude.Dict.{Dict, lookup}
use proman_edge_ace.Prelude.Text.{show, pad_zeros}
use proman_edge_ace.Domain.Ticketing.{
  closed, ticket_status_eq, predictive, source_eq, Priority, high, medium,
}
use proman_edge_ace.Domain.Masters.{submitted, fsv_status_eq}
use proman_edge_ace.Schema.{Db, Equipment, PredictiveRule, Ticket, Visit}
use proman_edge_ace.Action.{
  Action, ◌>>=◌, ◌>>◌, pure, ask, gets, attempt, run_if, with_some, for_each,
}
use proman_edge_ace.Store.Tables.{equipment_table, update_row}
use proman_edge_ace.Tickets.Intake.{create_from_predictive_trigger}
use proman_edge_ace.Machines.Engines.{is_active, rule_for, has_open_scheduled_pm}

unfoldable pub has_open_predictive_ticket : ℕ → String → Dict Ticket → Bool
has_open_predictive_ticket id service_type tickets =
    any
      (λ (t : ℕ × Ticket).
        is_just t.1.equipment_id id
        && is_just t.1.service_type service_type
        && t.1.source == predictive
        && not (t.1.status == closed))
      tickets

unfoldable pub check_breakdown_frequency : ℕ → ℕ → ℕ → Dict Ticket → Bool
check_breakdown_frequency id threshold since tickets = leb threshold (
    length (
      keep
        (λ (t : ℕ × Ticket).
          is_just t.1.equipment_id id
          && is_just t.1.service_type "BREAKDOWN_CHARGEABLE"
          && leb since t.1.created_at)
        tickets))

abbrev pub is_visit_to : ℕ → Dict Ticket → Visit → Bool
is_visit_to id tickets v = elim (lookup v.ticket_id tickets) [
  | none ↦ false
  | some t ↦ is_just t.equipment_id id
]

abbrev pub is_since : ℕ → Option ℕ → Bool
is_since since none = false
is_since since (some t) = leb since t

unfoldable pub check_time_since_service : ℕ → ℕ → Db → Bool
check_time_since_service id since db = not (
    any
      (λ (v : ℕ × Visit).
        v.1.status == submitted && is_visit_to id db.tickets v.1 && is_since since v.1.submitted_at)
      db.visits)

create_predictive_ticket : ℕ × Equipment → String → Priority → String → Action (Unit {0})
create_predictive_ticket (id, e) service_type priority reason = do
  create_from_predictive_trigger e.customer_id id e.serial_no service_type priority reason
  pure tt

-- Rules 1 and 2 of a machine with its category's rule.
unfoldable pub audit_rules : ℕ × Equipment → PredictiveRule → Action (Unit {0})
unfolding create_predictive_ticket
audit_rules (id, e) rule = do
  env ← ask (λ env. env)
  often ← gets λ db.
      check_breakdown_frequency id rule.breakdown_frequency_threshold
        (env.sub_months env.now rule.breakdown_frequency_window_months) db.tickets
  neglected ← gets (check_time_since_service id (env.sub_months env.now rule.months_since_service))
  if often
      then create_predictive_ticket (id, e) "TECHNICAL_AUDIT" high
          ("Breakdown frequency: "
            ++ show rule.breakdown_frequency_threshold
            ++ "+ chargeable breakdowns in the last "
            ++ show rule.breakdown_frequency_window_months
            ++ " months.")
      else run_if neglected (
          create_predictive_ticket (id, e) "TECHNICAL_AUDIT" medium
            ("No submitted Field Service Visit in the last "
              ++ show rule.months_since_service
              ++ " months."))

-- A number of thousandths as JavaScript shows it
unfoldable pub hours_text : ℕ → String
hours_text n =
    if n % 1000 == 0
    then show (n / 1000)
    else if n % 100 == 0
    then show (n / 1000) ++ "." ++ show (n % 1000 / 100)
    else if n % 10 == 0
    then show (n / 1000) ++ "." ++ pad_zeros 2 (show (n % 1000 / 10))
    else show (n / 1000) ++ "." ++ pad_zeros 3 (show (n % 1000))

-- The interval of a rule, in thousandths of an hour
abbrev pub interval : PredictiveRule → ℕ
interval rule = rule.operating_hours_interval * 1000

unfoldable pub is_interval_crossed : ℕ → ℕ → ℕ → Bool
is_interval_crossed meter checkpoint size = leb (checkpoint + size) meter

unfoldable pub next_checkpoint : ℕ → ℕ → ℕ → ℕ
next_checkpoint meter checkpoint size = checkpoint + (meter - checkpoint) / size * size

-- Rule 3 of a machine with a meter and its category's rule.
unfoldable pub hours_rule : ℕ × Equipment → ℕ → PredictiveRule → Action (Unit {0})
unfolding create_predictive_ticket
hours_rule (id, e) meter rule = do
  let checkpoint = get_or e.predictive_hours_checkpoint 0
  has_open ← gets (λ db. has_open_scheduled_pm id db.tickets)
  run_if (is_interval_crossed meter checkpoint (interval rule)) do
    run_if (not has_open) (
        create_predictive_ticket (id, e) "SCHEDULED_PM" high
          ("Operating hours meter crossed the "
            ++ show rule.operating_hours_interval
            ++ "-hour service interval (currently "
            ++ hours_text meter
            ++ "h)."))
    update_row equipment_table id λ r. record r {
      predictive_hours_checkpoint = some (next_checkpoint meter checkpoint (interval rule));
    }
    pure tt

-- The `try` of one machine
unfoldable pub evaluate : ℕ × Equipment → Option PredictiveRule → Action (Unit {0})
evaluate r rule = do
  has_audit ← gets (λ db. has_open_predictive_ticket r.0 "TECHNICAL_AUDIT" db.tickets)
  run_if (not has_audit) (with_some rule (audit_rules r))
  with_some rule λ found. with_some r.1.operating_hours_meter λ meter. hours_rule r meter found

unfoldable pub run_predictive_engine : Action (Unit {0})
run_predictive_engine = do
  machines ← gets (λ db. keep (λ (r : ℕ × Equipment). is_active r.1) db.equipment)
  rules ← gets (λ db. db.predictive_rules)
  for_each machines λ r. do attempt (evaluate r (rule_for r.1.equipment_category rules)); pure tt
