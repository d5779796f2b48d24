-- ===== src/Tickets/Creation.antt =====
-- `create` of backend/src/ticketing/tickets/tickets.service.ts. The database's key for a new ticket is
-- one that no row has.
mod Checks
mod Draft
pub mod Duplicates
pub mod Outcomes
unfoldable pub use Checks.*
unfoldable pub use Draft.*
use Prim.Native.String.{◌++◌}
use mathlib.Core.Option
use proman_edge_ace.Prelude.{
  ℕ, ◌+◌, ◌-◌, String, Bool, true, false, not, ◌&&◌, ◌||◌, Option, none, some, List, [], ◌∷◌,
  if◌then◌else◌, ◌==◌, nat_eq, string_eq, get_or, or_else, is_some, is_just, includes, leb, ltb,
  any, find,
}
use proman_edge_ace.Prelude.Dict.{Dict, lookup, fresh, insert}
use proman_edge_ace.Prelude.Text.{is_blank}
use proman_edge_ace.Domain.Ticketing.{
  TicketStatus, «open», assigned, closed, ticket_status_eq, Priority, Source, source_eq,
  source_name, on_track,
}
use proman_edge_ace.Domain.People.{Role, manager, role_eq}
use proman_edge_ace.Domain.Masters.{
  CustomerCategory, AccountStatus, inactive, blacklisted, account_status_eq, account_status_name,
  EquipStatus, decommissioned, sold, equip_status_eq, under_warranty, warranty_status_eq,
  WarrantyStatus,
}
use proman_edge_ace.Domain.Logs.{web_ui, system_job}
use proman_edge_ace.Schema.{Db, Ticket, Customer, Equipment, SlaPolicy, AuditEntry}
use proman_edge_ace.Env.{Env}
use proman_edge_ace.Action.{
  Action, ◌>>=◌, ◌>>◌, pure, ask, gets, modify_db, throw_if, throw_some, first_error, run_if,
  with_some, for_each, transaction, attempt, Error, bad_request, forbidden, throw,
}
use proman_edge_ace.Store.{find_ticket, find_customer, find_equipment, update_ticket, audit}
use proman_edge_ace.BusinessHours.{business_due}
use proman_edge_ace.SlaPolicy.{resolve, uses_target_date, sla_target_date_label}
use proman_edge_ace.Workflow.{given, transition, plain_params}
use proman_edge_ace.Notifications.{Vars}
use proman_edge_ace.Tickets.Labels.{
  RequestUser, default_priority, dedup_window, auto_merge_sources, service_type_label,
}
use proman_edge_ace.Tickets.Routing.{managers_for_region, asms_for_region, pick_round_robin_asm}
use proman_edge_ace.Tickets.Numbering.{next_ticket_no}
use proman_edge_ace.Tickets.Announce.{
  email_and_push, item_name_of, fire_ticket_created_notifications,
}
use Draft.{Plan, new_ticket, plan_ticket}
use Checks.{
  CreateTicketDto, is_valid_blacklist_override, is_blocked, is_valid_active_code, refuse_blocked,
  usable_equipment, duplicate_candidate, due_after, hours_of,
}

abbrev pub system_note : ℕ → String → String → ℕ → AuditEntry
system_note id field value actor = record {
  entity_type = "TICKET";
  entity_id = id;
  field_name = field;
  old_value = none;
  new_value = some value;
  changed_by_user_id = actor;
  change_source = system_job;
}

abbrev pub merge_text : CreateTicketDto → String
merge_text dto = "Merged duplicate " ++ source_name dto.source ++ " report: " ++ dto.description

-- The note on a ticket that a machine's report repeats.
unfoldable pub merge_duplicate : CreateTicketDto → RequestUser → ℕ × Ticket → Action Ticket
merge_duplicate dto actor (id, t) = do
  audit (system_note id "duplicate_merge" (merge_text dto) actor.user_id)
  pure t

reference_duplicate : ℕ → RequestUser → ℕ × Ticket → Action (Unit {0})
reference_duplicate id actor (other_id, other) = do
  iso ← ask (λ env. env.iso_string other.created_at)
  update_ticket id λ t. record t { possible_duplicate_of_id = some other_id }
  audit (
      system_note id "duplicate_reference"
        ("Possible duplicate of " ++ other.ticket_no ++ " (created " ++ iso ++ ")") actor.user_id)

-- To the ASM whose turn it is, if the region has one.
unfoldable pub route_ticket : ℕ → List ℕ → RequestUser → Action (Unit {0})
route_ticket id [] actor = pure tt
route_ticket id (asm ∷ asms) actor = do
  chosen ← gets (pick_round_robin_asm asm asms)
  update_ticket id λ t. record t { assigned_asm_id = some chosen }
  transition (plain_params id assigned actor.user_id actor.role)
  pure tt

-- The transaction of `create`, up to the new ticket's key.
unfoldable pub write_ticket : CreateTicketDto → RequestUser → Plan → Action ℕ
unfolding reference_duplicate
write_ticket dto actor plan = do
  env ← ask (λ env. env)
  holidays ← gets (λ db. db.holidays)
  id ← gets (λ db. fresh db.tickets)
  modify_db
      (λ db. record db { tickets = insert id (new_ticket env holidays dto actor plan) db.tickets })
  with_some plan.duplicate λ other.
      run_if (not (includes auto_merge_sources dto.source)) (reference_duplicate id actor other)
  asms ← gets (asms_for_region plan.customer.region)
  route_ticket id asms actor
  pure id

override_entry : ℕ → CreateTicketDto → RequestUser → Customer → AuditEntry
override_entry id dto actor customer = record {
  entity_type = "TICKET";
  entity_id = id;
  field_name = "blacklistOverride";
  old_value = none;
  new_value = some (
      account_status_name customer.account_status
      ++ " ("
      ++ get_or dto.override_reason "no reason given"
      ++ ")");
  changed_by_user_id = actor.user_id;
  change_source = web_ui;
}

-- The second half of `create`, for a ticket that is no repetition.
unfoldable pub create_planned : CreateTicketDto → RequestUser → Plan → Action Ticket
unfolding override_entry
create_planned dto actor plan = do
  throw_if (uses_target_date plan.service_type && not (is_some (given dto.sla_target_date))) (
      bad_request (
        sla_target_date_label (get_or plan.service_type "")
        ++ " is required for "
        ++ service_type_label plan.service_type
        ++ " tickets."))
  id ← transaction (write_ticket dto actor plan)
  attempt (fire_ticket_created_notifications id)
  run_if (is_valid_blacklist_override dto actor) (audit (override_entry id dto actor plan.customer))
  find_ticket id

-- A report by machine that repeats a ticket.
unfoldable pub merge_target : CreateTicketDto → Plan → Option (ℕ × Ticket)
merge_target dto plan = if includes auto_merge_sources dto.source then plan.duplicate else none

unfoldable pub create : CreateTicketDto → RequestUser → Action Ticket
create dto actor = do
  customer ← find_customer dto.customer_id
  run_if (is_blocked customer && not (is_valid_blacklist_override dto actor))
      (refuse_blocked customer actor)
  equipment ← usable_equipment dto.equipment_id
  plan ← plan_ticket dto customer equipment
  elim (merge_target dto plan) [
    | some other ↦ merge_duplicate dto actor other
    | none ↦ create_planned dto actor plan
  ]
