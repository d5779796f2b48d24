-- ===== src/Tickets/Creation/Draft.antt =====
-- The new ticket's columns, worked out before `create` of
-- backend/src/ticketing/tickets/tickets.service.ts writes.
use Prim.Native.String.{◌++◌}
use mathlib.Core.Option
use proman_edge_ace.Prelude.{
  ℕ, String, Bool, false, not, Option, none, some, List, [], if◌then◌else◌, nat_eq, string_eq,
  get_or, is_just,
}
use proman_edge_ace.Prelude.Dict.{Dict, lookup}
use proman_edge_ace.Domain.Ticketing.{«open», ticket_status_eq, Priority, source_eq, on_track}
use proman_edge_ace.Domain.People.{role_eq}
use proman_edge_ace.Domain.Masters.{
  account_status_eq, equip_status_eq, under_warranty, warranty_status_eq, WarrantyStatus,
}
use proman_edge_ace.Schema.{Ticket, Customer, Equipment, SlaPolicy}
use proman_edge_ace.Env.{Env}
use proman_edge_ace.Action.{Action, ◌>>=◌, ◌>>◌, pure, ask, gets, throw_if, bad_request}
use proman_edge_ace.SlaPolicy.{resolve, uses_target_date}
use proman_edge_ace.Workflow.{given}
use proman_edge_ace.Tickets.Labels.{RequestUser, default_priority, service_type_label}
use proman_edge_ace.Tickets.Numbering.{next_ticket_no}
use proman_edge_ace.Tickets.Creation.Checks.{
  CreateTicketDto, is_valid_active_code, duplicate_candidate, due_after, hours_of,
}

-- What `create` works out before it writes.
pub record Plan : Type 0 where
  pub customer : Customer
  pub equipment : Option Equipment
  pub service_type : Option String
  pub priority : Priority
  pub duplicate : Option (ℕ × Ticket)
  pub policy : Option (ℕ × SlaPolicy)
  pub ticket_no : String
  pub subject : String

abbrev site_id_of : Option Equipment → Option ℕ
site_id_of none = none
site_id_of (some e) = e.site_id

-- The target date, for the service types that have one.
abbrev pub target_date : Env → CreateTicketDto → Option ℕ
target_date env dto =
    if uses_target_date dto.service_type
    then Option.map env.parse_date dto.sla_target_date
    else none

unfoldable pub new_ticket : Env → List ℕ → CreateTicketDto → RequestUser → Plan → Ticket
new_ticket env holidays dto actor plan = record {
  ticket_no = plan.ticket_no;
  source = dto.source;
  service_type = plan.service_type;
  customer_category = dto.customer_category;
  priority = plan.priority;
  status = «open»;
  subject = plan.subject;
  description = dto.description;
  customer_id = dto.customer_id;
  equipment_id = dto.equipment_id;
  site_id = site_id_of plan.equipment;
  warranty_status_at_creation = warranty;
  warranty_eligible = is_just warranty under_warranty;
  override_reason = none;
  reached_site_gps = none;
  sla = record {
    target_date = target_date env dto;
    response_due = due_after env holidays (hours_of (λ p. p.response_hours) plan.policy);
    resolution_due =
        if uses_target_date plan.service_type
        then target_date env dto
        else due_after env holidays (hours_of (λ p. p.resolution_hours) plan.policy);
    response_met = false;
    resolution_met = false;
    response_status = on_track;
    resolution_status = on_track;
    response_breached_at = none;
    resolution_breached_at = none;
    response_escalation_level = 0;
    resolution_escalation_level = 0;
    paused_at = none;
    paused_minutes = 0;
    policy_id = Option.map (λ r. r.0) plan.policy;
  };
  rejections = record {
    rejection_count = 0;
    rejection_reasons = [];
    escalated_multiple_rejections = false;
    escalation_acknowledged_at = none;
    escalation_acknowledged_by_user_id = none;
  };
  csat = record { survey_sent = false; score = none; response_text = none };
  created_by_user_id = actor.user_id;
  assigned_asm_id = none;
  assigned_engineer_id = none;
  re_open_count = 0;
  pending_reason = none;
  pending_notes = none;
  resolution_summary = none;
  possible_duplicate_of_id = none;
  duplicate_flag_resolved = false;
  tags = [];
  created_at = env.now;
  closed_at = none;
  erpnext_invoice_id = none;
}
  where
    warranty : Option WarrantyStatus
    warranty = Option.map (λ e. e.warranty_status) plan.equipment

-- The service type, the priority, the duplicate and the guards on the request.
unfoldable pub plan_ticket : CreateTicketDto → Customer → Option Equipment → Action Plan
plan_ticket dto customer equipment = do
  codes ← gets (λ db. db.service_types)
  throw_if (unknown codes (given dto.service_type))
      (bad_request ("Unknown or inactive service type \"" ++ get_or dto.service_type "" ++ "\""))
  env ← ask (λ env. env)
  duplicate ← gets (duplicate_candidate env.now dto)
  policy ← resolve dto.service_type (get_or dto.priority (default_priority dto.service_type))
  number ← gets (next_ticket_no env)
  sites ← gets (λ db. db.sites)
  pure (record {
    customer = customer;
    equipment = equipment;
    service_type = dto.service_type;
    priority = get_or dto.priority (default_priority dto.service_type);
    duplicate = duplicate;
    policy = policy;
    ticket_no = number;
    subject = get_or dto.subject (auto_subject sites);
  })
  where
    unknown : List (String × Bool) → Option String → Bool
    unknown codes none = false
    unknown codes (some code) = not (is_valid_active_code code codes)

    site_name : Dict String → Option Equipment → String
    site_name sites none = customer.customer_name
    site_name sites (some e) = elim e.site_id [
      | none ↦ customer.customer_name
      | some id ↦ get_or (lookup id sites) customer.customer_name
    ]

    item_name : Option Equipment → String
    item_name none = "General"
    item_name (some e) = e.item_name

    auto_subject : Dict String → String
    auto_subject sites =
        item_name equipment
        ++ " — "
        ++ service_type_label dto.service_type
        ++ " — "
        ++ site_name sites equipment
