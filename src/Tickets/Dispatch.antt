-- ===== src/Tickets/Dispatch.antt =====
-- Who works on a ticket: `assign`, `retryAutoRouting`, `accept`, `reject`, `asmRejectResolution` and
-- `acknowledgeEscalation` of backend/src/ticketing/tickets/tickets.service.ts.
pub mod Escalation
pub mod PartialWrites
use Prim.Native.String.{◌++◌}
use mathlib.Core.Option
use proman_edge_ace.Prelude.{
  ℕ, ◌+◌, String, Bool, true, false, not, ◌&&◌, Option, none, some, List, [], ◌∷◌, if◌then◌else◌,
  ◌==◌, nat_eq, get_or, is_some, any, leb, push,
}
use proman_edge_ace.Prelude.Dict.{Dict, lookup}
use proman_edge_ace.Prelude.Text.{show}
use proman_edge_ace.Domain.Ticketing.{
  TicketStatus, «open», assigned, engineer_assigned, accepted, engineer_resolved, ticket_status_eq,
  priority_name,
}
use proman_edge_ace.Domain.People.{Role, engineer, role_eq, region_name, Region}
use proman_edge_ace.Domain.Logs.{NotifChannel, web_ui}
use proman_edge_ace.Schema.{Db, Ticket, User, Rejections, RejectionReason, AuditEntry}
use proman_edge_ace.Action.{
  Action, ◌>>=◌, ◌>>◌, pure, ask, gets, throw_if, throw_some, first_error, or_throw, run_if,
  with_some, for_each, bad_request, forbidden, Error, throw,
}
use proman_edge_ace.Store.{find_ticket, find_customer, find_user, update_ticket, audit}
use proman_edge_ace.Workflow.{TransitionParams, transition, plain_params}
use proman_edge_ace.Notifications.{Vars, fire_notification}
use proman_edge_ace.Tickets.Labels.{RequestUser}
use proman_edge_ace.Tickets.Routing.{managers_for_region, asms_for_region, pick_round_robin_asm}
use proman_edge_ace.Tickets.Announce.{
  Related, related_rows, push_to, email_to, email_and_push, notify_if_known, item_name_of,
  site_name_of,
}

-- A call of `transition` with a comment.
abbrev pub commented : ℕ → TicketStatus → RequestUser → Option String → TransitionParams
commented id target actor comment = record (plain_params id target actor.user_id actor.role) {
  comment = comment;
}

abbrev pub escalation_block : Error
escalation_block =
    forbidden
      "This ticket has been escalated after multiple rejections. A Manager must acknowledge the escalation before it can be reassigned."

abbrev pub with_engineer : ℕ → Ticket → Ticket
with_engineer engineer_id t = record t { assigned_engineer_id = some engineer_id }

abbrev pub assign_params : ℕ → User → RequestUser → TransitionParams
assign_params id eng actor =
    commented id engineer_assigned actor (some ("Assigned to " ++ eng.full_name))

-- What `assign` does once its guards have passed, up to the notifications.
unfoldable pub assign_engineer : ℕ → Ticket → ℕ → User → RequestUser → Action Ticket
assign_engineer id ticket engineer_id eng actor = do
  update_ticket id (with_engineer engineer_id)
  run_if (ticket.status == «open»)
      do transition (plain_params id assigned actor.user_id actor.role); pure tt
  transition (assign_params id eng actor)

-- N-03
notify_engineer : ℕ → Ticket → ℕ → User → Action (Unit {0})
notify_engineer id ticket engineer_id eng = do
  r ← related_rows ticket
  let vars =
      ("ticket_no", ticket.ticket_no)
      ∷ ("customer_name", r.customer.customer_name)
      ∷ ("site_name", site_name_of r.site r.customer)
      ∷ ("equipment_model", item_name_of r.equipment)
      ∷ ("priority", priority_name ticket.priority)
      ∷ []
  push_to "N-03" vars (some id) (engineer_id, eng)
  fire_notification "N-03" NotifChannel.whatsapp eng.mobile vars (some id) none

unfoldable pub assign : ℕ → ℕ → RequestUser → Action Ticket
unfolding notify_engineer
assign id engineer_id actor = do
  eng ← find_user engineer_id
  throw_if (not (eng.role == engineer)) (bad_request "Target user is not an Engineer")
  ticket ← find_ticket id
  throw_if ticket.rejections.escalated_multiple_rejections escalation_block
  result ← assign_engineer id ticket engineer_id eng actor
  notify_engineer id ticket engineer_id eng
  pure result

-- The ASM in turn, where the region has any.
unfoldable pub route_again : ℕ → Region → List ℕ → RequestUser → Action Ticket
route_again id region asms actor = elim asms [
  | [] ↦ throw (
      bad_request
        ("Still no ASM covers region " ++ region_name region ++ " — nothing to route to yet"))
  | first ∷ rest ↦ do
    chosen ← gets (pick_round_robin_asm first rest)
    asm ← find_user chosen
    update_ticket id λ t. record t { assigned_asm_id = some chosen }
    transition
        (commented id assigned actor (some ("Auto-routed to " ++ asm.full_name ++ " on retry")))
]

unfoldable pub retry_auto_routing : ℕ → RequestUser → Action Ticket
retry_auto_routing id actor = do
  ticket ← find_ticket id
  customer ← find_customer ticket.customer_id
  throw_some (
      first_error (
        (
          not (ticket.status == «open»),
          bad_request
              "This ticket has already moved past New — auto-routing only applies while unassigned",
        )
        ∷ (is_some ticket.assigned_asm_id, bad_request "This ticket already has an ASM assigned")
        ∷ []))
  region ←
      or_throw customer.region
        (bad_request "This ticket's customer still has no region set — resolve that first")
  asms ← gets (asms_for_region (some region))
  route_again id region asms actor

-- N-04
notify_accepted : ℕ → Action (Unit {0})
notify_accepted id = do
  ticket ← find_ticket id
  r ← related_rows ticket
  let vars =
      ("ticket_no", ticket.ticket_no)
      ∷ (
        "engineer_name",
        get_or (Option.map (λ u. u.1.full_name) r.assigned_engineer) "Your engineer",
      )
      ∷ ("site_name", r.customer.customer_name)
      ∷ ("visit_date", "shortly")
      ∷ []
  notify_if_known "N-04" NotifChannel.email r.customer.primary_contact_email vars id
  notify_if_known "N-04" NotifChannel.whatsapp r.customer.primary_contact_mobile vars id
  with_some r.assigned_asm (push_to "N-04" vars (some id))

unfoldable pub accept : ℕ → RequestUser → Action Ticket
unfolding notify_accepted
accept id actor = do
  result ← transition (plain_params id accepted actor.user_id actor.role)
  notify_accepted id
  pure result

-- One more rejection. From the third on, the ticket is escalated, whoever acknowledged an earlier one.
unfoldable pub count_rejection : RejectionReason → Rejections → Rejections → Rejections
count_rejection why old row =
    let counted = record row {
      rejection_count = old.rejection_count + 1;
      rejection_reasons = push old.rejection_reasons why;
    } in
    if leb 3 (old.rejection_count + 1)
    then record counted {
      escalated_multiple_rejections = true;
      escalation_acknowledged_at = none;
      escalation_acknowledged_by_user_id = none;
    }
    else counted

pub data EscalationTier : Type 0 where
  asm_notified manager_alerted escalated_to_manager : EscalationTier

unfoldable pub escalation_tier : ℕ → EscalationTier
escalation_tier count =
    if leb 3 count
    then escalated_to_manager
    else if count == 2
    then manager_alerted
    else asm_notified

-- The trigger of each tier.
unfoldable pub trigger_code : ℕ → String
trigger_code count = if leb 3 count then "N-07" else if count == 2 then "N-06" else "N-05"

abbrev rejecting_name : Related → String → String
rejecting_name r otherwise = get_or (Option.map (λ u. u.1.full_name) r.assigned_engineer) otherwise

abbrev pub rejected_vars : Ticket → Related → String → RequestUser → Vars
rejected_vars ticket r reason actor =
    ("ticket_no", ticket.ticket_no)
    ∷ ("engineer_name", rejecting_name r (show actor.user_id))
    ∷ ("rejection_reason", reason)
    ∷ []

unfoldable pub notify_rejected : ℕ → Ticket → Related → String → RequestUser → ℕ → Action (Unit {0})
unfolding trigger_code
notify_rejected id ticket r reason actor count = do
  let vars = rejected_vars ticket r reason actor
  with_some r.assigned_asm λ asm. do
    push_to (trigger_code count) vars (some id) asm
    email_to (trigger_code count) vars (some id) asm
  run_if (leb 2 count) do
    managers ← gets (managers_for_region r.customer.region)
    for_each managers (email_and_push (trigger_code count) vars (some id))

abbrev pub hand_back_params : ℕ → String → RequestUser → Related → TransitionParams
hand_back_params id reason actor r =
    commented id assigned actor
      (some ("Rejected by " ++ rejecting_name r "Engineer" ++ ": " ++ reason))

-- The transition of `reject` and what follows it; `count` is the new one.
unfoldable pub hand_back :
    ℕ → String → RequestUser → Ticket → Related → ℕ → Action (Ticket × EscalationTier)
unfolding notify_rejected
hand_back id reason actor ticket r count = do
  updated ← transition (hand_back_params id reason actor r)
  notify_rejected id ticket r reason actor count
  pure (updated, escalation_tier count)

-- The write of `reject`.
unfoldable pub rejected : ℕ → String → RequestUser → Ticket → Ticket → Ticket
rejected now reason actor old row = record row {
  assigned_engineer_id = none;
  rejections =
      count_rejection
        (record { engineer_id = some actor.user_id; reason = reason; timestamp = now })
        old.rejections row.rejections;
}

unfoldable pub reject : ℕ → String → RequestUser → Action (Ticket × EscalationTier)
reject id reason actor = do
  ticket ← find_ticket id
  r ← related_rows ticket
  now ← ask (λ env. env.now)
  update_ticket id (rejected now reason actor ticket)
  hand_back id reason actor ticket r (ticket.rejections.rejection_count + 1)

unfoldable pub asm_reject_resolution :
    ℕ → ℕ → String → RequestUser → Action (Ticket × EscalationTier)
asm_reject_resolution id engineer_id reason actor = do
  eng ← find_user engineer_id
  throw_if (not (eng.role == engineer)) (bad_request "Target user is not an Engineer")
  ticket ← find_ticket id
  throw_some (
      first_error (
        (
          not (ticket.status == engineer_resolved),
          bad_request "Only an Engineer Resolved ticket can be rejected this way",
        )
        ∷ (ticket.rejections.escalated_multiple_rejections, escalation_block)
        ∷ []))
  now ← ask (λ env. env.now)
  let why : RejectionReason = record {
    engineer_id = ticket.assigned_engineer_id;
    reason = reason;
    timestamp = now;
  }
  update_ticket id λ t. record t {
    assigned_engineer_id = some engineer_id;
    rejections = count_rejection why ticket.rejections t.rejections;
  }
  updated ← transition (
      commented id engineer_assigned actor
        (some ("ASM rejected: " ++ reason ++ " — reassigned to " ++ eng.full_name)))
  pure (updated, escalation_tier (ticket.rejections.rejection_count + 1))

-- The writes of `acknowledgeEscalation`.
abbrev pub acknowledged : ℕ → RequestUser → Ticket → Ticket
acknowledged now actor t = record t {
  rejections = record t.rejections {
    escalated_multiple_rejections = false;
    escalation_acknowledged_at = some now;
    escalation_acknowledged_by_user_id = some actor.user_id;
  };
}

abbrev pub acknowledged_entry : ℕ → RequestUser → AuditEntry
acknowledged_entry id actor = record {
  entity_type = "TICKET";
  entity_id = id;
  field_name = "escalationAcknowledged";
  old_value = some "true";
  new_value = some "false";
  changed_by_user_id = actor.user_id;
  change_source = web_ui;
}

abbrev pub not_covering : Error
not_covering =
    forbidden "Only a Manager covering this ticket's region can acknowledge this escalation."

unfoldable pub acknowledge_escalation : ℕ → RequestUser → Action Ticket
acknowledge_escalation id actor = do
  ticket ← find_ticket id
  customer ← find_customer ticket.customer_id
  throw_if (not ticket.rejections.escalated_multiple_rejections)
      (bad_request "This ticket is not currently escalated.")
  managers ← gets (managers_for_region customer.region)
  throw_if (not (any (λ r. r.0 == actor.user_id) managers)) not_covering
  now ← ask (λ env. env.now)
  updated ← update_ticket id (acknowledged now actor)
  audit (acknowledged_entry id actor)
  pure updated
