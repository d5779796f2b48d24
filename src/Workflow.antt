-- ===== src/Workflow.antt =====
-- The ticket's state machine: backend/src/ticketing/workflow/workflow.constants.ts and
-- workflow.service.ts. A call with the caller's transaction (`tx`) and one without write the same rows,
-- so `tx` is no parameter: the caller's transaction is the `transaction` around the call.
pub mod Rules
pub mod Pause
pub mod Transitions
pub mod Lifecycle
use Prim.Native.String.{◌++◌}
use mathlib.Core.Option
use proman_edge_ace.Prelude.{
  ℕ, ◌+◌, ◌-◌, ◌/◌, String, Bool, true, false, not, ◌&&◌, ◌||◌, Option, none, some, List, [], ◌∷◌,
  if◌then◌else◌, includes, ◌==◌, is_some,
}
use proman_edge_ace.Prelude.Text.{trim, non_empty, is_blank}
use proman_edge_ace.Domain.Ticketing.{
  TicketStatus, «open», assigned, engineer_assigned, accepted, reached_site, working, pending,
  engineer_resolved, asm_resolved, closed, ticket_status_eq, ticket_status_name, PendingReason,
  on_track,
}
use proman_edge_ace.Domain.People.{
  Role, call_center, asm, engineer, manager, admin, role_eq, role_name,
}
use proman_edge_ace.Domain.Logs.{web_ui}
use proman_edge_ace.Schema.{Ticket, Sla, AuditEntry}
use proman_edge_ace.Action.{
  Action, ◌>>=◌, ◌>>◌, pure, ask, gets, Error, first_error, throw_some, bad_request, forbidden,
}
use proman_edge_ace.Store.{find_ticket, update_ticket, audit}
use proman_edge_ace.SlaPolicy.{uses_target_date}

pub record Rule : Type 0 where
  pub next : List TicketStatus
  pub allowed_roles : List Role

-- `TICKET_TRANSITIONS`
unfoldable pub ticket_transitions : TicketStatus → Rule
ticket_transitions «open» = record {
  next = assigned ∷ [];
  allowed_roles = call_center ∷ asm ∷ manager ∷ [];
}
ticket_transitions assigned = record {
  next = engineer_assigned ∷ [];
  allowed_roles = asm ∷ manager ∷ [];
}
ticket_transitions engineer_assigned = record {
  next = accepted ∷ assigned ∷ [];
  allowed_roles = engineer ∷ [];
}
ticket_transitions accepted = record { next = reached_site ∷ []; allowed_roles = engineer ∷ [] }
ticket_transitions reached_site = record { next = working ∷ []; allowed_roles = engineer ∷ [] }
ticket_transitions working = record {
  next = pending ∷ engineer_resolved ∷ [];
  allowed_roles = engineer ∷ [];
}
ticket_transitions pending = record { next = working ∷ []; allowed_roles = engineer ∷ [] }
ticket_transitions engineer_resolved = record {
  next = asm_resolved ∷ engineer_assigned ∷ [];
  allowed_roles = asm ∷ manager ∷ [];
}
ticket_transitions asm_resolved = record {
  next = closed ∷ [];
  allowed_roles = call_center ∷ manager ∷ [];
}
ticket_transitions closed = record { next = «open» ∷ []; allowed_roles = admin ∷ [] }

-- `const REGULARIZE_ROLES`
abbrev pub regularize_roles : List Role
regularize_roles = admin ∷ call_center ∷ []

pub record TransitionParams : Type 0 where
  pub ticket_id : ℕ
  pub target_status : TicketStatus
  pub actor_user_id : ℕ
  pub actor_role : Role
  pub pending_reason : Option PendingReason
  pub pending_notes : Option String
  pub resolution_summary : Option String
  pub comment : Option String

-- A call that gives none of the optional parameters.
abbrev pub plain_params : ℕ → TicketStatus → ℕ → Role → TransitionParams
plain_params id target user role = record {
  ticket_id = id;
  target_status = target;
  actor_user_id = user;
  actor_role = role;
  pending_reason = none;
  pending_notes = none;
  resolution_summary = none;
  comment = none;
}

-- A string that is given and not empty.
abbrev pub given : Option String → Option String
given none = none
given (some s) = non_empty s

-- A due date that has not been met moves by the time paused, `now - at`.
abbrev pub push_back : Bool → ℕ → ℕ → Option ℕ → Option ℕ
push_back met now at due = if met then due else Option.map (λ d. d + now - at) due

-- `Math.max(0, Math.round(elapsedMs / 60000))`, where `now - at` stops at 0.
abbrev pub paused_minutes_of : ℕ → ℕ → ℕ
paused_minutes_of now at = (now - at + 30000) / 60000

resume_sla : ℕ → ℕ → Option String → Sla → Sla → Sla
resume_sla now at service_type old row = record row {
  paused_at = none;
  paused_minutes = old.paused_minutes + paused_minutes_of now at;
  response_due =
      if old.response_met then row.response_due else push_back false now at old.response_due;
  resolution_due =
      if uses_target_date service_type || old.resolution_met
      then row.resolution_due
      else push_back false now at old.resolution_due;
}

-- `pauseData`, assigned into the row: the old ticket's columns decide, as the service read them.
unfoldable pub pause_sla : List TicketStatus → ℕ → Ticket → TicketStatus → Sla → Sla
unfolding resume_sla
pause_sla pausing now ticket target row =
    let was_paused = includes pausing ticket.status in
    let will_be_paused = includes pausing target in
    if not was_paused && will_be_paused
    then record row { paused_at = some now }
    else (if was_paused && not will_be_paused
        then elim ticket.sla.paused_at [
          | none ↦ row
          | some at ↦ resume_sla now at ticket.service_type ticket.sla row
        ]
        else row)

-- `${targetStatus} (${auditNote})`
pub status_entry : ℕ → TicketStatus → TicketStatus → ℕ → Option String → AuditEntry
status_entry id from target actor note = record {
  entity_type = "TICKET";
  entity_id = id;
  field_name = "status";
  old_value = some (ticket_status_name from);
  new_value = elim note [
    | none ↦ some (ticket_status_name target)
    | some n ↦ some (ticket_status_name target ++ " (" ++ n ++ ")")
  ];
  changed_by_user_id = actor;
  change_source = web_ui;
}

-- `applyTransition`; `patch` is the caller's `data`.
unfoldable pub apply_transition :
    ℕ → Ticket → TicketStatus → ℕ → Option String → (Ticket → Ticket) → Action Ticket
unfolding pause_sla status_entry
apply_transition id ticket target actor note patch = do
  pausing ← gets (λ db. db.pause_states)
  now ← ask (λ env. env.now)
  updated ←
      update_ticket id
        λ t. record (patch t) { sla = pause_sla pausing now ticket target (patch t).sla }
  audit (status_entry id ticket.status target actor note)
  pure updated

-- The clocks in a transition's patch, from a status to a status.
unfoldable pub transition_sla : TicketStatus → TicketStatus → Sla → Sla
transition_sla from assigned s = record s { response_met = true; response_status = on_track }
transition_sla from engineer_resolved s = record s {
  resolution_met = true;
  resolution_status = on_track;
}
transition_sla engineer_resolved engineer_assigned s = record s {
  resolution_met = false;
  resolution_status = on_track;
}
transition_sla _ _ s = s

-- The patch of `transition`.
unfoldable pub transition_data : TransitionParams → ℕ → TicketStatus → Ticket → Ticket
unfolding transition_sla
transition_data p now from t = record t {
  status = target;
  closed_at = if target == closed then some now else t.closed_at;
  pending_reason = if target == pending then p.pending_reason else none;
  pending_notes = if target == pending then p.pending_notes else none;
  resolution_summary = elim (given p.resolution_summary) [
    | none ↦ t.resolution_summary
    | some s ↦ some s
  ];
  sla = transition_sla from target t.sla;
}
  where
    target : TicketStatus
    target = p.target_status

-- The guards of `transition`, in the order of the source.
unfoldable pub transition_error : Ticket → TransitionParams → Option Error
unfolding ticket_transitions
transition_error ticket p = first_error (
    (
      not (includes rule.next target),
      bad_request (
          "Cannot move ticket from "
          ++ ticket_status_name ticket.status
          ++ " to "
          ++ ticket_status_name target),
    )
    ∷ (
      not (role == admin) && not (includes rule.allowed_roles role),
      forbidden ("Role " ++ role_name role ++ " cannot trigger this transition"),
    )
    ∷ (
      target == pending && not (is_some p.pending_reason),
      bad_request "pendingReason is required when moving a ticket to Pending",
    )
    ∷ (
      target == engineer_resolved && not (is_some (given p.resolution_summary)),
      bad_request "resolutionSummary is required to mark a ticket Engineer Resolved",
    )
    ∷ [])
  where
    open p use {target_status as target, actor_role as role}

    rule : Rule
    rule = ticket_transitions ticket.status

-- `WorkflowService.transition`
unfoldable pub transition : TransitionParams → Action Ticket
transition p = do
  ticket ← find_ticket p.ticket_id
  throw_some (transition_error ticket p)
  now ← ask (λ env. env.now)
  apply_transition p.ticket_id ticket p.target_status p.actor_user_id
      (given (Option.map trim p.comment)) (transition_data p now ticket.status)

-- The patch of `regularize`.
unfoldable pub regularize_data : TicketStatus → ℕ → Ticket → Ticket → Ticket
regularize_data target now ticket t = record t {
  status = target;
  closed_at = if target == closed then some now else t.closed_at;
  pending_reason = if target == pending then ticket.pending_reason else none;
  pending_notes = if target == pending then ticket.pending_notes else none;
}

-- `WorkflowService.regularize`
unfoldable pub regularize : ℕ → TicketStatus → ℕ → Role → String → Action Ticket
regularize id target actor role reason = do
  throw_some (
      first_error (
        (
          not (includes regularize_roles role),
          forbidden "Only Admin or Call Center can regularize a ticket",
        )
        ∷ (is_blank (trim reason), bad_request "A reason is required to regularize a ticket")
        ∷ []))
  ticket ← find_ticket id
  now ← ask (λ env. env.now)
  apply_transition id ticket target actor (some ("Regularized: " ++ reason))
      (regularize_data target now ticket)
