-- ===== src/SlaBreach.antt =====
-- The cron of backend/src/ticketing/tickets/sla-breach.cron.ts: the response and the resolution clock of
-- every open ticket, and the escalation ladder after a breach.
pub mod Rules
mod Arithmetic
pub mod Recipients
pub mod Ladder
pub mod Rounds
unfoldable pub use Arithmetic.*
use Prim.Native.String.{◌++◌}
use proman_edge_ace.Prelude.{
  ℕ, String, Bool, true, false, not, ◌&&◌, ◌||◌, Option, none, some, List, [], ◌∷◌, if◌then◌else◌,
  ◌==◌, get_or, or_else, is_some, includes, keep, is_just, nat_eq,
}
use proman_edge_ace.Prelude.Dict.{lookup, Dict}
use proman_edge_ace.Prelude.Text.{show}
use proman_edge_ace.Domain.Ticketing.{
  closed, asm_resolved, ticket_status_eq, ticket_status_name, priority_name, SlaClockStatus,
  on_track, warning_90, breached, sla_clock_status_name, sla_clock_status_eq,
}
use proman_edge_ace.Domain.Logs.{response, resolution, level2, level3, system_job}
use proman_edge_ace.Schema.{Db, Ticket, Sla, SlaPolicy, AuditEntry}
use proman_edge_ace.Action.{
  Action, ◌>>=◌, ◌>>◌, pure, ask, gets, or_throw, run_if, with_some, for_each, plain,
}
use proman_edge_ace.Store.{update_ticket, audit}
use proman_edge_ace.Notifications.{Vars, first_admin}
use proman_edge_ace.Tickets.Announce.{Related, related_rows}
use Arithmetic.{Clock, ClockData, response_clock, resolution_clock, clock_data, applied}
use Recipients.{send_to_roles, send_to_assignees}

due_text : Option ℕ → Action String
due_text none = pure "N/A"
due_text (some due) = ask (λ env. env.iso_string due)

-- N-15
fire_response_breach : ℕ → Ticket → Related → Action (Unit {0})
unfolding due_text
fire_response_breach id t r = do
  due ← due_text t.sla.response_due
  send_to_roles response "N-15"
      (("ticket_no", t.ticket_no)
        ∷ ("priority", priority_name t.priority)
        ∷ ("sla_response_due", due)
        ∷ [])
      id r

-- N-17
fire_resolution_breach : ℕ → Ticket → Related → Action (Unit {0})
unfolding due_text
fire_resolution_breach id t r = do
  due ← due_text t.sla.resolution_due
  send_to_roles resolution "N-17"
      (("ticket_no", t.ticket_no)
        ∷ ("status", ticket_status_name t.status)
        ∷ ("sla_resolution_due", due)
        ∷ [])
      id r

-- N-16
fire_resolution_warning : ℕ → Ticket → Related → Action (Unit {0})
fire_resolution_warning id t r =
    send_to_assignees "N-16"
      (("ticket_no", t.ticket_no) ∷ ("status", ticket_status_name t.status) ∷ []) id r

fire_escalation_level : ℕ → Ticket → Related → String → ℕ → Action (Unit {0})
fire_escalation_level id t r clock level =
    send_to_roles (if level == 2 then level2 else level3)
      (if level == 2 then "SLA-ESCALATION-L2" else "SLA-ESCALATION-L3")
      (("ticket_no", t.ticket_no) ∷ ("clock_type", clock) ∷ []) id r

unfoldable pub notify_clocks : ℕ → Ticket → Related → ClockData → ClockData → Action (Unit {0})
unfolding fire_response_breach fire_resolution_breach fire_resolution_warning fire_escalation_level
notify_clocks id t r responding resolving = do
  run_if (is_just responding.status breached) (fire_response_breach id t r)
  run_if (is_just resolving.status warning_90) (fire_resolution_warning id t r)
  run_if (is_just resolving.status breached) (fire_resolution_breach id t r)
  with_some responding.escalated (fire_escalation_level id t r "Response")
  with_some resolving.escalated (fire_escalation_level id t r "Resolution")

-- `resolveSystemActorId`
unfoldable pub resolve_system_actor_id : Action ℕ
resolve_system_actor_id = do
  named ← ask (λ env. env.partner_actor_user_id)
  first ← gets (λ db. first_admin db.users)
  or_throw (or_else named first) (
      plain
        "No PARTNER_ACTOR_USER_ID configured and no ADMIN user exists to attribute SLA audit log entries to")

abbrev job_entry : ℕ → ℕ → String → String → String → AuditEntry
job_entry id actor field old new = record {
  entity_type = "TICKET";
  entity_id = id;
  field_name = field;
  old_value = some old;
  new_value = some new;
  changed_by_user_id = actor;
  change_source = system_job;
}

audit_status : ℕ → ℕ → String → Clock → ClockData → Action (Unit {0})
audit_status id actor field c data' = with_some data'.status λ next.
    audit (job_entry id actor field (sla_clock_status_name c.status) (sla_clock_status_name next))

audit_level : ℕ → ℕ → String → ClockData → Action (Unit {0})
audit_level id actor field data' =
    with_some data'.escalated
      λ level. audit (job_entry id actor field (show data'.effective_level) (show level))

-- The entries of the trail for a ticket whose clocks have changed.
unfoldable pub audit_clocks : ℕ → ℕ → Ticket → ClockData → ClockData → Action (Unit {0})
unfolding audit_status audit_level
audit_clocks id actor t responding resolving = do
  audit_status id actor "slaResponseStatus" (response_clock t.sla) responding
  audit_status id actor "slaResolutionStatus" (resolution_clock t.sla) resolving
  audit_level id actor "slaResponseEscalationLevel" responding
  audit_level id actor "slaResolutionEscalationLevel" resolving

-- `if (Object.keys(data).length > 0)`: the row and the trail.
unfoldable pub store_clocks : ℕ → Ticket → ClockData → ClockData → Action (Unit {0})
unfolding audit_clocks
store_clocks id t responding resolving =
    run_if
      (is_some responding.status
        || is_some responding.escalated
        || is_some resolving.status
        || is_some resolving.escalated)
      do
        actor ← resolve_system_actor_id
        update_ticket id λ row. record row { sla = applied responding resolving row.sla }
        audit_clocks id actor t responding resolving

-- One ticket of the loop.
unfoldable pub check_ticket : ℕ × Ticket → Action (Unit {0})
unfolding store_clocks
check_ticket (id, t) = do
  now ← ask (λ env. env.now)
  policy ← gets policy_of
  r ← related_rows t
  let responding = clock_data now t.created_at policy (response_clock t.sla)
  let resolving = clock_data now t.created_at policy (resolution_clock t.sla)
  notify_clocks id t r responding resolving
  store_clocks id t responding resolving
  where
    policy_of : Db → Option SlaPolicy
    policy_of db = elim t.sla.policy_id [ none ↦ none | some p ↦ lookup p db.sla_policies ]

abbrev runs : Bool → Option ℕ → Bool
runs met due = not met && is_some due

-- The query of `run`.
unfoldable pub is_watched : Ticket → Bool
is_watched t =
    not (t.status == closed || t.status == asm_resolved)
    && (runs t.sla.response_met t.sla.response_due
        || runs t.sla.resolution_met t.sla.resolution_due)

unfoldable pub run : Action (Unit {0})
run = do
  watched ← gets (λ db. keep (λ (r : ℕ × Ticket). is_watched r.1) db.tickets)
  for_each watched check_ticket
