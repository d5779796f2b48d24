-- ===== src/Tickets/Progress.antt =====
-- The visit and the end of a ticket: `reachedSite`, `startWorking`, `markPending`, `engineerResolve`,
-- `resume`, `asmResolve`, `close`, `sendCsatSurvey`, `resendCsatSurvey`, `reopen` and `regularize` of
-- backend/src/ticketing/tickets/tickets.service.ts, and `submit` of
-- backend/src/ticketing/csat/csat.service.ts.
pub mod Resolution
pub mod Reopening
use Prim.Native.String.{◌++◌}
use mathlib.Core.Option
use proman_edge_ace.Prelude.{
  ℕ, ◌+◌, String, Bool, true, false, not, ◌&&◌, Option, none, some, List, [], ◌∷◌, if◌then◌else◌,
  ◌==◌, nat_eq, get_or, is_some, is_just, any, ltb, keep,
}
use proman_edge_ace.Prelude.Dict.{Dict, lookup}
use proman_edge_ace.Prelude.Text.{trim, utf16_length, show}
use proman_edge_ace.Domain.Ticketing.{
  TicketStatus, «open», reached_site, working, pending, engineer_resolved, asm_resolved, closed,
  ticket_status_eq, PendingReason, pending_reason_name, on_track,
}
use proman_edge_ace.Domain.People.{call_center, role_eq}
use proman_edge_ace.Domain.Masters.{submitted, fsv_status_eq}
use proman_edge_ace.Domain.Logs.{NotifChannel}
use proman_edge_ace.Schema.{Db, Ticket, Sla, SlaPolicy, Visit, User}
use proman_edge_ace.Env.{Env}
use proman_edge_ace.Action.{
  Action, ◌>>=◌, ◌>>◌, pure, ask, gets, throw_if, throw_some, first_error, or_throw, run_if,
  with_some, for_each, transaction, bad_request, forbidden, not_found, Error,
}
use proman_edge_ace.Store.{find_ticket, find_customer, update_ticket}
use proman_edge_ace.SlaPolicy.{resolve, uses_target_date}
use proman_edge_ace.Workflow.{TransitionParams, transition, plain_params}
use proman_edge_ace.Workflow
use proman_edge_ace.Tickets.Labels.{RequestUser, min_resolution_summary_length}
use proman_edge_ace.Tickets.Announce.{related_rows, push_to, notify_if_known}
use proman_edge_ace.Tickets.Creation.{due_after, hours_of}
use proman_edge_ace.Tickets.Dispatch.{commented}

-- N-08
notify_reached : ℕ → Action (Unit {0})
notify_reached id = do
  ticket ← find_ticket id
  r ← related_rows ticket
  let vars =
      ("ticket_no", ticket.ticket_no)
      ∷ (
        "engineer_name",
        get_or (Option.map (λ u. u.1.full_name) r.assigned_engineer) "Your engineer",
      )
      ∷ ("site_name", r.customer.customer_name)
      ∷ []
  notify_if_known "N-08" NotifChannel.whatsapp r.customer.primary_contact_mobile vars id
  with_some r.assigned_asm (push_to "N-08" vars (some id))

-- `gps` is a latitude and a longitude, where the request has both.
unfoldable pub reached_site_at :
    ℕ → RequestUser → Option String → Option (String × String) → Action Ticket
unfolding notify_reached
reached_site_at id actor comment gps = do
  result ← transition (commented id reached_site actor comment)
  with_some gps
      λ point. do update_ticket id λ t. record t { reached_site_gps = some point }; pure tt
  notify_reached id
  pure result

unfoldable pub start_working : ℕ → RequestUser → Option String → Action Ticket
start_working id actor comment = transition (commented id working actor comment)

-- N-09
notify_pending : ℕ → PendingReason → String → Action (Unit {0})
notify_pending id reason notes = do
  ticket ← find_ticket id
  r ← related_rows ticket
  let vars =
      ("ticket_no", ticket.ticket_no)
      ∷ ("pending_reason", pending_reason_name reason ++ " — " ++ notes)
      ∷ []
  notify_if_known "N-09" NotifChannel.whatsapp r.customer.primary_contact_mobile vars id
  with_some r.assigned_asm (push_to "N-09" vars (some id))
  call_centre ←
      gets (λ db. keep (λ (u : ℕ × User). u.1.role == call_center && u.1.is_active) db.users)
  for_each call_centre (push_to "N-09" vars (some id))

unfoldable pub mark_pending : ℕ → PendingReason → String → RequestUser → Action Ticket
unfolding notify_pending
mark_pending id reason notes actor = do
  result ← transition (record (plain_params id pending actor.user_id actor.role) {
    pending_reason = some reason;
    pending_notes = some notes;
  })
  notify_pending id reason notes
  pure result

-- A visit of the ticket whose report has been submitted.
unfoldable pub has_submitted_visit : ℕ → Dict Visit → Bool
has_submitted_visit id visits = any (λ r. r.1.ticket_id == id && r.1.status == submitted) visits

-- The guards of `engineerResolve`.
unfoldable pub resolve_error : Ticket → ℕ → String → RequestUser → Dict Visit → Option Error
resolve_error ticket id summary actor visits = first_error (
    (
      not (is_just ticket.assigned_engineer_id actor.user_id),
      forbidden "Only the assigned engineer can resolve this ticket",
    )
    ∷ (
      not (has_submitted_visit id visits),
      bad_request "Submit a Field Service Visit for this ticket before marking it resolved",
    )
    ∷ (
      ltb (utf16_length (trim summary)) min_resolution_summary_length,
      bad_request (
          "Resolution summary must be at least "
          ++ show min_resolution_summary_length
          ++ " characters"),
    )
    ∷ [])

abbrev pub resolve_params : ℕ → String → RequestUser → TransitionParams
resolve_params id summary actor =
    record (plain_params id engineer_resolved actor.user_id actor.role) {
      resolution_summary = some (trim summary);
    }

unfoldable pub engineer_resolve : ℕ → String → RequestUser → Action Ticket
engineer_resolve id summary actor = do
  ticket ← find_ticket id
  visits ← gets (λ db. db.visits)
  throw_some (resolve_error ticket id summary actor visits)
  transition (resolve_params id summary actor)

unfoldable pub resume : ℕ → RequestUser → Action Ticket
resume id actor = transition (plain_params id working actor.user_id actor.role)

unfoldable pub asm_resolve : ℕ → RequestUser → Option String → Action Ticket
asm_resolve id actor comment = transition (commented id asm_resolved actor comment)

-- N-14
unfoldable pub send_csat_survey : ℕ → Action (Unit {0})
send_csat_survey id = do
  ticket ← find_ticket id
  customer ← find_customer ticket.customer_id
  url ← ask (λ env. get_or env.frontend_url "http://localhost:3000")
  let vars = ("ticket_no", ticket.ticket_no) ∷ ("survey_link", url ++ "/csat/" ++ show id) ∷ []
  notify_if_known "N-14" NotifChannel.email customer.primary_contact_email vars id
  notify_if_known "N-14" NotifChannel.whatsapp customer.primary_contact_mobile vars id
  update_ticket id λ t. record t { csat = record t.csat { survey_sent = true } }
  pure tt

unfoldable pub close : ℕ → RequestUser → Option String → Action Ticket
close id actor comment = do
  updated ← transition (commented id closed actor comment)
  send_csat_survey id
  pure updated

unfoldable pub resend_csat_survey : ℕ → Action (Unit {0})
resend_csat_survey id = do
  ticket ← find_ticket id
  throw_some (
      first_error (
        (
          not (ticket.status == closed),
          bad_request "CSAT survey can only be sent for a Closed ticket",
        )
        ∷ (
          is_some ticket.csat.score,
          bad_request "Customer has already submitted feedback for this ticket",
        )
        ∷ []))
  send_csat_survey id

-- `CsatService.submit`
unfoldable pub submit_feedback : ℕ → ℕ → Option String → Action (Unit {0})
submit_feedback id score text = do
  rows ← gets (λ db. db.tickets)
  ticket ← or_throw (lookup id rows) (not_found "Survey link is invalid or has expired")
  throw_some (
      first_error (
        (
          not (ticket.status == closed),
          bad_request "This ticket is not yet closed — the survey isn't available until then",
        )
        ∷ (
          is_some ticket.csat.score,
          bad_request "Feedback has already been submitted for this ticket",
        )
        ∷ []))
  update_ticket id λ t. record t {
    csat = record t.csat { score = some score; response_text = given_or t.csat.response_text };
  }
  pure tt
  where
    -- `undefined` leaves a column as it is.
    given_or : Option String → Option String
    given_or old = elim text [ none ↦ old | some s ↦ some s ]

-- The clocks of a ticket that starts again; `old` is the row that was read.
unfoldable pub restarted : Env → List ℕ → Option String → Option (ℕ × SlaPolicy) → Sla → Sla → Sla
restarted env holidays service_type policy old row = record row {
  response_met = false;
  resolution_met = false;
  response_status = on_track;
  resolution_status = on_track;
  response_due = due_after env holidays (hours_of (λ p. p.response_hours) policy);
  resolution_due =
      if uses_target_date service_type
      then old.target_date
      else due_after env holidays (hours_of (λ p. p.resolution_hours) policy);
  paused_at = none;
  paused_minutes = 0;
}

abbrev pub restarted_row : Env → List ℕ → Ticket → Option (ℕ × SlaPolicy) → Ticket → Ticket
restarted_row env holidays ticket policy t = record t {
  re_open_count = t.re_open_count + 1;
  sla = restarted env holidays ticket.service_type policy ticket.sla t.sla;
}

-- The body of `reopen`'s transaction.
unfoldable pub restart_ticket : ℕ → RequestUser → Action Ticket
restart_ticket id actor = do
  ticket ← find_ticket id
  policy ← resolve ticket.service_type ticket.priority
  holidays ← gets (λ db. db.holidays)
  env ← ask (λ env. env)
  update_ticket id (restarted_row env holidays ticket policy)
  transition (plain_params id «open» actor.user_id actor.role)

unfoldable pub reopen : ℕ → RequestUser → Action Ticket
reopen id actor = transaction (restart_ticket id actor)

unfoldable pub regularize_ticket : ℕ → TicketStatus → String → RequestUser → Action Ticket
regularize_ticket id target reason actor =
    Workflow.regularize id target actor.user_id actor.role reason
