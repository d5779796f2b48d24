-- ===== src/Visits/Submitting.antt =====
-- `submit` of backend/src/ticketing/fsv/fsv.service.ts.
use mathlib.Core.Option
use proman_edge_ace.Prelude.{
  ℕ, true, not, ◌&&◌, Option, none, some, [], ◌∷◌, ltb, length, ◌==◌, nat_eq, get_or, is_some,
}
use proman_edge_ace.Prelude.Dict.{Dict}
use proman_edge_ace.Prelude.Text.{trim, is_blank, utf16_length}
use proman_edge_ace.Domain.Masters.{submitted, fsv_status_eq}
use proman_edge_ace.Domain.Logs.{NotifChannel}
use proman_edge_ace.Schema.{User, Ticket, Visit, Part, Photo}
use proman_edge_ace.Env.{Env}
use proman_edge_ace.Action.{
  Action, ◌>>=◌, ◌>>◌, pure, ask, gets, throw_some, first_error, run_if, with_some, bad_request,
  forbidden, Error,
}
use proman_edge_ace.Store.{find_ticket}
use proman_edge_ace.Store.Tables.{visit_table, find_row, update_row}
use proman_edge_ace.Workflow.{given}
use proman_edge_ace.Notifications.{Vars}
use proman_edge_ace.Tickets.Labels.{RequestUser}
use proman_edge_ace.Tickets.Announce.{Related, related_rows, send_named}
use proman_edge_ace.Visits.Editing.{parts_of, photos_of}

abbrev pub min_work_performed_length : ℕ
min_work_performed_length = 20

-- The guards of `submit`, in their order.
unfoldable pub submit_error : ℕ → Visit → RequestUser → Dict Part → Dict Photo → Option Error
submit_error id visit actor parts photos = first_error (
    (visit.status == submitted, bad_request "This Field Service Visit has already been submitted")
    ∷ (
      not (visit.engineer_id == actor.user_id),
      forbidden "Only the visiting engineer can submit this Field Service Visit",
    )
    ∷ (
      ltb (utf16_length (trim (get_or visit.work_performed ""))) min_work_performed_length,
      bad_request "Work performed must be at least 20 characters",
    )
    ∷ (
      ltb (length (parts_of id parts)) 1 && not visit.no_parts_used,
      bad_request "Log parts consumed, or explicitly confirm no parts were used",
    )
    ∷ (
      is_blank (trim (get_or visit.customer_rep_name "")),
      bad_request "Customer representative name is required",
    )
    ∷ (not visit.customer_sign_off, bad_request "Customer sign-off is required before submitting")
    ∷ (
      ltb (length (photos_of id photos)) 1,
      bad_request "At least one photo is required before submitting",
    )
    ∷ (
      not (is_some (given visit.visit_report_url)),
      bad_request "A scanned Service Report must be attached before submitting",
    )
    ∷ [])

abbrev pub submitted_row : Env → RequestUser → Visit → Visit
submitted_row env actor v = record v {
  status = submitted;
  submitted_at = some env.now;
  submitted_by = some actor.user_id;
}

abbrev pub submitted_vars : Ticket → Related → Vars
submitted_vars ticket r =
    ("ticket_no", ticket.ticket_no)
    ∷ (
      "engineer_name",
      get_or (Option.map (λ (u : ℕ × User). u.1.full_name) r.assigned_engineer) "Your engineer",
    )
    ∷ []

abbrev pub push_submitted : Vars → ℕ → ℕ × User → Action (Unit {0})
push_submitted vars ticket_id u =
    send_named "N-13" "N-13 FSV submitted" NotifChannel.push true u.1.email vars ticket_id
      (some u.0)

-- N-13
unfoldable pub notify_submitted : ℕ → Vars → Related → Action (Unit {0})
notify_submitted ticket_id vars r = do
  let email = r.customer.primary_contact_email
  let mobile = r.customer.primary_contact_mobile
  run_if (not (is_blank email))
      (send_named "N-13" "N-13 FSV submitted" NotifChannel.email true email vars ticket_id none)
  run_if (not (is_blank mobile))
      (send_named "N-13" "N-13 FSV submitted" NotifChannel.whatsapp true mobile vars ticket_id none)
  with_some r.assigned_asm (push_submitted vars ticket_id)

-- `submit` after its guards
unfoldable pub lock_visit : ℕ → RequestUser → ℕ → Ticket → Related → Action Visit
lock_visit id actor ticket_id ticket r = do
  env ← ask (λ env. env)
  done ← update_row visit_table id (submitted_row env actor)
  notify_submitted ticket_id (submitted_vars ticket r) r
  pure done

unfoldable pub submit : ℕ → RequestUser → Action Visit
submit id actor = do
  visit ← find_row visit_table id
  ticket ← find_ticket visit.ticket_id
  r ← related_rows ticket
  parts ← gets (λ db. db.parts)
  photos ← gets (λ db. db.photos)
  throw_some (submit_error id visit actor parts photos)
  lock_visit id actor visit.ticket_id ticket r
