-- ===== src/Visits/Resolving.antt =====
-- Visits and the tickets they belong to: backend/src/ticketing/fsv/fsv.service.ts beside
-- backend/src/ticketing/tickets/tickets.service.ts.
use proman_edge_ace.Prelude.{
  ℕ, ◌≤◌, ◌≡◌, ◌∙◌, ap, String, true, some, [], ◌∷◌, arith, inl, inr, nat_eq,
}
use proman_edge_ace.Prelude.Dict.{Dict, lookup, modify, remove}
use proman_edge_ace.Prelude.Text.{trim, utf16_length}
use proman_edge_ace.Domain.Ticketing.{working}
use proman_edge_ace.Domain.People.{engineer}
use proman_edge_ace.Domain.Masters.{draft, submitted, fsv_status_eq}
use proman_edge_ace.Schema.{Db, Visit, Part, Ticket, Customer}
use proman_edge_ace.Env.{Env}
use proman_edge_ace.Action.{ok}
use proman_edge_ace.Store.Tables.{part_table, change}
use proman_edge_ace.Workflow.Rules.{Succeeds}
use proman_edge_ace.Workflow.{transition}
use proman_edge_ace.Tickets.Labels.{RequestUser}
use proman_edge_ace.Tickets.Progress.{engineer_resolve, resolve_params, has_submitted_visit}
use proman_edge_ace.Tickets.Progress.Resolution.{resolution_outcome}
use proman_edge_ace.Visits.Outcomes.{MaySubmit, OnFile, submission_outcome}
use proman_edge_ace.Visits.{submit, submitted_row, remove_part, draft_visit}

has_submitted_visit-modify :
    (id : ℕ) (v : Visit) (actor : RequestUser) (env : Env) (visits : Dict Visit)
    → lookup id visits ≡ some v
    → has_submitted_visit v.ticket_id (modify id (submitted_row env actor) visits) ≡ true
unfolding has_submitted_visit
has_submitted_visit-modify id v actor env [] found = cc
has_submitted_visit-modify id v actor env ((j, w) ∷ ws) found =
    ground (arith, found, has_submitted_visit-modify id v actor env ws)

-- An engineer at work on a ticket whose visit may be submitted gets the ticket resolved in two steps:
-- the submission is accepted, and after it, at any time, the report with a summary of at least
-- twenty characters succeeds. The visit's ticket and customer have to be on file.
pub submission_opens_resolution :
    (id : ℕ) (v : Visit) (t : Ticket) (c : Customer) (actor : RequestUser) (summary : String)
    (env later : Env) (db : Db)
    → OnFile id v t c db
    → MaySubmit id v actor db
    → t.status ≡ working
    → t.assigned_engineer_id ≡ some actor.user_id
    → actor.role ≡ engineer
    → 20 ≤ utf16_length (trim summary)
    → (db' : Db) × (submit id actor env db ≡ (ok (submitted_row env actor v), db'))
      × (engineer_resolve v.ticket_id summary actor later db'
          ≡ transition (resolve_params v.ticket_id summary actor) later db')
      × Succeeds (resolve_params v.ticket_id summary actor) later db' t
submission_opens_resolution id v t c actor summary env later db rows may at_work theirs role long =
    elim (submission_outcome id v t c actor env db rows) [
      | inr (never, _) ↦ absurd (never may)
      | inl (_, (db', done, k)) ↦
          elim (resolution_outcome v.ticket_id summary actor later db' t
            (ap (λ (d : Db). lookup v.ticket_id d.tickets) k.same ∙ rows.ticket)) [
              | inl (_, same, s) ↦ (db', done, same, s)
              | inr (never, _) ↦ absurd (
                  never (record {
                    is_theirs = theirs;
                    visited =
                        ap (λ (d : Db). has_submitted_visit v.ticket_id d.visits) k.same
                        ∙ has_submitted_visit-modify id v actor env db.visits rows.visit;
                    long_enough = long;
                    at_work = at_work;
                    role = inl role;
                  }))
            ]
    ]

-- `removePart` asks whether the visit that the request names is a draft, and not whether the part is
-- that visit's: under any draft `j`, a part of a visit that has been submitted is deleted.
pub any_draft_removes_parts :
    (j part_id : ℕ) (w v : Visit) (p : Part) (env : Env) (db : Db)
    → lookup j db.visits ≡ some w
    → w.status ≡ draft
    → lookup part_id db.parts ≡ some p
    → lookup p.visit_id db.visits ≡ some v
    → v.status ≡ submitted
    → remove_part j part_id env db ≡ (ok tt, change part_table (remove part_id) db)
unfolding remove_part draft_visit
any_draft_removes_parts j part_id w v p env db found open_yet on_file parent closed =
    ground (arith, found, open_yet, on_file)
