-- ===== src/Tickets/Progress/Resolution.antt =====
-- When an engineer can report a ticket resolved: `engineerResolve` of
-- backend/src/ticketing/tickets/tickets.service.ts.
use proman_edge_ace.Prelude.{
  ℕ, ◌≤◌, ◌≡◌, refl, sym, ◌∙◌, ◌⊎◌, inl, inr, ◌↔◌, String, true, none, some, arith, Option-cases,
  nat_eq, some_inj,
}
use mathlib.Core.Path.{subst}
use proman_edge_ace.Prelude.Dict.{lookup}
use proman_edge_ace.Prelude.Text.{trim, utf16_length}
use proman_edge_ace.Domain.Ticketing.{working, ticket_status_eq}
use proman_edge_ace.Domain.People.{engineer, admin, role_eq}
use proman_edge_ace.Schema.{Db, Ticket}
use proman_edge_ace.Env.{Env}
use proman_edge_ace.Action.{err, Error}
use proman_edge_ace.Workflow.{transition, ticket_transitions, given}
use proman_edge_ace.Workflow.Rules.{IsAllowed, Succeeds, transition_outcome}
use proman_edge_ace.Tickets.Labels.{RequestUser}
use proman_edge_ace.Tickets.Progress.{
  engineer_resolve, resolve_error, resolve_params, has_submitted_visit,
}

-- What a report of a resolved ticket takes.
pub record MayResolve (t : Ticket) (id : ℕ) (summary : String) (actor : RequestUser) (db : Db)
    : Type 0 where
  pub is_theirs : t.assigned_engineer_id ≡ some actor.user_id
  pub visited : has_submitted_visit id db.visits ≡ true
  pub long_enough : 20 ≤ utf16_length (trim summary)
  pub at_work : t.status ≡ working
  pub role : (actor.role ≡ engineer) ⊎ (actor.role ≡ admin)

resolve_error_iff :
    (t : Ticket) (id : ℕ) (summary : String) (actor : RequestUser) (db : Db)
    → (resolve_error t id summary actor db.visits ≡ none) ↔ (
        (t.assigned_engineer_id ≡ some actor.user_id)
        × (has_submitted_visit id db.visits ≡ true)
        × (20 ≤ utf16_length (trim summary)))
unfolding resolve_error
resolve_error_iff t id summary actor db = (λ h. ground arith, λ h. ground arith)

-- A summary of twenty characters is not empty.
given-long : (s : String) → 20 ≤ utf16_length s → given (some s) ≡ some s
unfolding utf16_length
given-long String.[] h = absurd (omega (arith, h))
given-long (String.◌∷◌ c s) h = refl

engineer_resolve-checked :
    (id : ℕ) (summary : String) (actor : RequestUser) (env : Env) (db : Db) (t : Ticket)
    → lookup id db.tickets ≡ some t
    → resolve_error t id summary actor db.visits ≡ none
    → engineer_resolve id summary actor env db ≡ transition (resolve_params id summary actor) env db
unfolding engineer_resolve
engineer_resolve-checked id summary actor env db t found fine = ground arith

engineer_resolve-refused :
    (id : ℕ) (summary : String) (actor : RequestUser) (env : Env) (db : Db) (t : Ticket) (e : Error)
    → lookup id db.tickets ≡ some t
    → resolve_error t id summary actor db.visits ≡ some e
    → engineer_resolve id summary actor env db ≡ (err e, db)
unfolding engineer_resolve
engineer_resolve-refused id summary actor env db t e found bad = ground arith

IsAllowed-MayResolve :
    (t : Ticket) (id : ℕ) (summary : String) (actor : RequestUser)
    → 20 ≤ utf16_length (trim summary)
    → IsAllowed t (resolve_params id summary actor)
      ↔ ((t.status ≡ working) × ((actor.role ≡ engineer) ⊎ (actor.role ≡ admin)))
unfolding ticket_transitions
IsAllowed-MayResolve t id summary actor long = (
  λ a. (ground (arith, a.edge), ground (arith, a.edge, a.role)),
  λ (at_work, role). record {
    edge = ground arith;
    role = ground arith;
    reason = λ h. ground arith;
    summary = λ h. ground (arith, given-long (trim summary) long);
  },
)

-- The report of a ticket on file goes through exactly when the ticket is assigned to the caller
-- and WORKING, a visit's report has been submitted, the trimmed summary has at least twenty
-- characters and the caller is an engineer or an administrator; it is then the transition to
-- ENGINEER_RESOLVED, which succeeds. Otherwise it throws and writes nothing.
pub resolution_outcome :
    (id : ℕ) (summary : String) (actor : RequestUser) (env : Env) (db : Db) (t : Ticket)
    → lookup id db.tickets ≡ some t
    → (MayResolve t id summary actor db
        × (engineer_resolve id summary actor env db
            ≡ transition (resolve_params id summary actor) env db)
        × Succeeds (resolve_params id summary actor) env db t)
      ⊎ ((¬ MayResolve t id summary actor db)
          × ((e : Error) × (engineer_resolve id summary actor env db ≡ (err e, db))))
resolution_outcome id summary actor env db t found =
    elim (Option-cases (resolve_error t id summary actor db.visits)) [
      | inr (e, bad) ↦ inr (
        λ m. absurd (
            fails e bad (
              (resolve_error_iff t id summary actor db).1 (m.is_theirs, m.visited, m.long_enough))),
        (e, engineer_resolve-refused id summary actor env db t e found bad),
      )
      | inl fine ↦
          let (theirs, visited, long) = (resolve_error_iff t id summary actor db).0 fine in
          let same = engineer_resolve-checked id summary actor env db t found fine in
          elim (transition_outcome (resolve_params id summary actor) env db) [
            | inl (u, found', a, s) ↦
                let e = some_inj (sym found' ∙ found) in
                let a' = subst (λ r. IsAllowed r (resolve_params id summary actor)) e a in
                let (at_work, role) = (IsAllowed-MayResolve t id summary actor long).0 a' in
                inl (
                  record {
                    is_theirs = theirs;
                    visited = visited;
                    long_enough = long;
                    at_work = at_work;
                    role = role;
                  },
                  same,
                  subst (λ r. Succeeds (resolve_params id summary actor) env db r) e s,
                )
            | inr (no_way, (e, threw)) ↦ inr (
              λ m. absurd (
                  no_way (
                    t,
                    found,
                    (IsAllowed-MayResolve t id summary actor long).1 (m.at_work, m.role),
                  )),
              (e, same ∙ threw),
            )
          ]
    ]
  where
    fails :
        (e : Error)
        → resolve_error t id summary actor db.visits ≡ some e
        → resolve_error t id summary actor db.visits ≡ none
        → ⊥
    fails e f g = cc
