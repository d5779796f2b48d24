-- ===== src/Tickets/Dispatch/PartialWrites.antt =====
-- `assign` and `reject` of backend/src/ticketing/tickets/tickets.service.ts write before they ask the
-- state machine, and outside of a transaction.
use proman_edge_ace.Prelude.{
  ℕ, ◌+◌, ◌≡◌, ◌≢◌, refl, sym, ap, ◌∙◌, inl, inr, String, false, none, some, arith, includes,
  some_inj,
}
use mathlib.Core.Path.{subst}
use proman_edge_ace.Prelude.Dict.{lookup, lookup-modify_self}
use proman_edge_ace.Domain.Ticketing.{«open», assigned, engineer_assigned, ticket_status_eq}
use proman_edge_ace.Domain.People.{engineer, role_eq}
use proman_edge_ace.Schema.{Db, Ticket, User, Customer}
use proman_edge_ace.Env.{Env}
use proman_edge_ace.Action.{err, Error}
use proman_edge_ace.Store.{put_tickets}
use proman_edge_ace.Workflow.{TransitionParams, transition, ticket_transitions}
use proman_edge_ace.Workflow.Rules.{IsAllowed, transition_outcome}
use proman_edge_ace.Tickets.Labels.{RequestUser}
use proman_edge_ace.Tickets.Announce.{Related, rows_of}
use proman_edge_ace.Tickets.Dispatch.{
  assign, assign_engineer, with_engineer, assign_params, reject, hand_back, hand_back_params,
  rejected, count_rejection,
}
use proman_edge_ace.Tickets.Dispatch.Escalation.{reject-read}

-- No edge, no transition.
refused_without_edge :
    (p : TransitionParams) (env : Env) (db : Db) (t : Ticket)
    → lookup p.ticket_id db.tickets ≡ some t
    → includes (ticket_transitions t.status).next p.target_status ≡ false
    → (e : Error) × (transition p env db ≡ (err e, db))
refused_without_edge p env db t found no_edge = elim (transition_outcome p env db) [
  | inl (u, found', a, _) ↦
      absurd (no (subst (λ r. IsAllowed r p) (some_inj (sym found' ∙ found)) a))
  | inr (_, failed) ↦ failed
]
  where
    no : ¬ IsAllowed t p
    no a = let edge = a.edge in cc

hand_back-refused :
    (id : ℕ) (reason : String) (actor : RequestUser) (t : Ticket) (r : Related) (count : ℕ)
    (env : Env) (db : Db) (e : Error)
    → transition (hand_back_params id reason actor r) env db ≡ (err e, db)
    → hand_back id reason actor t r count env db ≡ (err e, db)
unfolding hand_back
hand_back-refused id reason actor t r count env db e threw = ground arith

counted :
    (now : ℕ) (reason : String) (actor : RequestUser) (t : Ticket)
    → (rejected now reason actor t t).rejections.rejection_count ≡ t.rejections.rejection_count + 1
unfolding rejected count_rejection
counted now reason actor t = ground arith

unassigned :
    (now : ℕ) (reason : String) (actor : RequestUser) (t : Ticket)
    → (rejected now reason actor t t).assigned_engineer_id ≡ none
unfolding rejected
unassigned now reason actor t = refl

-- A rejection of a ticket on file, of a customer on file, in a status that has no way back to
-- ASSIGNED throws; but the rejection counts, and the ticket has lost its engineer.
pub failed_rejection_counts :
    (id : ℕ) (reason : String) (actor : RequestUser) (env : Env) (db : Db) (t : Ticket)
    (c : Customer)
    → lookup id db.tickets ≡ some t
    → lookup t.customer_id db.customers ≡ some c
    → includes (ticket_transitions t.status).next assigned ≡ false
    → (e : Error) × (u : Ticket) × (((reject id reason actor env db).0 ≡ err e)
        × (lookup id (reject id reason actor env db).1.tickets ≡ some u)
        × (u.rejections.rejection_count ≡ t.rejections.rejection_count + 1)
        × (u.assigned_engineer_id ≡ none))
unfolding rejected
failed_rejection_counts id reason actor env db t c found known no_edge =
    let f = rejected env.now reason actor t in
    let r = rows_of db t c in
    let n = t.rejections.rejection_count + 1 in
    let found1 = lookup-modify_self id f db.tickets t found in
    let (e, threw) =
      refused_without_edge (hand_back_params id reason actor r) env (put_tickets id f db) (f t)
        found1 no_edge in
    let same =
      reject-read id reason actor env db t c found known
      ∙ hand_back-refused id reason actor t r n env (put_tickets id f db) e threw in
    (
      e,
      f t,
      (
        ap (λ x. x.0) same,
        ap (λ x. lookup id x.1.tickets) same ∙ found1,
        counted env.now reason actor t,
        unassigned env.now reason actor t,
      ),
    )

assign-refused :
    (id engineer_id : ℕ) (actor : RequestUser) (env : Env) (db : Db) (t : Ticket) (eng : User)
    (e : Error)
    → lookup engineer_id db.users ≡ some eng
    → eng.role ≡ engineer
    → lookup id db.tickets ≡ some t
    → t.rejections.escalated_multiple_rejections ≡ false
    → t.status ≢ «open»
    → transition (assign_params id eng actor) env (put_tickets id (with_engineer engineer_id) db)
      ≡ (err e, put_tickets id (with_engineer engineer_id) db)
    → assign id engineer_id actor env db ≡ (err e, put_tickets id (with_engineer engineer_id) db)
unfolding assign assign_engineer
assign-refused id engineer_id actor env db t eng e who role found calm busy threw = ground arith

-- Assigning an engineer to a ticket on file that is not escalated, and in a status other than
-- OPEN from which ENGINEER_ASSIGNED cannot be reached, throws; the status stays, but the ticket
-- has the new engineer.
pub failed_assignment_writes :
    (id engineer_id : ℕ) (actor : RequestUser) (env : Env) (db : Db) (t : Ticket) (eng : User)
    → lookup engineer_id db.users ≡ some eng
    → eng.role ≡ engineer
    → lookup id db.tickets ≡ some t
    → t.rejections.escalated_multiple_rejections ≡ false
    → t.status ≢ «open»
    → includes (ticket_transitions t.status).next engineer_assigned ≡ false
    → (e : Error) × (u : Ticket) × (((assign id engineer_id actor env db).0 ≡ err e)
        × (lookup id (assign id engineer_id actor env db).1.tickets ≡ some u)
        × (u.status ≡ t.status)
        × (u.assigned_engineer_id ≡ some engineer_id))
failed_assignment_writes id engineer_id actor env db t eng who role found calm busy no_edge =
    let found1 = lookup-modify_self id (with_engineer engineer_id) db.tickets t found in
    let (e, threw) =
      refused_without_edge (assign_params id eng actor) env
        (put_tickets id (with_engineer engineer_id) db) (with_engineer engineer_id t) found1
        no_edge in
    let same = assign-refused id engineer_id actor env db t eng e who role found calm busy threw in
    (
      e,
      with_engineer engineer_id t,
      (ap (λ x. x.0) same, ap (λ x. lookup id x.1.tickets) same ∙ found1, refl, refl),
    )
