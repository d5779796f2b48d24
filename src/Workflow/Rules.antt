-- ===== src/Workflow/Rules.antt =====
-- When workflow.service.ts's `transition` succeeds, what it changes, and what it leaves alone.
use mathlib.Core.Option
use proman_edge_ace.Prelude.{
  ℕ, ◌≡◌, ◌≢◌, refl, or_else, ap, ◌∙◌, push, ◌⊎◌, inl, inr, true, ◌↔◌, none, some, arith,
  Option-cases, includes,
}
use proman_edge_ace.Prelude.Dict.{lookup, lookup-modify_self, lookup-modify_ne}
use proman_edge_ace.Domain.Ticketing.{
  pending, engineer_resolved, closed, assigned, ticket_status_eq,
}
use proman_edge_ace.Domain.People.{admin, role_eq}
use proman_edge_ace.Schema.{Db, Ticket}
use proman_edge_ace.Env.{Env}
use proman_edge_ace.Action.{ok, err, Error, record_not_found}
use proman_edge_ace.Store.{append_audit, put_tickets}
use proman_edge_ace.Prelude.Text.{trim}
use proman_edge_ace.Workflow.{
  TransitionParams, transition, transition_data, ticket_transitions, given, apply_transition,
  pause_sla, transition_sla, transition_error, status_entry,
}

-- What `transition` asks of the ticket and of the request, apart from the code that tests it.
pub record IsAllowed (t : Ticket) (p : TransitionParams) : Type 0 where
  pub edge : includes (ticket_transitions t.status).next p.target_status ≡ true
  pub role :
      (p.actor_role ≡ admin)
      ⊎ (includes (ticket_transitions t.status).allowed_roles p.actor_role ≡ true)
  pub reason : p.target_status ≡ pending → p.pending_reason ≢ none
  pub summary : p.target_status ≡ engineer_resolved → given p.resolution_summary ≢ none

-- The row that `transition` writes.
abbrev pub transitioned : Env → Db → TransitionParams → Ticket → Ticket
transitioned env db p t =
    let t' = transition_data p env.now t.status t in
    record t' { sla = pause_sla db.pause_states env.now t p.target_status t'.sla }

transition_error-none_iff :
    (t : Ticket) (p : TransitionParams) → (transition_error t p ≡ none) ↔ IsAllowed t p
unfolding transition_error
transition_error-none_iff t p = (λ h. ground arith, λ a. ground arith)

abbrev pub written : Env → Db → TransitionParams → Ticket → Db
written env db p t =
    append_audit
      (status_entry p.ticket_id t.status p.target_status p.actor_user_id
        (given (Option.map trim p.comment)))
      (put_tickets p.ticket_id
        (λ r.
          let r' = transition_data p env.now t.status r in
          record r' { sla = pause_sla db.pause_states env.now t p.target_status r'.sla })
        db)

module _ (p : TransitionParams) (env : Env) (db : Db) where
  transition-written :
      (t : Ticket)
      → lookup p.ticket_id db.tickets ≡ some t
      → transition_error t p ≡ none
      → transition p env db ≡ (ok (transitioned env db p t), written env db p t)
  unfolding transition apply_transition
  transition-written t e a = ground arith

  transition-refused :
      (t : Ticket) (e : Error)
      → lookup p.ticket_id db.tickets ≡ some t
      → transition_error t p ≡ some e
      → transition p env db ≡ (err e, db)
  unfolding transition
  transition-refused t e f a = ground arith

  transition-missing :
      lookup p.ticket_id db.tickets ≡ none → transition p env db ≡ (err record_not_found, db)
  unfolding transition
  transition-missing f = ground arith

-- A transition writes its row and its entry, or nothing.
pub transition_db :
    (p : TransitionParams) (env : Env) (db : Db)
    → ((transition p env db).1 ≡ db)
      ⊎ ((t : Ticket) × ((transition p env db).1 ≡ written env db p t))
transition_db p env db = elim (Option-cases (lookup p.ticket_id db.tickets)) [
  | inl missing ↦ inl (ap (λ x. x.1) (transition-missing p env db missing))
  | inr (t, found) ↦ elim (Option-cases (transition_error t p)) [
    | inl fine ↦ inr (t, ap (λ x. x.1) (transition-written p env db t found fine))
    | inr (e, bad) ↦ inl (ap (λ x. x.1) (transition-refused p env db t e found bad))
  ]
]

-- The row after a transition: the new status with what goes with it, and the rest as it was.
pub record IsMoved (p : TransitionParams) (env : Env) (t r : Ticket) : Type 0 where
  pub status : r.status ≡ p.target_status
  pub closing : p.target_status ≡ closed → r.closed_at ≡ some env.now
  pub not_closing : p.target_status ≢ closed → r.closed_at ≡ t.closed_at
  pub waiting :
      p.target_status ≡ pending
      → (r.pending_reason ≡ p.pending_reason) × (r.pending_notes ≡ p.pending_notes)
  pub not_waiting : p.target_status ≢ pending → (r.pending_reason ≡ none) × (r.pending_notes ≡ none)
  pub summary : r.resolution_summary ≡ or_else (given p.resolution_summary) t.resolution_summary
  pub responded : p.target_status ≡ assigned → r.sla.response_met ≡ true
  pub resolved : p.target_status ≡ engineer_resolved → r.sla.resolution_met ≡ true
  pub same_ticket :
      (r.ticket_no ≡ t.ticket_no)
      × (r.customer_id ≡ t.customer_id)
      × (r.assigned_engineer_id ≡ t.assigned_engineer_id)
      × (r.assigned_asm_id ≡ t.assigned_asm_id)
      × (r.rejections ≡ t.rejections)

transitioned-IsMoved :
    (p : TransitionParams) (env : Env) (db : Db) (t : Ticket)
    → IsMoved p env t (transitioned env db p t)
unfolding transition_data transition_sla pause_sla
transitioned-IsMoved p env db t = record {
  status = refl;
  closing = λ h. ground arith;
  not_closing = λ h. ground arith;
  waiting = λ h. ground arith;
  not_waiting = λ h. ground arith;
  summary = ground arith;
  responded = λ h. ground arith;
  resolved = λ h. ground arith;
  same_ticket = (refl, refl, refl, refl, refl);
}

-- The database after a transition: the ticket's row and one audit entry are new.
pub record Succeeds (p : TransitionParams) (env : Env) (db : Db) (t : Ticket) : Type 0 where
  pub returned : (transition p env db).0 ≡ ok (transitioned env db p t)
  pub moved : IsMoved p env t (transitioned env db p t)
  pub stored : lookup p.ticket_id (transition p env db).1.tickets ≡ some (transitioned env db p t)
  pub others :
      (j : ℕ) → j ≢ p.ticket_id → lookup j (transition p env db).1.tickets ≡ lookup j db.tickets
  pub logged :
      (transition p env db).1.audit_log
      ≡ push db.audit_log (
          status_entry p.ticket_id t.status p.target_status p.actor_user_id
            (given (Option.map trim p.comment)))
  pub pausing : (transition p env db).1.pause_states ≡ db.pause_states

transition-Succeeds :
    (p : TransitionParams) (env : Env) (db : Db) (t : Ticket)
    → lookup p.ticket_id db.tickets ≡ some t
    → transition_error t p ≡ none
    → Succeeds p env db t
transition-Succeeds p env db t e a =
    let w = transition-written p env db t e a in
    record {
      returned = ap (λ r. r.0) w;
      moved = transitioned-IsMoved p env db t;
      stored =
          ap (λ r. lookup p.ticket_id r.1.tickets) w
          ∙ lookup-modify_self p.ticket_id _ db.tickets t e;
      others =
          λ j ne. ap (λ r. lookup j r.1.tickets) w ∙ lookup-modify_ne j p.ticket_id _ db.tickets ne;
      logged = ap (λ r. r.1.audit_log) w;
      pausing = ap (λ r. r.1.pause_states) w;
    }

-- Either the ticket is on file and the transition is allowed (an edge of the table, the role
-- of an administrator or one that the table lists, a reason where the target is PENDING, a summary that is not
-- empty where it is ENGINEER_RESOLVED): then its row is stored and returned with the target status, the
-- time of closing, the reason of waiting, the summary and the met clocks that belong to it, and the same
-- number, customer, people and rejections; one audit entry is appended and every other ticket stays; or it is not: then the call throws and the
-- database is as before.
pub transition_outcome :
    (p : TransitionParams) (env : Env) (db : Db)
    → ((t : Ticket) × (lookup p.ticket_id db.tickets ≡ some t)
        × IsAllowed t p
        × Succeeds p env db t)
      ⊎ ((¬ ((t : Ticket) × (lookup p.ticket_id db.tickets ≡ some t) × IsAllowed t p))
          × ((e : Error) × (transition p env db ≡ (err e, db))))
transition_outcome p env db = elim (Option-cases (lookup p.ticket_id db.tickets)) [
  | inl missing ↦ inr (λ (t, e, _). cc, (record_not_found, transition-missing p env db missing))
  | inr (t, found) ↦ elim (Option-cases (transition_error t p)) [
    | inl fine ↦ inl (
      t,
      found,
      (transition_error-none_iff t p).0 fine,
      transition-Succeeds p env db t found fine,
    )
    | inr (e, bad) ↦ inr (
      λ (t', found', a). rejects t t' e found found' bad a,
      (e, transition-refused p env db t e found bad),
    )
  ]
]
  where
    rejects :
        (t t' : Ticket) (e : Error)
        → lookup p.ticket_id db.tickets ≡ some t
        → lookup p.ticket_id db.tickets ≡ some t'
        → transition_error t p ≡ some e
        → IsAllowed t' p
        → ⊥
    rejects t t' e f f' bad a = let fine = (transition_error-none_iff t' p).1 a in ground arith
