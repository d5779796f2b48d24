-- ===== src/Tickets/Progress/Reopening.antt =====
-- `reopen` of backend/src/ticketing/tickets/tickets.service.ts, all or nothing.
use proman_edge_ace.Prelude.{
  ℕ, ◌+◌, ◌≡◌, ◌↔◌, refl, sym, ap, ◌∙◌, ◌⊎◌, inl, inr, String, false, Option, none, some, arith,
  some_inj,
}
use mathlib.Core.Path.{subst}
use proman_edge_ace.Prelude.Dict.{lookup, lookup-modify_self}
use proman_edge_ace.Domain.Ticketing.{«open», closed, on_track, Priority, ticket_status_eq}
use proman_edge_ace.Domain.People.{admin, role_eq}
use proman_edge_ace.Schema.{Db, Ticket, SlaPolicy}
use proman_edge_ace.Env.{Env}
use proman_edge_ace.Action.{ok, err, Error}
use proman_edge_ace.Store.{put_tickets}
use proman_edge_ace.SlaPolicy.{resolve}
use proman_edge_ace.Workflow.{
  plain_params, transition, transition_data, pause_sla, ticket_transitions,
}
use proman_edge_ace.Workflow.Rules.{IsAllowed, transitioned, transition_outcome}
use proman_edge_ace.Tickets.Labels.{RequestUser}
use proman_edge_ace.Tickets.Progress.{reopen, restart_ticket, restarted, restarted_row}

resolve-ok :
    (s : Option String) (priority : Priority) (env : Env) (db : Db)
    → (policy : Option (ℕ × SlaPolicy)) × (resolve s priority env db ≡ (ok policy, db))
unfolding resolve
resolve-ok none priority env db = (none, refl)
resolve-ok (some s) priority env db = (_, refl)

restart_ticket-found :
    (id : ℕ) (actor : RequestUser) (env : Env) (db : Db) (t : Ticket)
    (policy : Option (ℕ × SlaPolicy))
    → lookup id db.tickets ≡ some t
    → resolve t.service_type t.priority env db ≡ (ok policy, db)
    → restart_ticket id actor env db
      ≡ transition
          (plain_params id «open» actor.user_id actor.role)
          env
          (put_tickets id (restarted_row env db.holidays t policy) db)
unfolding restart_ticket
restart_ticket-found id actor env db t policy found r = ground arith

-- The row of a ticket that starts again.
pub record Restarted (t u : Ticket) : Type 0 where
  pub status : u.status ≡ «open»
  pub counted : u.re_open_count ≡ t.re_open_count + 1
  pub response : (u.sla.response_met ≡ false) × (u.sla.response_status ≡ on_track)
  pub resolution : (u.sla.resolution_met ≡ false) × (u.sla.resolution_status ≡ on_track)
  pub level : u.sla.response_escalation_level ≡ t.sla.response_escalation_level
  pub breach : u.sla.response_breached_at ≡ t.sla.response_breached_at
  pub closing : u.closed_at ≡ t.closed_at

transitioned-Restarted :
    (id : ℕ) (actor : RequestUser) (env : Env) (db db' : Db) (t : Ticket)
    (policy : Option (ℕ × SlaPolicy))
    → Restarted t (
        transitioned env db'
          (plain_params id «open» actor.user_id actor.role)
          (restarted_row env db.holidays t policy t))
unfolding transition_data pause_sla restarted
transitioned-Restarted id actor env db db' t policy = record {
  status = refl;
  counted = refl;
  response = (ground arith, ground arith);
  resolution = (ground arith, ground arith);
  level = ground arith;
  breach = ground arith;
  closing = refl;
}

IsAllowed-reopen_iff :
    (t : Ticket) (id : ℕ) (actor : RequestUser)
    → IsAllowed t (plain_params id «open» actor.user_id actor.role)
      ↔ ((t.status ≡ closed) × (actor.role ≡ admin))
unfolding ticket_transitions
IsAllowed-reopen_iff t id actor = (
  λ a. (ground (arith, a.edge), ground (arith, a.edge, a.role)),
  λ (e, r). record {
    edge = ground arith;
    role = inl r;
    reason = λ h. ground arith;
    summary = λ h. ground arith;
  },
)

reopen-done :
    (id : ℕ) (actor : RequestUser) (env : Env) (db : Db) (u : Ticket)
    → (restart_ticket id actor env db).0 ≡ ok u
    → reopen id actor env db ≡ restart_ticket id actor env db
unfolding reopen
reopen-done id actor env db u e = ground arith

reopen-undone :
    (id : ℕ) (actor : RequestUser) (env : Env) (db : Db) (e : Error)
    → (restart_ticket id actor env db).0 ≡ err e
    → reopen id actor env db ≡ (err e, db)
unfolding reopen
reopen-undone id actor env db e f = ground arith

-- Reopening a ticket on file is all or nothing. It goes through exactly for a closed ticket and
-- an administrator: the row is then open again with one more reopening, neither clock met and
-- both on track, while the response clock's escalation level and breach and the closing time stay
-- from before. Otherwise the call throws, and nothing is written.
pub reopen_outcome :
    (id : ℕ) (actor : RequestUser) (env : Env) (db : Db) (t : Ticket)
    → lookup id db.tickets ≡ some t
    → ((t.status ≡ closed)
        × (actor.role ≡ admin)
        × ((u : Ticket) × (lookup id (reopen id actor env db).1.tickets ≡ some u) × Restarted t u))
      ⊎ ((¬ ((t.status ≡ closed) × (actor.role ≡ admin)))
          × ((e : Error) × (reopen id actor env db ≡ (err e, db))))
reopen_outcome id actor env db t found =
    let (policy, r) = resolve-ok t.service_type t.priority env db in
    let f = restarted_row env db.holidays t policy in
    let p = plain_params id «open» actor.user_id actor.role in
    let body = restart_ticket-found id actor env db t policy found r in
    let found1 = lookup-modify_self id f db.tickets t found in
    elim (transition_outcome p env (put_tickets id f db)) [
      | inl (u, found', a, s) ↦
          let e = some_inj (sym found' ∙ found1) in
          let (is_closed, is_admin) =
            (IsAllowed-reopen_iff (f t) id actor).0 (subst (λ x. IsAllowed x p) e a) in
          inl (
            is_closed,
            is_admin,
            (
              transitioned env (put_tickets id f db) p u,
              ap (λ x. lookup id x.1.tickets)
                    (reopen-done id actor env db _ (ap (λ x. x.0) body ∙ s.returned) ∙ body)
                  ∙ s.stored,
              subst (λ x. Restarted t (transitioned env (put_tickets id f db) p x)) (sym e)
                  (transitioned-Restarted id actor env db (put_tickets id f db) t policy),
            ),
          )
      | inr (no_way, (e, threw)) ↦ inr (
        λ c. no_way (f t, found1, (IsAllowed-reopen_iff (f t) id actor).1 c),
        (e, reopen-undone id actor env db e (ap (λ x. x.0) (body ∙ threw))),
      )
    ]
