-- ===== src/Tickets/Dispatch/Escalation.antt =====
-- The rule on repeated rejections of backend/src/ticketing/tickets/tickets.service.ts: the third one
-- blocks a new assignment until a manager of the region acknowledges it.
use mathlib.Core.Path.{subst}
use proman_edge_ace.Prelude.{
  ℕ, ◌+◌, ◌≤◌, ◌≡◌, refl, sym, ap, ◌∙◌, ◌⊎◌, inl, inr, String, true, false, some, arith,
  Option-cases, Bool, Bool-cases, any, leb, ◌==◌, nat_eq,
}
use proman_edge_ace.Prelude.Dict.{lookup, lookup-modify_self}
use proman_edge_ace.Domain.People.{engineer, role_eq}
use proman_edge_ace.Schema.{Db, Ticket, Customer}
use proman_edge_ace.Env.{Env}
use proman_edge_ace.Action.{ok, err, Error, record_not_found, bad_request}
use proman_edge_ace.Action.Stable.{Stable, Stable-bind, Stable-pure, Quiet-Stable}
use proman_edge_ace.Notifications.Failsafe.{
  Quiet, Quiet-bind, Quiet-gets, Quiet-run_if, Quiet-with_some, Quiet-for_each,
}
use proman_edge_ace.Store.{put_tickets, append_audit}
use proman_edge_ace.Store.Rows.{Row, Row-put}
use proman_edge_ace.Workflow.{TransitionParams, transition, transition_data}
use proman_edge_ace.Workflow.Rules.{transition_db}
use proman_edge_ace.Tickets.Labels.{RequestUser}
use proman_edge_ace.Tickets.Routing.Managers.{Covers, is_covering_iff}
use proman_edge_ace.Tickets.Routing.{managers_for_region}
use proman_edge_ace.Tickets.Announce.{Related, related_rows, rows_of}
use proman_edge_ace.Tickets.Announce.Silence.{push_to-Quiet, email_to-Quiet, email_and_push-Quiet}
use proman_edge_ace.Tickets.Dispatch.{
  assign, reject, acknowledged, acknowledged_entry, not_covering, escalation_block, hand_back,
  rejected, count_rejection, notify_rejected, rejected_vars, trigger_code, escalation_tier,
  acknowledge_escalation,
}

-- The ticket waits for a manager.
abbrev pub IsEscalated : Ticket → Type 0
IsEscalated t = t.rejections.escalated_multiple_rejections ≡ true

-- A transition leaves the flag.
transition-IsEscalated :
    (id : ℕ) (p : TransitionParams) → Stable (Row IsEscalated id) (transition p)
unfolding transition_data
transition-IsEscalated id p = record {
  run = λ env db i. elim (transition_db p env db) [
    | inl same ↦ subst (Row IsEscalated id) (sym same) i
    | inr (t, wrote) ↦
        subst (Row IsEscalated id) (sym wrote)
          (Row-put IsEscalated id p.ticket_id _ db (λ r e. e) i)
  ];
}

notify_rejected-Quiet :
    (id : ℕ) (t : Ticket) (r : Related) (reason : String) (actor : RequestUser) (count : ℕ)
    → Quiet (notify_rejected id t r reason actor count)
unfolding notify_rejected
notify_rejected-Quiet id t r reason actor count =
    let vars = rejected_vars t r reason actor in
    let trigger = trigger_code count in
    Quiet-bind
      (Quiet-with_some r.assigned_asm λ asm.
        Quiet-bind (push_to-Quiet trigger vars (some id) asm)
          (λ _. email_to-Quiet trigger vars (some id) asm))
      (λ _. Quiet-run_if (leb 2 count) (
        Quiet-bind (Quiet-gets (managers_for_region r.customer.region)) (λ managers.
          Quiet-for_each managers (λ m. email_and_push-Quiet trigger vars (some id) m))))

hand_back-IsEscalated :
    (id : ℕ) (reason : String) (actor : RequestUser) (t : Ticket) (r : Related) (count : ℕ)
    → Stable (Row IsEscalated id) (hand_back id reason actor t r count)
unfolding hand_back
hand_back-IsEscalated id reason actor t r count =
    Stable-bind (Row IsEscalated id) (transition-IsEscalated id _) λ updated.
      Stable-bind (Row IsEscalated id)
        (Quiet-Stable (Row IsEscalated id) (λ db audits notes rules i. i)
          (notify_rejected-Quiet id t r reason actor count))
        (λ _. Stable-pure (Row IsEscalated id) (updated, escalation_tier count))

-- The third rejection's row.
rejected-IsEscalated :
    (now : ℕ) (reason : String) (actor : RequestUser) (t : Ticket)
    → 2 ≤ t.rejections.rejection_count
    → IsEscalated (rejected now reason actor t t)
unfolding rejected count_rejection
rejected-IsEscalated now reason actor t h = ground arith

-- `reject` after its reads.
pub reject-read :
    (id : ℕ) (reason : String) (actor : RequestUser) (env : Env) (db : Db) (t : Ticket)
    (c : Customer)
    → lookup id db.tickets ≡ some t
    → lookup t.customer_id db.customers ≡ some c
    → reject id reason actor env db
      ≡ hand_back id reason actor t
          (rows_of db t c)
          (t.rejections.rejection_count + 1)
          env
          (put_tickets id (rejected env.now reason actor t) db)
unfolding reject related_rows
reject-read id reason actor env db t c found known = ground arith

escalated_refuses :
    (id engineer_id : ℕ) (actor : RequestUser) (env : Env) (db : Db)
    → Row IsEscalated id db
    → (e : Error) × (assign id engineer_id actor env db ≡ (err e, db))
unfolding assign
escalated_refuses id engineer_id actor env db (t, found, escalated) =
    elim (Option-cases (lookup engineer_id db.users)) [
      | inl missing ↦ (record_not_found, ground arith)
      | inr (u, e) ↦ elim (Bool-cases (u.role == engineer)) [
        | inl right ↦ (escalation_block, ground arith)
        | inr wrong ↦ (bad_request "Target user is not an Engineer", ground arith)
      ]
    ]

-- Once a ticket on file with two rejections, whose customer is on file, is rejected again, nobody
-- can assign it next, whatever the rejection's own call returned: `assign` throws and writes
-- nothing.
pub third_rejection_blocks :
    (id : ℕ) (reason : String) (actor : RequestUser) (env : Env) (db : Db) (t : Ticket)
    (c : Customer)
    → lookup id db.tickets ≡ some t
    → lookup t.customer_id db.customers ≡ some c
    → 2 ≤ t.rejections.rejection_count
    → (engineer_id : ℕ) (actor' : RequestUser) (env' : Env)
    → (e : Error) × (assign id engineer_id actor' env' (reject id reason actor env db).1
        ≡ (err e, (reject id reason actor env db).1))
third_rejection_blocks id reason actor env db t c found known twice engineer_id actor' env' =
    escalated_refuses id engineer_id actor' env' _ (
      subst (λ x. Row IsEscalated id x.1) (sym (reject-read id reason actor env db t c found known))
        ((hand_back-IsEscalated id reason actor t (rows_of db t c)
            (t.rejections.rejection_count + 1)).run
          env (put_tickets id (rejected env.now reason actor t) db)
          (
            rejected env.now reason actor t t,
            lookup-modify_self id (rejected env.now reason actor t) db.tickets t found,
            rejected-IsEscalated env.now reason actor t twice,
          )))

acknowledge-found :
    (id : ℕ) (actor : RequestUser) (env : Env) (db : Db) (t : Ticket) (c : Customer)
    → lookup id db.tickets ≡ some t
    → lookup t.customer_id db.customers ≡ some c
    → IsEscalated t
    → any (λ r. r.0 == actor.user_id) (managers_for_region c.region db) ≡ true
    → acknowledge_escalation id actor env db ≡ (
      ok (acknowledged env.now actor t),
      append_audit (acknowledged_entry id actor) (put_tickets id (acknowledged env.now actor) db),
    )
unfolding acknowledge_escalation
acknowledge-found id actor env db t c found known waits covers = ground arith

-- For a ticket and a customer on file: if the ticket is escalated and the caller is an active user with
-- the role of a manager who has a row for the region of the customer, the acknowledgement lifts the flag and is recorded under the
-- caller's name; in any other case the call throws and writes nothing.
pub acknowledgement_ends_block :
    (id : ℕ) (actor : RequestUser) (env : Env) (db : Db) (t : Ticket) (c : Customer)
    → lookup id db.tickets ≡ some t
    → lookup t.customer_id db.customers ≡ some c
    → (IsEscalated t
        × Covers actor.user_id c.region db
        × ((u : Ticket) × (lookup id (acknowledge_escalation id actor env db).1.tickets ≡ some u)
            × (u.rejections.escalated_multiple_rejections ≡ false)
            × (u.rejections.escalation_acknowledged_by_user_id ≡ some actor.user_id)))
      ⊎ ((¬ (IsEscalated t × Covers actor.user_id c.region db))
          × ((e : Error) × (acknowledge_escalation id actor env db ≡ (err e, db))))
unfolding acknowledge_escalation
acknowledgement_ends_block id actor env db t c found known =
    elim (Bool-cases t.rejections.escalated_multiple_rejections) [
      | inr calm ↦ inr (
        λ (e, _). ground arith,
        (bad_request "This ticket is not currently escalated.", ground arith),
      )
      | inl waits ↦
          elim (Bool-cases (any (λ r. r.0 == actor.user_id) (managers_for_region c.region db))) [
            | inr stranger ↦ inr (
              λ (_, m). refuted stranger ((is_covering_iff actor.user_id c.region db).1 m),
              (not_covering, ground arith),
            )
            | inl covers ↦ inl (
              waits,
              (is_covering_iff actor.user_id c.region db).0 covers,
              (
                acknowledged env.now actor t,
                ap (λ x. lookup id x.1.tickets)
                      (acknowledge-found id actor env db t c found known waits covers)
                    ∙ lookup-modify_self id (acknowledged env.now actor) db.tickets t found,
                refl,
                refl,
              ),
            )
          ]
    ]
  where
    refuted : {b : Bool} → b ≡ false → b ≡ true → ⊥
    refuted f e = cc
