-- ===== src/Tests/TicketTests.antt =====
-- The theorems on tickets, each at a concrete input.
use native.Mathlib.Decide
use mathlib.Core.Path.{subst}
use proman_edge_ace.Prelude.{
  ℕ, ◌+◌, ◌≡◌, ◌≢◌, refl, ◌⊎◌, inr, true, false, none, some, List, [], ◌∷◌, arith, nat_eq,
}
use proman_edge_ace.Prelude.Dict.{lookup}
use proman_edge_ace.Domain.Ticketing.{
  «open», assigned, engineer_assigned, accepted, working, pending, closed, ticket_status_eq,
}
use proman_edge_ace.Domain.People.{engineer, asm, role_eq, north}
use proman_edge_ace.Domain.Masters
use proman_edge_ace.Schema.{Db, Ticket}
use proman_edge_ace.Env.{Env}
use proman_edge_ace.Action.{err, Error}
use proman_edge_ace.Workflow.{TransitionParams, plain_params, transition, ticket_transitions}
use proman_edge_ace.Workflow.Rules.{IsAllowed, Succeeds, transition_outcome}
use proman_edge_ace.Workflow.Lifecycle.{
  IsCoherent, AllCoherent, run_transitions, run_transitions-AllCoherent,
}
use proman_edge_ace.Tickets.Routing.Managers.{Covers}
use proman_edge_ace.Tickets.Dispatch.{assign, reject, acknowledge_escalation}
use proman_edge_ace.Tickets.Dispatch.Escalation.{
  IsEscalated, third_rejection_blocks, acknowledgement_ends_block,
}
use proman_edge_ace.Tickets.Dispatch.PartialWrites.{
  failed_rejection_counts, failed_assignment_writes,
}
use proman_edge_ace.Tests.Fixtures.{
  at_time, user, customer, ticket, db_with, the_engineer, the_asm, the_manager,
}

abbrev accept_it : TransitionParams
accept_it = plain_params 7 accepted 2 engineer

abbrev offered : Db
offered = db_with (ticket engineer_assigned (some 2) 0)

transition_outcome_example :
    ((t : Ticket) × (lookup 7 offered.tickets ≡ some t)
      × IsAllowed t accept_it
      × Succeeds accept_it (at_time 2000) offered t)
    ⊎ ((¬ ((t : Ticket) × (lookup 7 offered.tickets ≡ some t) × IsAllowed t accept_it))
        × ((e : Error) × (transition accept_it (at_time 2000) offered ≡ (err e, offered))))
transition_outcome_example = transition_outcome accept_it (at_time 2000) offered

-- Accepting the offered ticket is on its first branch.
transition_accepts : IsAllowed (ticket engineer_assigned (some 2) 0) accept_it
unfolding ticket_transitions
transition_accepts = record {
  edge = refl;
  role = inr refl;
  reason = λ h. ground arith;
  summary = λ h. ground arith;
}

abbrev fresh_ticket : Ticket
fresh_ticket = ticket «open» none 0

fresh_IsCoherent : IsCoherent (pending ∷ []) fresh_ticket
fresh_IsCoherent = record {
  pending_reason = refl;
  summary = λ h. cc;
  closed_at = λ h. ground arith;
  paused = refl;
  response = λ h. absurd (h refl);
  resolution = λ h. cc;
}

fresh_AllCoherent : AllCoherent (db_with fresh_ticket)
fresh_AllCoherent id t e = elim (Decide.ℕ_discrete 7 id) [
  | yes h ↦ subst (IsCoherent (pending ∷ [])) (found id t h e) fresh_IsCoherent
  | no h ↦ absurd (missing id t h e)
]
  where
    found :
        (id : ℕ) (t : Ticket)
        → 7 ≡ id
        → lookup id (db_with fresh_ticket).tickets ≡ some t
        → fresh_ticket ≡ t
    found id t h e = ground arith

    missing : (id : ℕ) (t : Ticket) → 7 ≢ id → lookup id (db_with fresh_ticket).tickets ≡ some t → ⊥
    missing id t h e = ground arith

abbrev two_calls : List (Env × TransitionParams)
two_calls =
    (at_time 2000, plain_params 7 assigned 1 asm)
    ∷ (at_time 3000, plain_params 7 engineer_assigned 1 asm)
    ∷ []

run_transitions-AllCoherent_example : AllCoherent (run_transitions two_calls (db_with fresh_ticket))
run_transitions-AllCoherent_example =
    run_transitions-AllCoherent two_calls (db_with fresh_ticket) fresh_AllCoherent

abbrev twice_rejected : Db
twice_rejected = db_with (ticket engineer_assigned (some 2) 2)

third_rejection_blocks_example :
    (e : Error) × (assign 7 2 the_asm
        (at_time 3000)
        (reject 7 "ill" the_engineer (at_time 2000) twice_rejected).1
      ≡ (err e, (reject 7 "ill" the_engineer (at_time 2000) twice_rejected).1))
third_rejection_blocks_example =
    third_rejection_blocks 7 "ill" the_engineer (at_time 2000) twice_rejected
      (ticket engineer_assigned (some 2) 2) (customer Masters.AccountStatus.active) refl refl
      (omega arith) 2 the_asm (at_time 3000)

abbrev waiting : Ticket
waiting =
    let t = ticket assigned none 3 in
    record t { rejections = record t.rejections { escalated_multiple_rejections = true } }

acknowledgement_ends_block_example :
    (IsEscalated waiting
      × Covers 3 (some north) (db_with waiting)
      × ((u : Ticket) × (lookup 7
              (acknowledge_escalation 7 the_manager (at_time 4000) (db_with waiting)).1.tickets
            ≡ some u)
          × (u.rejections.escalated_multiple_rejections ≡ false)
          × (u.rejections.escalation_acknowledged_by_user_id ≡ some 3)))
    ⊎ ((¬ (IsEscalated waiting × Covers 3 (some north) (db_with waiting)))
        × ((e : Error) × (acknowledge_escalation 7 the_manager (at_time 4000) (db_with waiting)
              ≡ (err e, db_with waiting))))
acknowledgement_ends_block_example =
    acknowledgement_ends_block 7 the_manager (at_time 4000) (db_with waiting) waiting
      (customer Masters.AccountStatus.active) refl refl

failed_rejection_counts_example :
    (e : Error) × (u : Ticket) × (((reject 7 "late" the_engineer
          (at_time 2000)
          (db_with (ticket working (some 2) 0))).0
        ≡ err e)
      × (lookup 7
            (reject 7 "late" the_engineer
              (at_time 2000)
              (db_with (ticket working (some 2) 0))).1.tickets
          ≡ some u)
      × (u.rejections.rejection_count ≡ 0 + 1)
      × (u.assigned_engineer_id ≡ none))
unfolding ticket_transitions
failed_rejection_counts_example =
    failed_rejection_counts 7 "late" the_engineer (at_time 2000)
      (db_with (ticket working (some 2) 0)) (ticket working (some 2) 0)
      (customer Masters.AccountStatus.active) refl refl refl

failed_assignment_writes_example :
    (e : Error) × (u : Ticket) × (((assign 7 2 the_asm
          (at_time 2000)
          (db_with (ticket closed none 0))).0
        ≡ err e)
      × (lookup 7 (assign 7 2 the_asm (at_time 2000) (db_with (ticket closed none 0))).1.tickets
          ≡ some u)
      × (u.status ≡ closed)
      × (u.assigned_engineer_id ≡ some 2))
unfolding ticket_transitions
failed_assignment_writes_example =
    failed_assignment_writes 7 2 the_asm (at_time 2000) (db_with (ticket closed none 0))
      (ticket closed none 0) (user "eshan" engineer) refl refl refl refl (λ h. ground arith) refl
