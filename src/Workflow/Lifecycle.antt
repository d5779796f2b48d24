-- ===== src/Workflow/Lifecycle.antt =====
-- What holds of a ticket that moves by workflow.service.ts's `transition`.
use proman_edge_ace.Prelude.{
  ℕ, ◌≡◌, ◌≢◌, some_inj, sym, ◌∙◌, inl, inr, Bool, true, false, some, none, List, [], ◌∷◌, arith,
  includes, is_some, ◌==◌,
}
use proman_edge_ace.Prelude.Dict.{lookup}
use proman_edge_ace.Domain.Ticketing.{
  TicketStatus, «open», pending, engineer_resolved, asm_resolved, closed, ticket_status_eq,
}
use native.Mathlib.Decide.{ℕ_discrete}
use proman_edge_ace.Schema.{Db, Ticket}
use proman_edge_ace.Env.{Env}
use proman_edge_ace.Workflow.{
  TransitionParams, transition, transition_data, ticket_transitions, pause_sla,
}
use proman_edge_ace.Workflow.Rules.{IsAllowed, transitioned, Succeeds, transition_outcome}

-- A ticket whose engineer has reported the work done.
abbrev pub is_resolved : TicketStatus → Bool
is_resolved engineer_resolved = true
is_resolved asm_resolved = true
is_resolved closed = true
is_resolved _ = false

-- What the columns say of one another, where `pausing` lists the statuses that stop the clocks.
pub record IsCoherent (pausing : List TicketStatus) (t : Ticket) : Type 0 where
  pub pending_reason : is_some t.pending_reason ≡ (t.status == pending)
  pub summary : is_resolved t.status ≡ true → t.resolution_summary ≢ none
  pub closed_at : t.status ≡ closed → t.closed_at ≢ none
  pub paused : is_some t.sla.paused_at ≡ includes pausing t.status
  pub response : t.status ≢ «open» → t.sla.response_met ≡ true
  pub resolution : is_resolved t.status ≡ true → t.sla.resolution_met ≡ true

module _ (p : TransitionParams) (env : Env) (db : Db) (t : Ticket) (a : IsAllowed t p)
    (c : IsCoherent db.pause_states t) where
  coherent-pending : is_some (transitioned env db p t).pending_reason ≡ (p.target_status == pending)
  unfolding transition_data
  coherent-pending = ground (arith, a.reason)

  coherent-summary :
      is_resolved p.target_status ≡ true → (transitioned env db p t).resolution_summary ≢ none
  unfolding transition_data ticket_transitions
  coherent-summary h = ground (arith, a.edge, a.summary, c.summary)

  coherent-closed_at : p.target_status ≡ closed → (transitioned env db p t).closed_at ≢ none
  unfolding transition_data
  coherent-closed_at h = ground arith

  coherent-paused :
      is_some (transitioned env db p t).sla.paused_at ≡ includes db.pause_states p.target_status
  unfolding transition_data pause_sla
  coherent-paused = ground (arith, c.paused)

  coherent-response : p.target_status ≢ «open» → (transitioned env db p t).sla.response_met ≡ true
  unfolding transition_data pause_sla ticket_transitions
  coherent-response h = ground (arith, a.edge, c.response)

  coherent-resolution :
      is_resolved p.target_status ≡ true → (transitioned env db p t).sla.resolution_met ≡ true
  unfolding transition_data pause_sla ticket_transitions
  coherent-resolution h = ground (arith, a.edge, c.resolution)

transitioned-IsCoherent :
    (p : TransitionParams) (env : Env) (db : Db) (t : Ticket)
    → IsAllowed t p
    → IsCoherent db.pause_states t
    → IsCoherent db.pause_states (transitioned env db p t)
unfolding transition_data
transitioned-IsCoherent p env db t a c = record {
  pending_reason = coherent-pending p env db t a c;
  summary = coherent-summary p env db t a c;
  closed_at = coherent-closed_at p env db t a c;
  paused = coherent-paused p env db t a c;
  response = coherent-response p env db t a c;
  resolution = coherent-resolution p env db t a c;
}

abbrev pub AllCoherent : Db → Type 0
AllCoherent db =
    (id : ℕ) (t : Ticket) → lookup id db.tickets ≡ some t → IsCoherent db.pause_states t

transition-AllCoherent :
    (p : TransitionParams) (env : Env) (db : Db)
    → AllCoherent db
    → AllCoherent (transition p env db).1
transition-AllCoherent p env db all id t found = elim (transition_outcome p env db) [
  | inr (_, (e, same)) ↦ rw same (all id t (rw same at found))
  | inl (old, e, a, s) ↦ rw s.pausing (elim (ℕ_discrete id p.ticket_id) [
    | yes here ↦
        let is_new : transitioned env db p old ≡ t = written_row s (rw here at found) in
        rw (← is_new) (transitioned-IsCoherent p env db old a (all p.ticket_id old e))
    | no other ↦ all id t (sym (s.others id other) ∙ found)
  ])
]
  where
    written_row :
        {old t' : Ticket}
        → Succeeds p env db old
        → lookup p.ticket_id (transition p env db).1.tickets ≡ some t'
        → transitioned env db p old ≡ t'
    written_row s f = some_inj (sym s.stored ∙ f)

-- A history of calls, each with its own environment.
unfoldable pub run_transitions : List (Env × TransitionParams) → Db → Db
run_transitions [] db = db
run_transitions ((env, p) ∷ calls) db = run_transitions calls (transition p env db).1

-- After any history of calls of `transition`, failed ones included, every ticket is coherent if every
-- ticket was before: PENDING is the status that has a pending reason, a resolved ticket has its
-- engineer's summary and its resolution clock met, a closed one its time of closing, one that
-- is not OPEN its response clock met, and the pause clock runs in the statuses that stop the clocks.
pub run_transitions-AllCoherent :
    (calls : List (Env × TransitionParams)) (db : Db)
    → AllCoherent db
    → AllCoherent (run_transitions calls db)
unfolding run_transitions
run_transitions-AllCoherent [] db all = all
run_transitions-AllCoherent ((env, p) ∷ calls) db all =
    run_transitions-AllCoherent calls (transition p env db).1 (transition-AllCoherent p env db all)
