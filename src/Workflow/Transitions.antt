-- ===== src/Workflow/Transitions.antt =====
-- The order of the stages in `TICKET_TRANSITIONS` (workflow.constants.ts).
use proman_edge_ace.Prelude.{
  ℕ, suc, ◌≤◌, ◌<◌, ◌≡◌, ◌≢◌, refl, ◌∙◌, sym, ap, ◌⊎◌, inl, inr, true, some, List, [], ◌∷◌, arith,
  includes, take, some_inj, nat_beq_iff,
}
use proman_edge_ace.Prelude.Dict.{lookup}
use native.Mathlib.Decide.{ℕ_discrete}
use proman_edge_ace.Domain.Ticketing.{
  TicketStatus, «open», pending, ticket_status_eq, ticket_status_index,
}
use proman_edge_ace.Schema.{Db, Ticket}
use proman_edge_ace.Env.{Env}
use proman_edge_ace.Workflow.{TransitionParams, transition, transition_data, ticket_transitions}
use proman_edge_ace.Workflow.Rules.{transitioned, transition_outcome}
use proman_edge_ace.Workflow.Lifecycle.{run_transitions}

abbrev Edge : TicketStatus → TicketStatus → Type 0
Edge s s' = includes (ticket_transitions s).next s' ≡ true

-- No edge goes up past a stage other than PENDING.
Edge-index :
    (w s s' : TicketStatus)
    → Edge s s'
    → w ≢ pending
    → ticket_status_index s < ticket_status_index w
    → ticket_status_index s' ≤ ticket_status_index w
unfolding ticket_transitions
Edge-index w s s' e n h = ground arith

index_inj : (s s' : TicketStatus) → ticket_status_index s ≡ ticket_status_index s' → s ≡ s'
index_inj s s' e = (ticket_status_eq.same_iff s s').0 ((nat_beq_iff _ _).1 e)

-- A call of `transition` leaves each ticket's status or moves it along an edge.
transition-Edge :
    (p : TransitionParams) (env : Env) (db : Db) (id : ℕ) (t : Ticket)
    → lookup id db.tickets ≡ some t
    → (t' : Ticket) × (lookup id (transition p env db).1.tickets ≡ some t')
      × ((t'.status ≡ t.status) ⊎ Edge t.status t'.status)
unfolding transition_data
transition-Edge p env db id t found = elim (transition_outcome p env db) [
  | inr (_, (e, same)) ↦ (t, rw same found, inl refl)
  | inl (old, e, a, s) ↦ elim (ℕ_discrete id p.ticket_id) [
    | yes here ↦
        let is_old : old ≡ t = some_inj (sym e ∙ (rw here at found)) in
        (transitioned env db p old, rw here s.stored, inr (rw (← is_old) a.edge))
    | no other ↦ (t, s.others id other ∙ found, inl refl)
  ]
]

module _ (w : TicketStatus) (n : w ≢ pending) (id : ℕ) where
  -- At some point of the history the ticket has the status `w`.
  abbrev Passes : List (Env × TransitionParams) → Db → Type 0
  Passes calls db =
      (k : ℕ) × (u : Ticket) × (lookup id (run_transitions (take k calls) db).tickets ≡ some u)
      × (u.status ≡ w)

  Passes-cons :
      (env : Env) (p : TransitionParams) (calls : List (Env × TransitionParams)) (db : Db)
      → Passes calls (transition p env db).1
      → Passes ((env, p) ∷ calls) db
  unfolding run_transitions
  Passes-cons env p calls db (k, u, found, e) = (suc k, u, found, e)

  Passes-from :
      (calls : List (Env × TransitionParams)) (db : Db) (t t' : Ticket)
      → lookup id db.tickets ≡ some t
      → ticket_status_index t.status ≤ ticket_status_index w
      → lookup id (run_transitions calls db).tickets ≡ some t'
      → ticket_status_index w ≤ ticket_status_index t'.status
      → Passes calls db
  unfolding run_transitions
  Passes-from [] db t t' found below last above =
      let same : t ≡ t' = some_inj (sym found ∙ last) in
      (
        0,
        t,
        found,
        index_inj t.status w
            (omega (arith, ap (λ (u : Ticket). ticket_status_index u.status) same)),
      )
  Passes-from ((env, p) ∷ calls) db t t' found below last above =
      elim (ℕ_discrete (ticket_status_index t.status) (ticket_status_index w)) [
        | yes now ↦ (0, t, found, index_inj t.status w now)
        | no later ↦
            let (u, found', moved) = transition-Edge p env db id t found in
            Passes-cons env p calls db (
              Passes-from calls (transition p env db).1 u t' found' (step_below u moved later) last
                above)
      ]
    where
      step_below :
          (u : Ticket)
          → (u.status ≡ t.status) ⊎ Edge t.status u.status
          → ticket_status_index t.status ≢ ticket_status_index w
          → ticket_status_index u.status ≤ ticket_status_index w
      step_below u (inl same) later = rw same below
      step_below u (inr e) later = Edge-index w t.status u.status e n (omega arith)

-- No stage is skipped: a ticket that is OPEN before a history of calls of `transition` and stands at
-- or past the stage `w` after it has had the status `w` at some point of the history, where the stages are
-- in the order of the enumeration and only PENDING may be passed over.
pub no_stage_skipped :
    (w : TicketStatus) (id : ℕ) (calls : List (Env × TransitionParams)) (db : Db) (t t' : Ticket)
    → w ≢ pending
    → lookup id db.tickets ≡ some t
    → t.status ≡ «open»
    → lookup id (run_transitions calls db).tickets ≡ some t'
    → ticket_status_index w ≤ ticket_status_index t'.status
    → (k : ℕ) × (u : Ticket) × (lookup id (run_transitions (take k calls) db).tickets ≡ some u)
      × (u.status ≡ w)
no_stage_skipped w id calls db t t' n found is_open last above =
    Passes-from w n id calls db t t' found (rw is_open (omega arith)) last above
