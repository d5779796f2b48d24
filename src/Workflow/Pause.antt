-- ===== src/Workflow/Pause.antt =====
-- The pause clock of `applyTransition` (workflow.service.ts): the time between entering and leaving the
-- statuses that stop the clocks does not count.
use mathlib.Core.Option
use proman_edge_ace.Prelude.{
  ℕ, ◌+◌, ◌-◌, ◌≤◌, ◌≡◌, true, false, ◌||◌, none, if◌then◌else◌, arith, includes,
}
use proman_edge_ace.Domain.Ticketing.{ticket_status_eq}
use proman_edge_ace.Schema.{Db, Ticket}
use proman_edge_ace.Env.{Env}
use proman_edge_ace.SlaPolicy.{uses_target_date}
use proman_edge_ace.Workflow.{TransitionParams, transition_data, pause_sla, paused_minutes_of}
use proman_edge_ace.Workflow.Rules.{transitioned}

-- A ticket that enters a status that stops the clocks at one time and leaves for one that does not at a
-- later time: `held` is the row between the two transitions, `resumed` the row after them.
module _ (p q : TransitionParams) (env later : Env) (db : Db) (t : Ticket) where
  abbrev pub held : Ticket
  held = transitioned env db p t

  abbrev pub resumed : Ticket
  resumed = transitioned later db q held

  pub record IsPause : Type 0 where
    pub running : includes db.pause_states t.status ≡ false
    pub stops : includes db.pause_states p.target_status ≡ true
    pub goes_on : includes db.pause_states q.target_status ≡ false
    pub in_order : env.now ≤ later.now

  -- What a due date is after the pause.
  abbrev pub pushed : ℕ → ℕ
  pushed due = due + (later.now - env.now)

  pub record Excluded : Type 0 where
    pub stopped : resumed.sla.paused_at ≡ none
    pub minutes :
        resumed.sla.paused_minutes ≡ t.sla.paused_minutes + paused_minutes_of later.now env.now
    pub response : resumed.sla.response_due ≡ (
        if held.sla.response_met then t.sla.response_due else Option.map pushed t.sla.response_due)
    pub resolution : resumed.sla.resolution_due ≡ (
        if uses_target_date t.service_type || held.sla.resolution_met
        then t.sla.resolution_due
        else Option.map pushed t.sla.resolution_due)

  -- A ticket enters a status that stops the clocks and leaves it for one that does not: afterwards its
  -- pause clock is off, the time between is added to its paused minutes, rounded, and each due
  -- date has moved later by exactly that time if there is one and its clock was not met at the pause; a due
  -- date whose clock was met, and the resolution date of a service type with a target date, stay.
  pub pause_is_excluded : IsPause → Excluded
  unfolding pause_sla transition_data
  pause_is_excluded h = record {
    stopped = ground arith;
    minutes = ground arith;
    response = ground arith;
    resolution = ground arith;
  }
