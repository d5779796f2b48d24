-- ===== src/SlaBreach/Ladder.antt =====
-- The escalation ladder of backend/src/ticketing/tickets/sla-breach.cron.ts, one clock at a time.
use proman_edge_ace.Prelude.{
  ℕ, ◌+◌, ◌-◌, ◌*◌, ◌≤◌, ◌<◌, ◌≡◌, ◌≢◌, refl, ◌↔◌, ◌⊎◌, inl, inr, true, false, Option, none, some,
  arith, Option-cases,
}
use proman_edge_ace.Domain.Ticketing.{
  TicketStatus, assigned, on_track, breached, sla_clock_status_eq,
}
use proman_edge_ace.Schema.{Ticket, SlaPolicy}
use proman_edge_ace.Workflow.{TransitionParams, transition_data, transition_sla}
use proman_edge_ace.BusinessHours.{hour_ms}
use proman_edge_ace.SlaBreach.{
  response_clock, percent_elapsed, status_for, next_escalation_level, next_status, clock_data,
  is_watched,
}

-- When the ladder goes to a level: from the one below it, after the delays of the policy.
pub record Climbs (level at now : ℕ) (p : SlaPolicy) (next : ℕ) : Type 0 where
  pub one_step : next ≡ level + 1
  pub levels : (level ≡ 1) ⊎ (level ≡ 2)
  pub delay2 : ℕ
  pub delay2_is : p.level2_delay_hours ≡ some delay2
  pub waited2 : at + delay2 * hour_ms ≤ now
  pub waited3 :
      level ≡ 2 → (e : ℕ) × (p.level3_delay_hours ≡ some e) × (at + (delay2 + e) * hour_ms ≤ now)

module _ (level at now : ℕ) (p : SlaPolicy) (next : ℕ) where
  Climbs-none :
      next_escalation_level level (some at) now (some p) ≡ some next → p.level2_delay_hours ≢ none
  unfolding next_escalation_level
  Climbs-none h e = ground arith

  Climbs-third :
      next_escalation_level level (some at) now (some p) ≡ some next
      → level ≡ 2
      → (d : ℕ) → p.level2_delay_hours ≡ some d
      → (e : ℕ) × (p.level3_delay_hours ≡ some e) × (at + (d + e) * hour_ms ≤ now)
  unfolding next_escalation_level
  Climbs-third h l d f = elim (Option-cases p.level3_delay_hours) [
    | inl g ↦ ground arith
    | inr (e, g) ↦ (e, g, ground arith)
  ]

  Climbs-some :
      next_escalation_level level (some at) now (some p) ≡ some next
      → (d : ℕ) → p.level2_delay_hours ≡ some d
      → Climbs level at now p next
  unfolding next_escalation_level
  Climbs-some h d f = record {
    one_step = ground arith;
    levels = ground arith;
    delay2 = d;
    delay2_is = f;
    waited2 = ground arith;
    waited3 = λ l. Climbs-third h l d f;
  }

-- The ladder takes a step only after a breach whose moment is on file, for a ticket with a policy, from
-- level 1 to 2 after the policy's first delay or from 2 to 3 after the sum of its delays.
pub ladder_steps_up :
    (level : ℕ) (at : Option ℕ) (now : ℕ) (policy : Option SlaPolicy) (next : ℕ)
    → next_escalation_level level at now policy ≡ some next
    → (a : ℕ) × (p : SlaPolicy) × (at ≡ some a) × (policy ≡ some p) × Climbs level a now p next
unfolding next_escalation_level
ladder_steps_up level none now policy next h = cc
ladder_steps_up level (some at) now none next h = cc
ladder_steps_up level (some at) now (some p) next h = elim (Option-cases p.level2_delay_hours) [
  | inl e ↦ absurd (Climbs-none level at now p next h e)
  | inr (d, e) ↦ (at, p, refl, refl, Climbs-some level at now p next h d e)
]

-- For a due date after the creation: the status is BREACHED exactly from the due date on, and
-- ON_TRACK exactly while less than 90 per cent of the time is over.
pub status_for_iff :
    (created due now : ℕ)
    → created < due
    → ((status_for (percent_elapsed created due now) ≡ breached) ↔ (due ≤ now))
      × ((status_for (percent_elapsed created due now) ≡ on_track)
          ↔ (100 * (now - created) < 90 * (due - created)))
unfolding status_for percent_elapsed
status_for_iff created due now h =
    ((λ e. ground arith, λ e. ground arith), (λ e. ground arith, λ e. ground arith))

-- Assigning a ticket meets its response clock and does not stop the ladder: where the response was breached
-- before, is at level 1 and the resolution clock still runs, the query of the cron selects the assigned ticket,
-- and what a round finds for its response clock is the step to level 2, once the policy's first delay after the
-- breach is over.
pub assigned_ticket_still_escalates :
    (p : TransitionParams) (moved now at delay due : ℕ) (policy : SlaPolicy) (from : TicketStatus)
    (t : Ticket)
    → p.target_status ≡ assigned
    → t.sla.response_breached_at ≡ some at
    → t.sla.response_escalation_level ≡ 1
    → t.sla.resolution_due ≡ some due
    → t.sla.resolution_met ≡ false
    → policy.level2_delay_hours ≡ some delay
    → at + delay * hour_ms ≤ now
    → let t' = transition_data p moved from t in
      (t'.sla.response_met ≡ true)
      × (is_watched t' ≡ true)
      × ((clock_data now t'.created_at (some policy) (response_clock t'.sla)).escalated ≡ some 2)
unfolding clock_data next_status next_escalation_level transition_sla transition_data is_watched
assigned_ticket_still_escalates p moved now at delay due policy from t to breach level runs unmet
      known over =
    (
      ground (arith, to),
      ground (arith, to, runs, unmet),
      ground (arith, to, breach, level, known, over),
    )
