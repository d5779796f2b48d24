-- ===== src/Tests/ClockTests.antt =====
-- The theorems on clocks and turns, each at a concrete input.
use proman_edge_ace.Prelude.{
  ℕ, ◌≡◌, refl, true, none, some, List, [], ◌∷◌, arith, nat_eq, ◌↔◌, ◌<◌, ◌*◌, ◌-◌, ◌≤◌, take,
}
use proman_edge_ace.Prelude.Dict.{lookup}
use proman_edge_ace.Domain.Ticketing.{
  «open», assigned, engineer_assigned, working, pending, ticket_status_eq, awaiting_parts, on_track,
  breached, medium,
}
use proman_edge_ace.Domain.People.{engineer, asm, role_eq}
use proman_edge_ace.Action.{ok}
use proman_edge_ace.Prelude.Dict.{lookup}
use proman_edge_ace.Schema.{Db, Sla, Ticket, SlaPolicy}
use proman_edge_ace.Env.{Env}
use proman_edge_ace.BusinessHours.{LocalTime, add_business_hours, clamp}
use proman_edge_ace.BusinessHours.Total.{Lands, add_business_hours_total}
use proman_edge_ace.Workflow.{
  TransitionParams, plain_params, transition, transition_data, transition_error, transition_sla,
  apply_transition, pause_sla, ticket_transitions,
}
use proman_edge_ace.Workflow.Lifecycle.{run_transitions}
use proman_edge_ace.Workflow.Transitions.{no_stage_skipped}
use proman_edge_ace.Workflow.Pause.{Excluded, pause_is_excluded}
use proman_edge_ace.SlaBreach.{
  response_clock, resolution_clock, clock_data, store_clocks, is_watched, next_status,
  next_escalation_level, percent_elapsed, status_for,
}
use proman_edge_ace.SlaBreach.Ladder.{
  Climbs, ladder_steps_up, status_for_iff, assigned_ticket_still_escalates,
}
use proman_edge_ace.SlaBreach.Rounds.{breach_is_found_once, first_response}
use proman_edge_ace.Tickets.Routing.{last_assigned_at, pick_round_robin_asm}
use proman_edge_ace.Tickets.Routing.RoundRobin.{IsNext, round_robin_is_fair}
use proman_edge_ace.Tests.Fixtures.{at_time, clocks, ticket, db_with}

add_business_hours_total_example :
    (end : LocalTime) × (add_business_hours
        (20000 ∷ [])
        (record { day = 19999; hour = 15; rest = 0 })
        12
      ≡ some end)
    × Lands (20000 ∷ []) (clamp (record { day = 19999; hour = 15; rest = 0 })) 12 end
add_business_hours_total_example =
    add_business_hours_total (20000 ∷ []) (record { day = 19999; hour = 15; rest = 0 }) 12

round_robin_is_fair_example :
    IsNext
      (last_assigned_at (db_with (ticket assigned none 0)).tickets)
      (1 ∷ 5 ∷ [])
      (pick_round_robin_asm 1 (5 ∷ []) (db_with (ticket assigned none 0)))
round_robin_is_fair_example = round_robin_is_fair 1 (5 ∷ []) (db_with (ticket assigned none 0))

abbrev policy : SlaPolicy
policy = record {
  service_type = "AMC";
  priority = medium;
  response_hours = some 4;
  resolution_hours = some 24;
  level2_delay_hours = some 2;
  level3_delay_hours = some 3;
}

ladder_steps_up_example :
    (a : ℕ) × (p : SlaPolicy) × (some 1000 ≡ some a)
    × (some policy ≡ some p)
    × Climbs 2 a 18001000 p 3
unfolding next_escalation_level
ladder_steps_up_example = ladder_steps_up 2 (some 1000) 18001000 (some policy) 3 refl

status_for_iff_example :
    ((status_for (percent_elapsed 1000 2000 1900) ≡ breached) ↔ (2000 ≤ 1900))
    × ((status_for (percent_elapsed 1000 2000 1900) ≡ on_track)
        ↔ (100 * (1900 - 1000) < 90 * (2000 - 1000)))
status_for_iff_example = status_for_iff 1000 2000 1900 (omega arith)

-- A response due at 2000, on a ticket of the time 1000
abbrev late_ticket : Ticket
late_ticket = record (ticket assigned none 0) { sla = record clocks { response_due = some 2000 } }

breach_is_found_once_example :
    (db' : Db) × (t' : Ticket) × (store_clocks 7 late_ticket
        (clock_data 2500 1000 (some policy) (response_clock late_ticket.sla))
        (clock_data 2500 1000 (some policy) (resolution_clock late_ticket.sla))
        (at_time 2500)
        (db_with late_ticket)
      ≡ (ok tt, db'))
    × (lookup 7 db'.tickets ≡ some t')
    × ((response_clock t'.sla).status ≡ breached)
    × ((response_clock t'.sla).breached_at ≡ some 2500)
    × (1 ≤ (response_clock t'.sla).level)
    × (next_status 3600000 t'.created_at (response_clock t'.sla) ≡ none)
unfolding next_status status_for percent_elapsed
breach_is_found_once_example =
    breach_is_found_once first_response 7 late_ticket (at_time 2500) (at_time 3600000)
      (db_with late_ticket) (some policy) 4 2000 refl refl refl (omega arith) (omega arith) refl
      (λ h. ground (arith, h)) (omega arith)

abbrev breached_clocks : Sla
breached_clocks = record clocks {
  response_status = breached;
  response_breached_at = some 2500;
  response_escalation_level = 1;
}

abbrev breached_ticket : Ticket
breached_ticket = record (ticket «open» none 0) { sla = breached_clocks }

assigned_ticket_still_escalates_example :
    ((transition_data (plain_params 7 assigned 1 asm) 3000 «open» breached_ticket).sla.response_met
      ≡ true)
    × (is_watched (transition_data (plain_params 7 assigned 1 asm) 3000 «open» breached_ticket)
        ≡ true)
    × ((clock_data 7300000 1000 (some policy) (
          response_clock
            (transition_data
              (plain_params 7 assigned 1 asm)
              3000
              «open»
              breached_ticket).sla)).escalated
        ≡ some 2)
unfolding transition_data
assigned_ticket_still_escalates_example =
    assigned_ticket_still_escalates (plain_params 7 assigned 1 asm) 3000 7300000 2500 2 900000
      policy «open» breached_ticket refl refl refl refl refl refl (omega arith)

abbrev held_back : TransitionParams
held_back = record (plain_params 7 pending 2 engineer) { pending_reason = some awaiting_parts }

pause_is_excluded_example :
    Excluded held_back
      (plain_params 7 working 2 engineer)
      (at_time 2000)
      (at_time 602000)
      (db_with (ticket working (some 2) 0))
      (ticket working (some 2) 0)
pause_is_excluded_example =
    pause_is_excluded held_back (plain_params 7 working 2 engineer) (at_time 2000) (at_time 602000)
      (db_with (ticket working (some 2) 0)) (ticket working (some 2) 0)
      (record { running = refl; stops = refl; goes_on = refl; in_order = omega arith })

abbrev two_steps : List (Env × TransitionParams)
two_steps =
    (at_time 2000, plain_params 7 assigned 1 asm)
    ∷ (at_time 3000, plain_params 7 engineer_assigned 1 asm)
    ∷ []

abbrev after_two : Ticket
after_two =
    let t = ticket engineer_assigned none 0 in
    record t { sla = record clocks { response_met = true } }

no_stage_skipped_example :
    (k : ℕ) × (u : Ticket) × (lookup 7
        (run_transitions (take k two_steps) (db_with (ticket «open» none 0))).tickets
      ≡ some u)
    × (u.status ≡ assigned)
unfolding run_transitions transition transition_error transition_data transition_sla
    ticket_transitions apply_transition pause_sla
no_stage_skipped_example =
    no_stage_skipped assigned 7 two_steps (db_with (ticket «open» none 0)) (ticket «open» none 0)
      after_two (λ h. ground arith) refl refl refl (omega arith)
