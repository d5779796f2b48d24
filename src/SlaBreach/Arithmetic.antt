-- ===== src/SlaBreach/Arithmetic.antt =====
-- The arithmetic of backend/src/ticketing/tickets/sla-breach.cron.ts: how far a clock has run, and the
-- next step of the escalation ladder.
use proman_edge_ace.Prelude.{
  ℕ, ◌+◌, ◌-◌, ◌*◌, Bool, not, ◌&&◌, Option, none, some, if◌then◌else◌, ◌==◌, get_or, or_else,
  is_some, is_just, leb, nat_eq,
}
use proman_edge_ace.Domain.Ticketing.{
  SlaClockStatus, on_track, warning_90, breached, sla_clock_status_eq,
}
use proman_edge_ace.Schema.{Sla, SlaPolicy}
use proman_edge_ace.BusinessHours.{hour_ms}

-- A percentage as the fraction it is computed from. The source's floating-point quotient of two times of
-- less than 2^50 milliseconds falls on the same side of 90 and of 100.
pub record Percent : Type 0 where
  pub elapsed : ℕ
  pub total : ℕ

unfoldable pub percent_elapsed : ℕ → ℕ → ℕ → Percent
percent_elapsed created due now =
    if leb due created
    then record { elapsed = 1; total = 1 }
    else record { elapsed = now - created; total = due - created }

unfoldable pub status_for : Percent → SlaClockStatus
status_for p =
    if leb (100 * p.total) (100 * p.elapsed)
    then breached
    else if leb (90 * p.total) (100 * p.elapsed)
    then warning_90
    else on_track

-- `hoursSinceBreach >= hours`, in milliseconds
abbrev pub delay_over : ℕ → ℕ → ℕ → Bool
delay_over at now hours = leb (at + hours * hour_ms) now

unfoldable pub next_escalation_level : ℕ → Option ℕ → ℕ → Option SlaPolicy → Option ℕ
next_escalation_level level none now policy = none
next_escalation_level level (some at) now none = none
next_escalation_level level (some at) now (some p) =
    if level == 1
    then level_2 p.level2_delay_hours
    else if level == 2
    then level_3 p.level2_delay_hours p.level3_delay_hours
    else none
  where
    level_2 : Option ℕ → Option ℕ
    level_2 none = none
    level_2 (some d) = if delay_over at now d then some 2 else none

    level_3 : Option ℕ → Option ℕ → Option ℕ
    level_3 (some d) (some e) = if delay_over at now (d + e) then some 3 else none
    level_3 _ _ = none

-- The columns of one of the two clocks.
pub record Clock : Type 0 where
  pub met : Bool
  pub due : Option ℕ
  pub status : SlaClockStatus
  pub breached_at : Option ℕ
  pub level : ℕ

abbrev pub response_clock : Sla → Clock
response_clock s = record {
  met = s.response_met;
  due = s.response_due;
  status = s.response_status;
  breached_at = s.response_breached_at;
  level = s.response_escalation_level;
}

abbrev pub resolution_clock : Sla → Clock
resolution_clock s = record {
  met = s.resolution_met;
  due = s.resolution_due;
  status = s.resolution_status;
  breached_at = s.resolution_breached_at;
  level = s.resolution_escalation_level;
}

-- What one round finds for a clock.
pub record ClockData : Type 0 where
  pub status : Option SlaClockStatus  -- a status other than the present one
  pub breached_at : Option ℕ  -- the moment of a new breach
  pub effective_level : ℕ  -- the level before the ladder's step, 1 after a new breach
  pub escalated : Option ℕ  -- the level of the ladder's step

-- The status, where the clock runs and it is another one.
unfoldable pub next_status : ℕ → ℕ → Clock → Option SlaClockStatus
unfolding percent_elapsed status_for
next_status now created c = elim c.due [
  | none ↦ none
  | some due ↦
      let next = status_for (percent_elapsed created due now) in
      if not c.met && not (next == c.status) then some next else none
]

unfoldable pub clock_data : ℕ → ℕ → Option SlaPolicy → Clock → ClockData
clock_data now created policy c =
    let next = next_status now created c in
    let hit = is_just next breached in
    let level = if hit then 1 else c.level in
    record {
      status = next;
      breached_at = if hit then some now else none;
      effective_level = level;
      escalated = next_escalation_level level (if hit then some now else c.breached_at) now policy;
    }

-- `data`, written into the row.
unfoldable pub applied : ClockData → ClockData → Sla → Sla
applied responding resolving row = record row {
  response_status = get_or responding.status row.response_status;
  response_breached_at = or_else responding.breached_at row.response_breached_at;
  response_escalation_level =
      get_or responding.escalated (level responding row.response_escalation_level);
  resolution_status = get_or resolving.status row.resolution_status;
  resolution_breached_at = or_else resolving.breached_at row.resolution_breached_at;
  resolution_escalation_level =
      get_or resolving.escalated (level resolving row.resolution_escalation_level);
}
  where
    level : ClockData → ℕ → ℕ
    level d old = if is_some d.breached_at then 1 else old
