-- ===== src/SlaBreach/Rounds.antt =====
-- What a round of backend/src/ticketing/tickets/sla-breach.cron.ts stores, and what the next ones find.
use proman_edge_ace.Prelude.{
  ℕ, ◌≤◌, ◌<◌, ◌≡◌, ◌≢◌, false, refl, ap, ◌∙◌, ◌||◌, is_some, inl, inr, true, Option, none, some,
  arith, Option-cases, get_or, or_else,
}
use proman_edge_ace.Domain.Ticketing.{breached, sla_clock_status_eq}
use proman_edge_ace.Prelude.Dict.{lookup, lookup-modify_self}
use proman_edge_ace.Schema.{Db, Ticket, Sla, SlaPolicy}
use proman_edge_ace.Env.{Env}
use proman_edge_ace.Action.{ok}
use proman_edge_ace.Store.{put_tickets}
use proman_edge_ace.Notifications.{first_admin}
use proman_edge_ace.Notifications.Failsafe.{Quiet, Quiet-bind, Quiet-with_some, Quiet-audit}
use proman_edge_ace.SlaBreach.{
  response_clock, resolution_clock, Clock, ClockData, percent_elapsed, status_for,
  next_escalation_level, next_status, clock_data, applied, audit_clocks, store_clocks,
  resolve_system_actor_id,
}
use proman_edge_ace.SlaBreach.Ladder.{ladder_steps_up}

pub data WhichClock : Type 0 where
  first_response final_resolution : WhichClock

abbrev pub clock_of : WhichClock → Sla → Clock
clock_of first_response s = response_clock s
clock_of final_resolution s = resolution_clock s

overdue :
    (now created due : ℕ) (c : Clock)
    → c.due ≡ some due
    → created < due
    → c.met ≡ false
    → c.status ≢ breached
    → due ≤ now
    → next_status now created c ≡ some breached
unfolding next_status status_for percent_elapsed
overdue now created due c d start unmet fresh over = ground (arith, d, start, unmet, fresh, over)

-- A clock that has the status BREACHED from `now` on.
settled :
    (now later created due : ℕ) (c c' : Clock)
    → c.due ≡ some due
    → created < due
    → now ≤ later
    → next_status now created c ≡ some breached
    → c'.met ≡ c.met
    → c'.due ≡ c.due
    → c'.status ≡ breached
    → next_status later created c' ≡ none
unfolding next_status status_for percent_elapsed
settled now later created due c c' d start order found met same hit =
    ground (arith, d, start, order, found, met, same, hit)

audit_clocks-Quiet :
    (id actor : ℕ) (t : Ticket) (responding resolving : ClockData)
    → Quiet (audit_clocks id actor t responding resolving)
unfolding audit_clocks
audit_clocks-Quiet id actor t responding resolving =
    Quiet-bind (Quiet-with_some responding.status λ _. Quiet-audit _) λ _.
      Quiet-bind (Quiet-with_some resolving.status λ _. Quiet-audit _) λ _.
        Quiet-bind (Quiet-with_some responding.escalated λ _. Quiet-audit _)
          λ _. Quiet-with_some resolving.escalated λ _. Quiet-audit _

-- A round's row: the clocks of the data, and the rest as it was.
abbrev pub checked : ClockData → ClockData → Ticket → Ticket
checked responding resolving t = record t { sla = applied responding resolving t.sla }

store_clocks-stored :
    (id : ℕ) (t : Ticket) (responding resolving : ClockData) (env : Env) (db : Db) (actor : ℕ)
    → lookup id db.tickets ≡ some t
    → or_else env.partner_actor_user_id (first_admin db.users) ≡ some actor
    → (is_some responding.status
        || is_some responding.escalated
        || is_some resolving.status
        || is_some resolving.escalated)
      ≡ true
    → (db' : Db) × (store_clocks id t responding resolving env db ≡ (ok tt, db'))
      × (lookup id db'.tickets ≡ some (checked responding resolving t))
unfolding store_clocks resolve_system_actor_id
store_clocks-stored id t responding resolving env db actor found named news =
    let mid = put_tickets id (checked responding resolving) db in
    let (_, db', e, k) = (audit_clocks-Quiet id actor t responding resolving).run env mid in
    (
      db',
      ground (arith, news, named, found, e),
      ap (λ d. lookup id d.tickets) k.same
          ∙ lookup-modify_self id (checked responding resolving) db.tickets t found,
    )

level_positive :
    (at : Option ℕ) (now : ℕ) (policy : Option SlaPolicy)
    → 1 ≤ get_or (next_escalation_level 1 at now policy) 1
level_positive at now policy = elim (Option-cases (next_escalation_level 1 at now policy)) [
  | inl rests ↦ rw (rests) (omega arith)
  | inr (next, steps) ↦
      let (a, p, e, f, climbs) = ladder_steps_up 1 at now policy next steps in
      rw (steps) (omega (arith, climbs.one_step))
]

module _ (t : Ticket) (now : ℕ) (policy : Option SlaPolicy) where
  abbrev data_of : (Sla → Clock) → ClockData
  data_of clock = clock_data now t.created_at policy (clock t.sla)

  -- The clock after a round that finds it breached.
  record IsStored (c c' : Clock) : Type 0 where
    status : c'.status ≡ breached
    breached_at : c'.breached_at ≡ some now
    level : 1 ≤ c'.level
    met : c'.met ≡ c.met
    due : c'.due ≡ c.due

  hit-IsStored :
      (which : WhichClock)
      → next_status now t.created_at (clock_of which t.sla) ≡ some breached
      → IsStored
          (clock_of which t.sla)
          (clock_of which (applied (data_of response_clock) (data_of resolution_clock) t.sla))
  unfolding clock_data applied
  hit-IsStored first_response hit =
      let level = level_positive (some now) now policy in
      record {
        status = ground (arith, hit);
        breached_at = ground (arith, hit);
        level = ground (arith, hit, level);
        met = refl;
        due = refl;
      }
  hit-IsStored final_resolution hit =
      let level = level_positive (some now) now policy in
      record {
        status = ground (arith, hit);
        breached_at = ground (arith, hit);
        level = ground (arith, hit, level);
        met = refl;
        due = refl;
      }

  is_news :
      (which : WhichClock)
      → next_status now t.created_at (clock_of which t.sla) ≡ some breached
      → (is_some (data_of response_clock).status
          || is_some (data_of response_clock).escalated
          || is_some (data_of resolution_clock).status
          || is_some (data_of resolution_clock).escalated)
        ≡ true
  unfolding clock_data
  is_news first_response hit = ground (arith, hit)
  is_news final_resolution hit = ground (arith, hit)

module _ (which : WhichClock) (id : ℕ) (t : Ticket) (env later : Env) (db : Db)
    (policy : Option SlaPolicy) (actor due : ℕ) where
  abbrev found_for : (Sla → Clock) → ClockData
  found_for = data_of t env.now policy

  abbrev row_after : Ticket
  row_after = checked (found_for response_clock) (found_for resolution_clock) t

  -- A breach is found once. One of the two clocks of a ticket on file is not met, not BREACHED yet, and at or past
  -- its due date, which is after the creation: at the end of a round, where somebody can be named for the trail,
  -- the row is stored. The call returns, and on file the clock then has the status BREACHED, the round's time
  -- and a level of at least 1, so that a round at any later time finds no other status for it.
  pub breach_is_found_once :
      lookup id db.tickets ≡ some t
      → or_else env.partner_actor_user_id (first_admin db.users) ≡ some actor
      → (clock_of which t.sla).due ≡ some due
      → t.created_at < due
      → env.now ≤ later.now
      → (clock_of which t.sla).met ≡ false
      → (clock_of which t.sla).status ≢ breached
      → due ≤ env.now
      → (db' : Db) × (t' : Ticket) × (store_clocks id t
            (clock_data env.now t.created_at policy (response_clock t.sla))
            (clock_data env.now t.created_at policy (resolution_clock t.sla))
            env
            db
          ≡ (ok tt, db'))
        × (lookup id db'.tickets ≡ some t')
        × ((clock_of which t'.sla).status ≡ breached)
        × ((clock_of which t'.sla).breached_at ≡ some env.now)
        × (1 ≤ (clock_of which t'.sla).level)
        × (next_status later.now t'.created_at (clock_of which t'.sla) ≡ none)
  breach_is_found_once found named d start order unmet fresh over =
      let hit = overdue env.now t.created_at due (clock_of which t.sla) d start unmet fresh over in
      let (db', e, stored) =
        store_clocks-stored id t (found_for response_clock) (found_for resolution_clock) env db
          actor found named (is_news t env.now policy which hit) in
      let c = hit-IsStored t env.now policy which hit in
      (
        db',
        row_after,
        e,
        stored,
        c.status,
        c.breached_at,
        c.level,
        settled env.now later.now t.created_at due (clock_of which t.sla)
            (clock_of which row_after.sla) d start order hit c.met c.due c.status,
      )
