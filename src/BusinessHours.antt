-- ===== src/BusinessHours.antt =====
-- Business time: backend/src/ticketing/tickets/business-hours.util.ts, with `BUSINESS_HOURS` of
-- sla-policy.constants.ts. A `Date` in local time is its day (counted from 1 January 1970, a
-- Thursday), its hour and the milliseconds past that hour; local time has no daylight saving
-- (the program runs on IST), and a holiday is its local day, for which the source writes "YYYY-MM-DD".
pub mod Clock
pub mod Total
use proman_edge_ace.Prelude.{
  ℕ, zero, suc, ◌+◌, ◌-◌, ◌*◌, ◌/◌, ◌%◌, Bool, ◌||◌, not, Option, none, some, List, [], ◌∷◌, ltb,
  leb, if◌then◌else◌, includes, nat_eq,
}
use Prim.Native.Nat.{min, max}
use mathlib.Core.Option

pub record BusinessConfig : Type 0 where
  pub start : ℕ
  pub end : ℕ
  pub work_days : List ℕ

-- 0 is Sunday.
abbrev pub business_hours : BusinessConfig
business_hours = record { start = 8; end = 18; work_days = 1 ∷ 2 ∷ 3 ∷ 4 ∷ 5 ∷ 6 ∷ [] }

pub record LocalTime : Type 0 where
  pub day : ℕ
  pub hour : ℕ
  pub rest : ℕ  -- milliseconds past the hour

abbrev pub hour_ms : ℕ
hour_ms = 3600000

-- `getDay()`
abbrev pub weekday : ℕ → ℕ
weekday day = (day + 4) % 7

-- `!workDays.includes(cursor.getDay()) || isHoliday(cursor)`
unfoldable pub is_off : List ℕ → ℕ → Bool
is_off holidays day = not (includes business_hours.work_days (weekday day)) || includes holidays day

-- `cursor.setDate(cursor.getDate() + 1); cursor.setHours(start, 0, 0, 0)`
abbrev pub next_morning : LocalTime → LocalTime
next_morning c = record { day = c.day + 1; hour = business_hours.start; rest = 0 }

-- The two `if`s that clamp the starting point into the business window.
unfoldable pub clamp : LocalTime → LocalTime
clamp c =
    let c' =
      if ltb c.hour business_hours.start
      then record { day = c.day; hour = business_hours.start; rest = 0 }
      else c in
    if leb business_hours.end c'.hour then next_morning c' else c'

-- The `while` loop, on fuel; `none` means that the fuel ran out.
pub walk : List ℕ → ℕ → LocalTime → ℕ → Option LocalTime
walk holidays zero cursor remaining = none
walk holidays (suc fuel) cursor zero = some cursor
walk holidays (suc fuel) cursor (suc n) =
    let step = min (suc n) (business_hours.end - cursor.hour) in
    let cursor' = record cursor { hour = cursor.hour + step } in
    let remaining = suc n - step in
    let skipped = walk holidays fuel (next_morning cursor) (suc n) in
    let worked =
      walk holidays fuel (if ltb 0 remaining then next_morning cursor' else cursor') remaining in
    if is_off holidays cursor.day then skipped else worked

-- The first day after all holidays.
abbrev pub horizon : List ℕ → ℕ
horizon [] = 0
horizon (h ∷ hs) = max (suc h) (horizon hs)

-- Enough rounds: each works at least an hour, or skips a day, and past the holidays only Sundays
-- are skipped.
abbrev pub fuel_for : List ℕ → LocalTime → ℕ → ℕ
fuel_for holidays c hours = 2 * hours + 2 * (horizon holidays - c.day) + 3

unfoldable pub add_business_hours : List ℕ → LocalTime → ℕ → Option LocalTime
unfolding clamp walk is_off
add_business_hours holidays from hours =
    let c = clamp from in walk holidays (fuel_for holidays c hours) c hours

-- Milliseconds since the epoch, from and to local time at `offset` milliseconds east of UTC.
unfoldable pub to_local : ℕ → ℕ → LocalTime
to_local offset t = record {
  day = (t + offset) / (24 * hour_ms);
  hour = (t + offset) / hour_ms % 24;
  rest = (t + offset) % hour_ms;
}

unfoldable pub of_local : ℕ → LocalTime → ℕ
of_local offset c = (c.day * 24 + c.hour) * hour_ms + c.rest - offset

-- `addBusinessHours` on `Date`s.
unfoldable pub business_due : ℕ → List ℕ → ℕ → ℕ → Option ℕ
business_due offset holidays from hours =
    Option.map (of_local offset) (add_business_hours holidays (to_local offset from) hours)
