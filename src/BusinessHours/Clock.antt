-- ===== src/BusinessHours/Clock.antt =====
-- The business clock, an independent measure of the time that business-hours.util.ts adds, from the epoch to
-- a moment: the hours from 08:00 to 18:00 of the days that are not off, with the milliseconds of a begun
-- hour. `business_clock` counts the begun hours alone.
use proman_edge_ace.Prelude.{
  ℕ, zero, suc, ◌+◌, ◌-◌, ◌*◌, ◌≤◌, ◌≡◌, true, false, List, arith, if◌then◌else◌,
}
use native.Mathlib.Numerals.{add-one}
use proman_edge_ace.BusinessHours.{LocalTime, is_off, next_morning}

-- How many of the days 0, 1, …, d - 1 are not off.
pub open_days : List ℕ → ℕ → ℕ
open_days hs zero = 0
open_days hs (suc d) = (if is_off hs d then 0 else 1) + open_days hs d

unfoldable pub business_clock : List ℕ → LocalTime → ℕ
business_clock hs c = 10 * open_days hs c.day + (if is_off hs c.day then 0 else c.hour - 8)

-- The business time in milliseconds, the part of an hour included
unfoldable pub business_ms : List ℕ → LocalTime → ℕ
business_ms hs c = 3600000 * business_clock hs c + (if is_off hs c.day then 0 else c.rest)

open_days-suc :
    (hs : List ℕ) (d : ℕ) → open_days hs (d + 1) ≡ (if is_off hs d then 0 else 1) + open_days hs d
unfolding open_days
open_days-suc hs d = rw add-one

-- A day that is off counts nothing.
pub business_clock-next_off :
    (hs : List ℕ) (c : LocalTime)
    → is_off hs c.day ≡ true
    → business_clock hs (next_morning c) ≡ business_clock hs c
unfolding business_clock
business_clock-next_off hs c h = ground (arith, open_days-suc hs c.day)

-- The morning after a working day counts as its closing time.
pub business_clock-next_open :
    (hs : List ℕ) (c : LocalTime)
    → is_off hs c.day ≡ false
    → c.hour ≡ 18
    → business_clock hs (next_morning c) ≡ business_clock hs c
unfolding business_clock
business_clock-next_open hs c h e = ground (arith, open_days-suc hs c.day)

pub business_clock-work :
    (hs : List ℕ) (c : LocalTime) (n : ℕ)
    → is_off hs c.day ≡ false
    → 8 ≤ c.hour
    → business_clock hs (record c { hour = c.hour + n }) ≡ business_clock hs c + n
unfolding business_clock
business_clock-work hs c n h e = ground arith

pub business_ms-morning :
    (hs : List ℕ) (c : LocalTime)
    → business_ms hs (next_morning c) ≡ 3600000 * business_clock hs (next_morning c)
unfolding business_ms
business_ms-morning hs c = ground arith

pub business_ms-open :
    (hs : List ℕ) (c : LocalTime)
    → is_off hs c.day ≡ false
    → business_ms hs c ≡ 3600000 * business_clock hs c + c.rest
unfolding business_ms
business_ms-open hs c on = ground (arith, on)

pub business_ms-off :
    (hs : List ℕ) (c : LocalTime)
    → is_off hs c.day ≡ true
    → business_ms hs c ≡ 3600000 * business_clock hs c
unfolding business_ms
business_ms-off hs c off = ground (arith, off)
