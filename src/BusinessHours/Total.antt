-- ===== src/BusinessHours/Total.antt =====
-- The loop of business-hours.util.ts ends, whatever the holidays.
use proman_edge_ace.Prelude.{
  ℕ, zero, suc, ◌+◌, ◌-◌, ◌*◌, ◌≤◌, ◌<◌, ◌≡◌, ◌≢◌, ◌%◌, refl, ◌∙◌, ◌⊎◌, inl, inr, true, false, some,
  List, [], ◌∷◌, arith, ltb, if◌then◌else◌, includes, nat_eq, Bool-cases, ap,
}
use Prim.Native.Nat.{min}
use mathlib.Core.Option
use native.Mathlib.Decide.{dec_lt}
use proman_edge_ace.BusinessHours.Clock.{
  business_clock, business_clock-next_off, business_clock-next_open, business_clock-work,
  business_ms, business_ms-morning, business_ms-open, business_ms-off,
}
use proman_edge_ace.BusinessHours.{
  LocalTime, weekday, is_off, next_morning, clamp, walk, horizon, fuel_for, add_business_hours,
  business_due, to_local, of_local,
}

includes-lt-horizon : (d : ℕ) (hs : List ℕ) → includes hs d ≡ true → d < horizon hs
includes-lt-horizon d [] h = cc
includes-lt-horizon d (x ∷ hs) h = ground (arith, includes-lt-horizon d hs)

-- A day is off for one of two reasons.
is_off-cases : (hs : List ℕ) (d : ℕ) → is_off hs d ≡ true → (weekday d ≡ 0) ⊎ (d < horizon hs)
unfolding is_off
is_off-cases hs d h = ground (arith, includes-lt-horizon d hs)

-- What a round lowers.
abbrev sunday : ℕ → ℕ
sunday d = if ltb 0 (weekday d) then 0 else 1

abbrev potential : List ℕ → ℕ → ℕ → ℕ
potential hs d remaining = 2 * remaining + 2 * (horizon hs - d) + sunday d

sunday-le : (d : ℕ) → sunday d ≤ 1
sunday-le d = ground arith

potential-skip :
    (hs : List ℕ) (d r : ℕ) → is_off hs d ≡ true → potential hs (d + 1) r < potential hs d r
potential-skip hs d r h = ground (arith, is_off-cases hs d h)

potential-work : (hs : List ℕ) (d r s : ℕ) → s < r → potential hs (d + 1) s < potential hs d r
potential-work hs d r s h = omega (arith, sunday-le (d + 1))

-- What the loop promises: it ends, the begun hours of its end are as many later as it was asked for, the time
-- between is right but for the start's part of an hour, and if it was asked for any, it ends on a working day,
-- in an hour after 8 and at most 18.
pub record Lands (hs : List ℕ) (start : LocalTime) (hours : ℕ) (end : LocalTime) : Type 0 where
  pub exact : business_clock hs end ≡ business_clock hs start + hours
  pub elapsed :
      (business_ms hs end ≡ business_ms hs start + hours * 3600000)
      ⊎ (business_ms hs end + start.rest ≡ business_ms hs start + hours * 3600000)
  pub open_day : 0 < hours → ((end.day + 4) % 7 ≢ 0) × (includes hs end.day ≡ false)
  pub in_window : 0 < hours → (8 < end.hour) × (end.hour ≤ 18)

open_days_of :
    (hs : List ℕ) (d : ℕ) → is_off hs d ≡ false → ((d + 4) % 7 ≢ 0) × (includes hs d ≡ false)
unfolding is_off
open_days_of hs d on = (λ e. ground (arith, on, e), ground (arith, on))

module _ (hs : List ℕ) where
  abbrev Ends : ℕ → LocalTime → ℕ → Type 0
  Ends fuel c r = (c' : LocalTime) × (walk hs fuel c r ≡ some c') × Lands hs c r c'

  walk_skip :
      (fuel : ℕ) (c : LocalTime) (n : ℕ)
      → is_off hs c.day ≡ true
      → Ends fuel (next_morning c) (suc n)
      → Ends (suc fuel) c (suc n)
  unfolding walk
  walk_skip fuel c n off (c', e, l) = (
    c',
    rw off e,
    record {
      exact = rw (← business_clock-next_off hs c off) l.exact;
      elapsed = inl (
          grind (
            arith,
            l.elapsed,
            business_ms-morning hs c,
            business_ms-off hs c off,
            business_clock-next_off hs c off,
          ));
      open_day = l.open_day;
      in_window = l.in_window;
    },
  )

  -- The round that works the last hours.
  walk_last :
      (fuel : ℕ) (c : LocalTime) (n : ℕ)
      → is_off hs c.day ≡ false
      → suc n ≤ 18 - c.hour
      → walk hs (suc (suc fuel)) c (suc n) ≡ some (record c { hour = c.hour + suc n })
  unfolding walk
  walk_last fuel c n on h =
      let e : min (suc n) (18 - c.hour) ≡ suc n = omega arith in
      let z : suc n - min (suc n) (18 - c.hour) ≡ 0 = omega arith in
      let z' : suc n - suc n ≡ 0 = omega arith in rw (on, z, e, z')

  -- A round that works to the end of the day, with hours left over.
  walk_more :
      (fuel : ℕ) (c : LocalTime) (n : ℕ)
      → is_off hs c.day ≡ false
      → 18 - c.hour < suc n
      → walk hs (suc fuel) c (suc n) ≡ walk hs fuel (next_morning c) (suc n - (18 - c.hour))
  unfolding walk
  walk_more fuel c n on h =
      let e : min (suc n) (18 - c.hour) ≡ 18 - c.hour = omega arith in
      let more : ltb 0 (suc n - (18 - c.hour)) ≡ true = ground arith in rw (on, e, more)

  last-Ends :
      (fuel : ℕ) (c : LocalTime) (n : ℕ)
      → is_off hs c.day ≡ false
      → 8 ≤ c.hour
      → suc n ≤ 18 - c.hour
      → 0 < fuel
      → Ends (suc fuel) c (suc n)
  last-Ends zero c n on g h z = absurd (omega arith)
  last-Ends (suc fuel) c n on g h z = (
    record c { hour = c.hour + suc n },
    walk_last fuel c n on h,
    record {
      exact = business_clock-work hs c (suc n) on g;
      elapsed = inl (
          omega (
            arith,
            business_clock-work hs c (suc n) on g,
            business_ms-open hs (record c { hour = c.hour + suc n }) on,
            business_ms-open hs c on,
          ));
      open_day = λ _. open_days_of hs c.day on;
      in_window = λ _. omega arith;
    },
  )

  more-Ends :
      (fuel : ℕ) (c : LocalTime) (n : ℕ)
      → is_off hs c.day ≡ false
      → 8 ≤ c.hour
      → c.hour < 18
      → 18 - c.hour < suc n
      → Ends fuel (next_morning c) (suc n - (18 - c.hour))
      → Ends (suc fuel) c (suc n)
  more-Ends fuel c n on g h more (c', e, l) = (
    c',
    walk_more fuel c n on more ∙ e,
    record {
      exact = omega (arith, l.exact, closing, business_clock-work hs c (18 - c.hour) on g);
      elapsed = inr (
          grind (
            arith,
            l.elapsed,
            closing,
            business_clock-work hs c (18 - c.hour) on g,
            business_ms-morning hs c,
            business_ms-open hs c on,
          ));
      open_day = λ _. l.open_day (omega arith);
      in_window = λ _. l.in_window (omega arith);
    },
  )
    where
      closing :
          business_clock hs (next_morning c)
          ≡ business_clock hs (record c { hour = c.hour + (18 - c.hour) })
      closing =
          business_clock-next_open hs (record c { hour = c.hour + (18 - c.hour) }) on (omega arith)

walk_total :
    (hs : List ℕ) (fuel : ℕ) (c : LocalTime) (r : ℕ)
    → 8 ≤ c.hour
    → c.hour < 18
    → potential hs c.day r < fuel
    → Ends hs fuel c r
unfolding walk
walk_total hs zero c r g h p = absurd (omega arith)
walk_total hs (suc fuel) c zero g h p = (
  c,
  refl,
  record {
    exact = omega arith;
    elapsed = inl (omega arith);
    open_day = λ z. absurd (omega arith);
    in_window = λ z. absurd (omega arith);
  },
)
walk_total hs (suc fuel) c (suc n) g h p = elim (Bool-cases (is_off hs c.day)) [
  | inl off ↦ walk_skip hs fuel c n off (
      walk_total hs fuel (next_morning c) (suc n) (omega arith) (omega arith)
        (omega (arith, potential-skip hs c.day (suc n) off)))
  | inr on ↦ elim (dec_lt (18 - c.hour) (suc n)) [
    | yes more ↦ more-Ends hs fuel c n on g h more (
        walk_total hs fuel (next_morning c) (suc n - (18 - c.hour)) (omega arith) (omega arith)
          (omega (arith, potential-work hs c.day (suc n) (suc n - (18 - c.hour)))))
    | no last ↦ last-Ends hs fuel c n on g (omega arith) (omega arith)
  ]
]

clamp_window : (c : LocalTime) → (8 ≤ (clamp c).hour) × ((clamp c).hour < 18)
unfolding clamp
clamp_window c = ground arith

-- For every starting moment, number of hours and list of holidays, `add_business_hours` returns a time. From
-- the start, moved into the business window first, the begun hours of the business clock go on by exactly so
-- many; to the millisecond it is so many business hours later, or less than that by the start's milliseconds
-- past its hour, which are lost at a change of the day. Where it is asked for at least one hour, the time lies
-- on a day that is neither a Sunday nor a holiday, its hour above 8 and at most 18, so that it can be past
-- 18:00 by those milliseconds.
pub add_business_hours_total :
    (hs : List ℕ) (from : LocalTime) (hours : ℕ)
    → (end : LocalTime) × (add_business_hours hs from hours ≡ some end)
      × Lands hs (clamp from) hours end
unfolding add_business_hours
add_business_hours_total hs from hours =
    let (g, h) = clamp_window from in
    walk_total hs (fuel_for hs (clamp from) hours) (clamp from) hours g h
      (omega (arith, sunday-le (clamp from).day))

-- A due date in so many business hours always exists.
business_due_total :
    (offset : ℕ) (hs : List ℕ) (from hours : ℕ)
    → (due : ℕ) × (business_due offset hs from hours ≡ some due)
unfolding business_due
business_due_total offset hs from hours =
    let (end, e, _) = add_business_hours_total hs (to_local offset from) hours in
    (of_local offset end, ap (Option.map (of_local offset)) e)
