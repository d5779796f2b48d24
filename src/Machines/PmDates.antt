-- ===== src/Machines/PmDates.antt =====
-- The dates of the visits under a warranty: the loop of `generateSchedules` in
-- backend/src/ticketing/equipment/warranty-pm.cron.ts.
use mathlib.Core.Path.{subst}
use proman_edge_ace.Prelude.{
  ℕ, zero, suc, ◌+◌, ◌*◌, ◌≤◌, ◌<◌, ◌≡◌, some, List, [], ◌∷◌, All, length, ltb, arith, ltb→lt,
  Bool-cases, inl, inr,
}
use proman_edge_ace.Machines.Engines.{pm_dates}

at_least : (months seq : ℕ) → 1 ≤ months → seq ≤ months * seq
at_least zero seq positive = absurd (omega (arith, positive))
at_least (suc months) seq positive = grind arith

module _ (add_months : ℕ → ℕ → ℕ) (start end' months : ℕ) where
  stops :
      (fuel seq : ℕ)
      → end' < add_months start (months * seq)
      → pm_dates add_months (suc fuel) start end' months seq ≡ some []
  unfolding pm_dates
  stops fuel seq past = ground (arith, past)

  goes_on :
      (fuel seq : ℕ) (ds : List ℕ)
      → add_months start (months * seq) ≤ end'
      → pm_dates add_months fuel start end' months (suc seq) ≡ some ds
      → pm_dates add_months (suc fuel) start end' months seq
        ≡ some (add_months start (months * seq) ∷ ds)
  unfolding pm_dates
  goes_on fuel seq ds within rest = ground (arith, within, rest)

  -- What the loop has listed from the number `seq` on.
  pub record IsSchedule (seq : ℕ) (ds : List ℕ) : Type 0 where
    pub within : All (λ d. (start ≤ d) × (d ≤ end')) ds
    pub complete : end' < add_months start (months * (seq + length ds))

  over :
      (seq : ℕ)
      → ((n : ℕ) → start + n ≤ add_months start n)
      → 1 ≤ months
      → end' < seq
      → end' < add_months start (months * seq)
  over seq later positive past =
      omega (arith, later (months * seq), at_least months seq positive, past)

  enough_fuel :
      (fuel seq : ℕ)
      → ((n : ℕ) → start + n ≤ add_months start n)
      → 1 ≤ months
      → end' < seq + fuel
      → (ds : List ℕ) × (pm_dates add_months (suc fuel) start end' months seq ≡ some ds)
        × IsSchedule seq ds
  enough_fuel zero seq later positive enough = (
    [],
    stops zero seq (over seq later positive (omega (arith, enough))),
    record { within = tt; complete = over (seq + 0) later positive (omega (arith, enough)) },
  )
  enough_fuel (suc fuel) seq later positive enough =
      let (ds, e, s) = enough_fuel fuel (suc seq) later positive (omega (arith, enough)) in
      elim (Bool-cases (ltb end' (add_months start (months * seq)))) [
        | inl past ↦ (
          [],
          stops (suc fuel) seq (ground (arith, past)),
          record {
            within = tt;
            complete =
                subst (λ n. end' < add_months start (months * n)) (omega arith)
                  (ltb→lt end' (add_months start (months * seq)) past);
          },
        )
        | inr within ↦
            let fits : add_months start (months * seq) ≤ end' = ground (arith, within) in
            (
              add_months start (months * seq) ∷ ds,
              goes_on (suc fuel) seq ds fits e,
              record {
                within = ((omega (arith, later (months * seq)), fits), s.within);
                complete =
                    subst (λ n. end' < add_months start (months * n)) (omega arith) s.complete;
              },
            )
      ]

-- The plan of a machine's visits ends: where every month is later than the one before it and the interval is
-- at least one month, one turn more than the milliseconds up to the end is enough for the loop. Every
-- date is from the start to the end of the warranty, and the next one after them would be past it.
pub pm_dates_are_complete :
    (add_months : ℕ → ℕ → ℕ) (start end' months : ℕ)
    → ((n : ℕ) → start + n ≤ add_months start n)
    → 1 ≤ months
    → (ds : List ℕ) × (pm_dates add_months (end' + 2) start end' months 1 ≡ some ds)
      × IsSchedule add_months start end' months 1 ds
pm_dates_are_complete add_months start end' months later positive =
    subst
      (λ fuel.
        (ds : List ℕ) × (pm_dates add_months fuel start end' months 1 ≡ some ds)
        × IsSchedule add_months start end' months 1 ds)
      (omega arith)
      (enough_fuel add_months start end' months (suc end') 1 later positive (omega arith))
