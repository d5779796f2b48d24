-- ===== src/Contracts/Spacing.antt =====
-- The visits that a contract plans: `generateScheduledVisits` of
-- backend/src/ticketing/amc/amc-contract.service.ts.
use mathlib.Core.Path.{subst}
use native.Mathlib.Nat.{div-le_of_le-mul, mul-le-mul_left, mul_comm, mod-lt}
use proman_edge_ace.Prelude.{
  ℕ, zero, suc, ◌+◌, ◌-◌, ◌*◌, ◌/◌, ◌%◌, ◌≤◌, ◌<◌, ◌≡◌, refl, sym, ◌∙◌, ap, true, none, List, [],
  ◌∷◌, All, All-weaken, length, includes, nat_eq, arith,
}
use proman_edge_ace.Schema.{ScheduledVisit}
use proman_edge_ace.Env.{Env}
use proman_edge_ace.Contracts.{
  scheduled, planned_dates, spaced_from, spaced_date, visits_on, nth_or,
}

-- A visit in its place: the `visit_seq_no`th of `n`, evenly between the contract's dates, on the machine
-- whose turn it is.
pub record IsSpaced (contract_id start end' n : ℕ) (machines : List ℕ) (v : ScheduledVisit)
    : Type 0 where
  pub contract : v.contract_id ≡ contract_id
  pub number : (1 ≤ v.visit_seq_no) × (v.visit_seq_no ≤ n)
  pub date : v.planned_date ≡ start + (end' - start) * v.visit_seq_no / suc n
  pub within : (start ≤ v.planned_date) × (v.planned_date ≤ end')
  pub machine : v.equipment_id ≡ nth_or 0 machines ((v.visit_seq_no - 1) % length machines)
  pub covered : includes machines v.equipment_id ≡ true

-- A share of at most the whole
share_le : (whole i n : ℕ) → i ≤ n → whole * i / suc n ≤ whole
share_le whole i n h =
    div-le_of_le-mul (suc n) (
      subst (λ m. whole * i ≤ m) (mul_comm whole (suc n))
        (mul-le-mul_left whole (omega (arith, h))))

nth_or-includes :
    (machines : List ℕ) (i : ℕ)
    → i < length machines
    → includes machines (nth_or 0 machines i) ≡ true
unfolding nth_or
nth_or-includes [] i h = absurd (omega (arith, h))
nth_or-includes (m ∷ ms) zero h = ground arith
nth_or-includes (m ∷ ms) (suc i) h = ground (arith, nth_or-includes ms i (omega (arith, h)))

record Places (contract_id : ℕ) (machines : List ℕ) (n i : ℕ) (date_of : ℕ → ℕ) (v : ScheduledVisit)
    : Type 0 where
  place : ℕ
  number : v.visit_seq_no ≡ suc place
  inside : (i ≤ place) × (place < i + n)
  contract : v.contract_id ≡ contract_id
  date : v.planned_date ≡ date_of (suc place)
  machine : v.equipment_id ≡ nth_or 0 machines (place % length machines)

module _ (contract_id start end' n : ℕ) (machines : List ℕ) where
  later_place :
      (left i : ℕ) (v : ScheduledVisit)
      → Places contract_id machines left (suc i) (spaced_date start end' n) v
      → Places contract_id machines (suc left) i (spaced_date start end' n) v
  later_place left i v p = record {
    place = p.place;
    number = p.number;
    inside = omega (arith, p.inside);
    contract = p.contract;
    date = p.date;
    machine = p.machine;
  }

  visits_on-Places :
      (left i : ℕ)
      → let vs = visits_on contract_id machines (spaced_from start end' n left (suc i)) i in
        (length vs ≡ left) × All (Places contract_id machines left i (spaced_date start end' n)) vs
  unfolding visits_on spaced_from
  visits_on-Places zero i = (refl, tt)
  visits_on-Places (suc left) i =
      let (count, all) = visits_on-Places left (suc i) in
      (
        ap suc count,
        (
          record {
            place = i;
            number = refl;
            inside = omega arith;
            contract = refl;
            date = refl;
            machine = refl;
          },
          All-weaken
              (visits_on contract_id machines (spaced_from start end' n left (suc (suc i))) (suc i))
              (later_place left i) all,
        ),
      )

-- Without dates in the request, a contract of `n` visits (at least one) over at least one machine, whose end is
-- not before its start, plans `n` of them: each has its number from 1 to `n`, the date that many shares
-- of `n + 1` from the start to the end, within the contract, and a machine of the contract, in turn.
pub planned_visits_spread_evenly :
    (env : Env) (contract_id n start end' : ℕ) (machines : List ℕ)
    → 1 ≤ n
    → 1 ≤ length machines
    → start ≤ end'
    → let vs = scheduled env contract_id n start end' machines none in
      (length vs ≡ n) × All (IsSpaced contract_id start end' n machines) vs
unfolding scheduled planned_dates spaced_date
planned_visits_spread_evenly env contract_id n start end' machines positive some_machine forward =
    let (count, all) = visits_on-Places contract_id start end' n machines n 0 in
    subst (λ vs. (length vs ≡ n) × All (IsSpaced contract_id start end' n machines) vs) (sym plans)
      (
        count,
        All-weaken (visits_on contract_id machines (spaced_from start end' n n 1) 0) spaced all,
      )
  where
    plans :
        scheduled env contract_id n start end' machines none
        ≡ visits_on contract_id machines (spaced_from start end' n n 1) 0
    plans = ground (arith, positive, some_machine)

    on_date : (i : ℕ) → spaced_date start end' n i ≡ start + (end' - start) * i / suc n
    on_date i = ground (arith, forward)

    spaced :
        (v : ScheduledVisit)
        → Places contract_id machines n 0 (spaced_date start end' n) v
        → IsSpaced contract_id start end' n machines v
    spaced v p =
        let share = share_le (end' - start) (suc p.place) n (omega (arith, p.inside)) in
        let date = p.date ∙ on_date (suc p.place) in
        record {
          contract = p.contract;
          number = (omega (arith, p.number), omega (arith, p.number, p.inside));
          date = date ∙ ap (λ i. start + (end' - start) * i / suc n) (sym p.number);
          within = (omega (arith, date), omega (arith, date, share, forward));
          machine =
              p.machine
              ∙ ap (λ i. nth_or 0 machines (i % length machines)) (omega (arith, p.number));
          covered =
              ap (includes machines) p.machine
              ∙ nth_or-includes machines (p.place % length machines)
                  (mod-lt p.place (omega (arith, some_machine)));
        }
