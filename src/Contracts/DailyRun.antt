-- ===== src/Contracts/DailyRun.antt =====
-- The whole run of backend/src/ticketing/amc/amc-renewal.cron.ts, against `daily` for one contract.
use mathlib.Core.Path.{subst}
use mathlib.Core.Option
use mathlib.Core.List.{◌++◌ as append}
use proman_edge_ace.Prelude.{
  ℕ, ◌≡◌, ◌≢◌, ◌≤◌, refl, sym, ◌∙◌, ap, true, false, String, Option, none, some, List, [], ◌∷◌, All,
  arith, Option-cases, Bool-cases, inl, inr, ◌⊎◌, or_else,
}
use proman_edge_ace.Prelude.Dict.{Dict, lookup, modify, lookup-modify_self, lookup-modify_ne}
use proman_edge_ace.Domain.People.{Region}
use proman_edge_ace.Domain.Logs.{NotifChannel}
use proman_edge_ace.Domain.Contracts
use proman_edge_ace.Domain.Contracts.{renewal_status_eq}
use proman_edge_ace.Schema.{Db, AmcContract, Customer, User}
use proman_edge_ace.Env.{Env}
use proman_edge_ace.Action.{ok, after, for_each}
use proman_edge_ace.Store.Tables.{contract_table, change}
use proman_edge_ace.Store.Tables.Keys.{
  IsAbsent, HasDistinctKeys, AreFound, HasDistinctKeys-AreFound, lookup-IsAbsent, lookup-All,
}
use proman_edge_ace.Notifications.{Vars, first_admin, fire_notification}
use proman_edge_ace.Notifications.Failsafe.{
  Quiet, Quiet-bind, Quiet-for_each, Quiet-gets, fire_notification-Quiet,
}
use proman_edge_ace.Tickets.Announce.{related}
use proman_edge_ace.Tickets.Routing.{managers_for_region}
use proman_edge_ace.Contracts.Renewal.{
  Due, lapse, alert7, alert15, alert30, due_for, marked, is_running, vars_of, owner_of, alert_user,
  fire_renewal_alert, tell_lapsed, fire_lapsed, admins, announce, process, check_contract, running,
  run,
}
use proman_edge_ace.Contracts.Alerts.{daily}

alert_user-Quiet :
    (trigger : String) (vars : Vars) (r : ℕ × User) → Quiet (alert_user trigger vars r)
unfolding alert_user
alert_user-Quiet trigger vars (id, u) =
    Quiet-bind {m = fire_notification trigger NotifChannel.email u.email vars none none}
      {f = λ _. fire_notification trigger NotifChannel.push u.email vars none (some id)}
      (fire_notification-Quiet trigger NotifChannel.email u.email vars none none)
      (λ _. fire_notification-Quiet trigger NotifChannel.push u.email vars none (some id))

tell_lapsed-Quiet : (vars : Vars) (r : ℕ × User) → Quiet (tell_lapsed vars r)
unfolding tell_lapsed
tell_lapsed-Quiet vars (id, u) =
    fire_notification-Quiet "N-21" NotifChannel.email u.email vars none none

fire_renewal_alert-Quiet :
    (trigger : String) (owner : Option (ℕ × User)) (region : Option Region) (vars : Vars)
    → Quiet (fire_renewal_alert trigger owner region vars)
unfolding fire_renewal_alert
fire_renewal_alert-Quiet trigger owner region vars =
    Quiet-bind {A = Dict User} (Quiet-gets (managers_for_region region))
      λ managers. Quiet-for_each (append (owner_of owner) managers) (alert_user-Quiet trigger vars)

fire_lapsed-Quiet : (vars : Vars) (region : Option Region) → Quiet (fire_lapsed vars region)
unfolding fire_lapsed
fire_lapsed-Quiet vars region =
    Quiet-bind {A = Dict User} (Quiet-gets (managers_for_region region)) λ managers.
      Quiet-bind {A = List (ℕ × User)} (Quiet-gets admins)
        λ all_admins. Quiet-for_each (append managers all_admins) (tell_lapsed-Quiet vars)

announce-Quiet :
    (d : Due) (owner : Option (ℕ × User)) (region : Option Region) (vars : Vars)
    → Quiet (announce d owner region vars)
unfolding announce
announce-Quiet lapse owner region vars = fire_lapsed-Quiet vars region
announce-Quiet alert7 owner region vars = fire_renewal_alert-Quiet "N-20" owner region vars
announce-Quiet alert15 owner region vars = fire_renewal_alert-Quiet "N-19" owner region vars
announce-Quiet alert30 owner region vars = fire_renewal_alert-Quiet "N-18" owner region vars

-- The contracts are these, and the customers those of `db`.
pub record Leaves (db db' : Db) (rows : Dict AmcContract) : Type 0 where
  pub contracts : db'.contracts ≡ rows
  pub customers : db'.customers ≡ db.customers

process-marks :
    (id : ℕ) (c c0 : AmcContract) (cu : Customer) (d : Due) (env : Env) (db : Db)
    → lookup c.customer_id db.customers ≡ some cu
    → lookup id db.contracts ≡ some c0
    → (db' : Db) × (process (id, c) d env db ≡ (ok tt, db'))
      × Leaves db db' (modify id (marked env.now d) db.contracts)
unfolding process
process-marks id c c0 cu d env db known found =
    let (_, db1, e, k) =
      (announce-Quiet d (related c.owning_asm_id db.users) cu.region (vars_of env cu c)).run env
        db in
    let same = ap (λ (x : Db). x.contracts) k.same in
    (
      change contract_table (modify id (marked env.now d)) db1,
      ground (arith, known, e, ap (lookup id) same ∙ found),
      record {
        contracts = ap (modify id (marked env.now d)) same;
        customers = ap (λ (x : Db). x.customers) k.same;
      },
    )

-- What a call has done to the contract `id`, and to nothing else of the table.
record Moves (id : ℕ) (new : AmcContract) (db db' : Db) : Type 0 where
  moved : lookup id db'.contracts ≡ some new
  others : (k : ℕ) → k ≢ id → lookup k db'.contracts ≡ lookup k db.contracts
  customers : db'.customers ≡ db.customers

daily-due :
    (now : ℕ) (d : Due) (c : AmcContract)
    → is_running c ≡ true
    → due_for now c ≡ some d
    → daily now c ≡ marked now d c
unfolding daily
daily-due now d c runs due = ground (arith, runs, due)

daily-none :
    (now : ℕ) (c : AmcContract) → is_running c ≡ true → due_for now c ≡ none → daily now c ≡ c
unfolding daily
daily-none now c runs due = ground (arith, runs, due)

daily-ended : (now : ℕ) (c : AmcContract) → is_running c ≡ false → daily now c ≡ c
unfolding daily
daily-ended now c ended = ground (arith, ended)

check_contract-Moves :
    (id : ℕ) (c : AmcContract) (cu : Customer) (env : Env) (db : Db)
    → is_running c ≡ true
    → lookup c.customer_id db.customers ≡ some cu
    → lookup id db.contracts ≡ some c
    → (db' : Db) × (check_contract (id, c) env db ≡ (ok tt, db'))
      × Moves id (daily env.now c) db db'
unfolding check_contract
check_contract-Moves id c cu env db runs known found = elim (Option-cases (due_for env.now c)) [
  | inl nothing ↦ (
    db,
    ground (arith, nothing),
    record {
      moved = found ∙ ap (λ x. some x) (sym (daily-none env.now c runs nothing));
      others = λ k ne. refl;
      customers = refl;
    },
  )
  | inr (d, due) ↦
      let (db', e, l) = process-marks id c c cu d env db known found in
      (
        db',
        ground (arith, due, e),
        record {
          moved =
              ap (lookup id) l.contracts
              ∙ lookup-modify_self id (marked env.now d) db.contracts c found
              ∙ ap (λ x. some x) (sym (daily-due env.now d c runs due));
          others = λ k ne.
              ap (lookup k) l.contracts ∙ lookup-modify_ne k id (marked env.now d) db.contracts ne;
          customers = l.customers;
        },
      )
]

-- Every contract's customer is on file.
abbrev pub HaveCustomers : Db → Dict AmcContract → Type 0
HaveCustomers db = All λ r. (cu : Customer) × (lookup r.1.customer_id db.customers ≡ some cu)

-- Each contract of `rows` is what a day makes of it.
abbrev pub AreMoved : ℕ → Db → Dict AmcContract → Type 0
AreMoved now db = All λ r. lookup r.0 db.contracts ≡ some (daily now r.1)

found_after :
    (id : ℕ) (new : AmcContract) (db db' : Db) (rows : Dict AmcContract)
    → Moves id new db db'
    → IsAbsent id rows
    → AreFound db.contracts rows
    → AreFound db'.contracts rows
found_after id new db db' [] m absent found = tt
found_after id new db db' (r ∷ rows) m (ne, absent) (f, found) =
    (m.others r.0 (λ e. ne (sym e)) ∙ f, found_after id new db db' rows m absent found)

loop-AreMoved :
    (env : Env) (rows : Dict AmcContract) (db : Db)
    → HasDistinctKeys rows
    → AreFound db.contracts rows
    → HaveCustomers db rows
    → (db' : Db) × (for_each (running rows) check_contract env db ≡ (ok tt, db'))
      × AreMoved env.now db' rows
      × ((k : ℕ) → IsAbsent k rows → lookup k db'.contracts ≡ lookup k db.contracts)
unfolding for_each
loop-AreMoved env [] db keys found known = (db, refl, tt, λ k absent. refl)
loop-AreMoved env ((id, c) ∷ rows) db (absent, keys) (f, found) ((cu, cf), known) =
    elim (Bool-cases (is_running c)) [
      | inr ended ↦
          let (db', e, moved, rest) = loop-AreMoved env rows db keys found known in
          (
            db',
            rw ended e,
            (rest id absent ∙ f ∙ ap (λ x. some x) (sym (daily-ended env.now c ended)), moved),
            λ k (_, away). rest k away,
          )
      | inl runs ↦
          let (db1, e1, m) = check_contract-Moves id c cu env db runs cf f in
          let (db', e, moved, rest) =
            loop-AreMoved env rows db1 keys
              (found_after id (daily env.now c) db db1 rows m absent found)
              (subst
                (λ (x : Dict Customer).
                  All
                    (λ (r : ℕ × AmcContract).
                      (cu : Customer) × (lookup r.1.customer_id x ≡ some cu))
                    rows)
                (sym m.customers) known) in
          (
            db',
            rw runs (ap (after (λ _. for_each (running rows) check_contract) env) e1 ∙ e),
            (rest id absent ∙ m.moved, moved),
            λ k (ne, away). rest k away ∙ m.others k ne,
          )
    ]

-- A run of the cron moves every contract by a day: where somebody can be named for the trail, the keys of
-- the contracts are distinct and their customers are on file, it returns, and under each key there is
-- then what `daily` makes of the contract that was there, and nothing where there was none.
pub run_refines_daily :
    (env : Env) (db : Db) (actor : ℕ)
    → or_else env.partner_actor_user_id (first_admin db.users) ≡ some actor
    → HasDistinctKeys db.contracts
    → HaveCustomers db db.contracts
    → (db' : Db) × (run env db ≡ (ok tt, db'))
      × ((k : ℕ) → lookup k db'.contracts ≡ Option.map (daily env.now) (lookup k db.contracts))
unfolding run
run_refines_daily env db actor named keys known =
    let (db', e, moved, rest) =
      loop-AreMoved env db.contracts db keys (HasDistinctKeys-AreFound db.contracts keys) known in
    (
      db',
      rw named e,
      λ k. elim (Option-cases (lookup k db.contracts)) [
        | inl missing ↦
            rest k (lookup-IsAbsent k db.contracts missing)
            ∙ missing
            ∙ ap (Option.map (daily env.now)) (sym missing)
        | inr (c, found) ↦
            lookup-All (λ j v. lookup j db'.contracts ≡ some (daily env.now v)) k c db.contracts
              found moved
            ∙ ap (Option.map (daily env.now)) (sym found)
      ],
    )

-- LAPSED, or RENEWED and untouched
abbrev pub HasEnded : AmcContract → AmcContract → Type 0
HasEnded c c' =
    (c'.renewal_status ≡ Contracts.lapsed) ⊎ ((c.renewal_status ≡ Contracts.renewed) × (c' ≡ c))

ended_today : (now : ℕ) (c : AmcContract) → c.end_date ≤ now → HasEnded c (daily now c)
unfolding daily due_for marked is_running
ended_today now c past = ground (arith, past)

-- A contract that has ended does not stay in force: a run at or past its end, where somebody can be named
-- for the trail, the keys of the contracts are distinct and their customers are on file, returns and
-- leaves the contract LAPSED, or, where it was RENEWED, as it was.
pub ended_contract_lapses :
    (env : Env) (db : Db) (actor id : ℕ) (c : AmcContract)
    → or_else env.partner_actor_user_id (first_admin db.users) ≡ some actor
    → HasDistinctKeys db.contracts
    → HaveCustomers db db.contracts
    → lookup id db.contracts ≡ some c
    → c.end_date ≤ env.now
    → (db' : Db) × (c' : AmcContract) × (run env db ≡ (ok tt, db'))
      × (lookup id db'.contracts ≡ some c')
      × HasEnded c c'
ended_contract_lapses env db actor id c named keys known found past =
    let (db', e, moved) = run_refines_daily env db actor named keys known in
    (
      db',
      daily env.now c,
      e,
      moved id ∙ ap (Option.map (daily env.now)) found,
      ended_today env.now c past,
    )
