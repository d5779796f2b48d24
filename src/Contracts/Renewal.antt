-- ===== src/Contracts/Renewal.antt =====
-- The cron of backend/src/ticketing/amc/amc-renewal.cron.ts: the alerts 30, 15 and 7 days before a contract
-- ends, and its lapse.
use mathlib.Core.List.{◌++◌ as append}
use proman_edge_ace.Prelude.{
  ℕ, ◌+◌, ◌*◌, String, Bool, not, ◌&&◌, ◌||◌, Option, none, some, List, [], ◌∷◌, if◌then◌else◌,
  keep, leb, ◌==◌, nat_eq, is_some, or_else,
}
use proman_edge_ace.Prelude.Dict.{Dict}
use proman_edge_ace.Domain.People.{admin, role_eq, Region}
use proman_edge_ace.Domain.Logs.{NotifChannel}
use proman_edge_ace.Domain.Contracts
use proman_edge_ace.Domain.Contracts.{renewal_status_eq}
use proman_edge_ace.Schema.{Db, AmcContract, User, Customer}
use proman_edge_ace.Env.{Env}
use proman_edge_ace.Action.{
  Action, ◌>>=◌, ◌>>◌, pure, ask, gets, or_throw, attempt, with_some, for_each, plain,
}
use proman_edge_ace.Store.{find_customer}
use proman_edge_ace.Store.Tables.{contract_table, update_row}
use proman_edge_ace.Notifications.{Vars, fire_notification, first_admin}
use proman_edge_ace.Tickets.Announce.{related}
use proman_edge_ace.Tickets.Routing.{managers_for_region}

abbrev pub day : ℕ
day = 86400000

-- What is due for a contract.
pub data Due : Type 0 where
  lapse alert7 alert15 alert30 : Due

-- The branches of the loop's body, in their order.
unfoldable pub due_for : ℕ → AmcContract → Option Due
due_for now c =
    if leb c.end_date now
    then some lapse
    else if leb c.end_date (now + 7 * day) && not (is_some c.renewal_alert7_sent_at)
    then some alert7
    else if leb c.end_date (now + 15 * day) && not (is_some c.renewal_alert15_sent_at)
    then some alert15
    else if leb c.end_date (now + 30 * day) && not (is_some c.renewal_alert30_sent_at)
    then some alert30
    else none

unfoldable pub marked : ℕ → Due → AmcContract → AmcContract
marked now lapse c = record c { renewal_status = Contracts.lapsed }
marked now alert7 c = record c { renewal_alert7_sent_at = some now }
marked now alert15 c = record c {
  renewal_alert15_sent_at = some now;
  renewal_status = Contracts.final_notice;
}
marked now alert30 c = record c {
  renewal_alert30_sent_at = some now;
  renewal_status = Contracts.renewal_due;
}

abbrev pub vars_of : Env → Customer → AmcContract → Vars
vars_of env customer c =
    ("customer_name", customer.customer_name)
    ∷ ("contract_ref", c.contract_reference_no)
    ∷ ("contract_value", c.contract_value)
    ∷ ("end_date", env.iso_date c.end_date)
    ∷ []

abbrev pub owner_of : Option (ℕ × User) → List (ℕ × User)
owner_of none = []
owner_of (some u) = u ∷ []

unfoldable pub alert_user : String → Vars → ℕ × User → Action (Unit {0})
alert_user trigger vars (id, u) = do
  fire_notification trigger NotifChannel.email u.email vars none none
  fire_notification trigger NotifChannel.push u.email vars none (some id)

-- N-18, N-19, N-20
unfoldable pub fire_renewal_alert :
    String → Option (ℕ × User) → Option Region → Vars → Action (Unit {0})
fire_renewal_alert trigger owner region vars = do
  managers ← gets (managers_for_region region)
  for_each (append (owner_of owner) managers) (alert_user trigger vars)

unfoldable pub tell_lapsed : Vars → ℕ × User → Action (Unit {0})
tell_lapsed vars (id, u) = fire_notification "N-21" NotifChannel.email u.email vars none none

unfoldable pub admins : Db → List (ℕ × User)
admins db = keep (λ (u : ℕ × User). u.1.role == admin && u.1.is_active) db.users

-- N-21
unfoldable pub fire_lapsed : Vars → Option Region → Action (Unit {0})
fire_lapsed vars region = do
  managers ← gets (managers_for_region region)
  all_admins ← gets admins
  for_each (append managers all_admins) (tell_lapsed vars)

unfoldable pub announce : Due → Option (ℕ × User) → Option Region → Vars → Action (Unit {0})
announce lapse owner region vars = fire_lapsed vars region
announce alert7 owner region vars = fire_renewal_alert "N-20" owner region vars
announce alert15 owner region vars = fire_renewal_alert "N-19" owner region vars
announce alert30 owner region vars = fire_renewal_alert "N-18" owner region vars

unfoldable pub process : ℕ × AmcContract → Due → Action (Unit {0})
process (id, c) due = do
  env ← ask (λ env. env)
  customer ← find_customer c.customer_id
  owner ← gets (λ db. related c.owning_asm_id db.users)
  announce due owner customer.region (vars_of env customer c)
  update_row contract_table id (marked env.now due)
  pure tt

-- The `try` of one contract.
unfoldable pub check_contract : ℕ × AmcContract → Action (Unit {0})
check_contract r = do
  now ← ask (λ env. env.now)
  attempt (with_some (due_for now r.1) (process r))
  pure tt

-- The query of `runInner`.
unfoldable pub is_running : AmcContract → Bool
is_running c = not (c.renewal_status == Contracts.lapsed || c.renewal_status == Contracts.renewed)

abbrev pub running : Dict AmcContract → Dict AmcContract
running = keep λ (r : ℕ × AmcContract). is_running r.1

unfoldable pub run : Action (Unit {0})
run = do
  named ← ask (λ env. env.partner_actor_user_id)
  first ← gets (λ db. first_admin db.users)
  or_throw (or_else named first) (
      plain
        "No PARTNER_ACTOR_USER_ID configured and no ADMIN user exists to attribute AMC renewal audit log entries to")
  contracts ← gets (λ db. running db.contracts)
  for_each contracts check_contract
