-- ===== src/Tickets/Creation/Outcomes.antt =====
-- What `create` of backend/src/ticketing/tickets/tickets.service.ts does for a blocked customer and for a
-- report that repeats a ticket.
use mathlib.Core.Option
use proman_edge_ace.Prelude.{
  ℕ, ◌+◌, ◌*◌, ◌≤◌, ◌↔◌, ◌≡◌, ◌≢◌, ◌⊎◌, String, true, false, Option, none, some, arith,
}
use proman_edge_ace.Prelude.Dict.{Dict, lookup}
use proman_edge_ace.Domain.Ticketing.{api_partner, source_eq, closed, ticket_status_eq}
use proman_edge_ace.Domain.People.{manager, role_eq}
use proman_edge_ace.Schema.{Db, Ticket, Customer, User, Equipment}
use proman_edge_ace.Domain.Masters.{decommissioned, sold, inactive, blacklisted, account_status_eq}
use proman_edge_ace.SlaPolicy.{resolve}
use proman_edge_ace.Store.{append_audit}
use proman_edge_ace.Env.{Env}
use proman_edge_ace.Action.{ok, err, forbidden}
use proman_edge_ace.Notifications.Failsafe.{Quiet, Keeps, Quiet-bind, Quiet-gets, Quiet-for_each}
use proman_edge_ace.Tickets.Labels.{RequestUser}
use proman_edge_ace.Tickets.Routing.{managers_for_region}
use proman_edge_ace.Tickets.Announce.Silence.{email_and_push-Quiet}
use proman_edge_ace.Tickets.Creation.Duplicates.{
  IsLatest, IsLatest-weaken, latest_where-finds, latest_where-IsLatest,
}
use proman_edge_ace.Prelude.Members.{In}
use proman_edge_ace.Tickets.Creation.{
  CreateTicketDto, create, is_blocked, is_valid_blacklist_override, refuse_blocked,
  usable_equipment, plan_ticket, merge_target, merge_duplicate, duplicate_candidate, is_duplicate,
  latest_where, system_note, merge_text, refusal, warn_managers, blocked_vars,
}

warn_managers-Quiet :
    (customer : Customer) (actor : RequestUser) → Quiet (warn_managers customer actor)
unfolding warn_managers
warn_managers-Quiet customer actor =
    Quiet-bind {A = Option String}
      (Quiet-gets (λ db. Option.map (λ u. u.full_name) (lookup actor.user_id db.users)))
      λ attempted_by.
        Quiet-bind {A = Dict User} (Quiet-gets (λ db. managers_for_region customer.region db))
          λ managers.
            Quiet-for_each managers
              (λ m. email_and_push-Quiet "CUST-BLOCKED" (blocked_vars customer attempted_by) none m)

create-blocked :
    (dto : CreateTicketDto) (actor : RequestUser) (env : Env) (db db' : Db) (c : Customer)
    → lookup dto.customer_id db.customers ≡ some c
    → is_blocked c ≡ true
    → is_valid_blacklist_override dto actor ≡ false
    → warn_managers c actor env db ≡ (ok tt, db')
    → create dto actor env db ≡ (err (forbidden (refusal c)), db')
unfolding create refuse_blocked
create-blocked dto actor env db db' c found blocked plain warned = ground arith

override-false :
    (dto : CreateTicketDto) (actor : RequestUser)
    → ((actor.role ≢ manager) ⊎ (dto.override_blacklist_approval ≡ false))
    → is_valid_blacklist_override dto actor ≡ false
unfolding is_valid_blacklist_override
override-false dto actor h = ground arith

-- An account that is inactive or blacklisted
abbrev pub IsBarred : Customer → Type 0
IsBarred c = (c.account_status ≡ inactive) ⊎ (c.account_status ≡ blacklisted)

blocked_iff : (c : Customer) → (is_blocked c ≡ true) ↔ IsBarred c
unfolding is_blocked
blocked_iff c = (λ h. ground (arith, h), λ h. ground (arith, h))

-- Nobody creates a ticket for a customer who is inactive or blacklisted, unless a manager asks for it with
-- the override: the request is refused, and nothing has changed but for new entries at the end of the two
-- logs and deleted push tokens.
pub blocked_customer_is_refused :
    (dto : CreateTicketDto) (actor : RequestUser) (env : Env) (db : Db) (c : Customer)
    → lookup dto.customer_id db.customers ≡ some c
    → IsBarred c
    → ((actor.role ≢ manager) ⊎ (dto.override_blacklist_approval ≡ false))
    → (db' : Db) × (create dto actor env db ≡ (err (forbidden (refusal c)), db')) × Keeps db db'
blocked_customer_is_refused dto actor env db c found blocked plain =
    let (a, db', e, k) = (warn_managers-Quiet c actor).run env db in
    (
      db',
      create-blocked dto actor env db db' c found ((blocked_iff c).1 blocked)
          (override-false dto actor plain) e,
      k,
    )

-- What the guards of `create` ask of a request whose customer and equipment are given.
pub record PassesGuards (dto : CreateTicketDto) (actor : RequestUser) (db : Db) : Type 0 where
  pub customer : Customer
  pub customer_found : lookup dto.customer_id db.customers ≡ some customer
  pub admitted : ¬ IsBarred customer
  pub equipment_id : ℕ
  pub equipment_given : dto.equipment_id ≡ some equipment_id
  pub equipment : Equipment
  pub equipment_found : lookup equipment_id db.equipment ≡ some equipment
  pub in_use : (equipment.status ≢ decommissioned) × (equipment.status ≢ sold)
  pub no_service_type : dto.service_type ≡ none

merge_planned :
    (dto : CreateTicketDto) (actor : RequestUser) (env : Env) (db : Db)
    (g : PassesGuards dto actor db) (id : ℕ) (t : Ticket)
    → dto.source ≡ api_partner
    → duplicate_candidate env.now dto db ≡ some (id, t)
    → create dto actor env db
      ≡ (ok t, append_audit (system_note id "duplicate_merge" (merge_text dto) actor.user_id) db)
unfolding create usable_equipment plan_ticket merge_target merge_duplicate resolve is_blocked
merge_planned dto actor env db g id t s d = ground (
  arith, g.customer_found, g.admitted, g.equipment_given, g.equipment_found, g.in_use,
  g.no_service_type,
)

-- A ticket that is not closed, of the same customer and machine and from the last 24 hours.
pub record IsRepeat (now : ℕ) (dto : CreateTicketDto) (equipment_id : ℕ) (t : Ticket) : Type 0 where
  pub same_customer : t.customer_id ≡ dto.customer_id
  pub same_machine : t.equipment_id ≡ some equipment_id
  pub not_closed : t.status ≢ closed
  pub recent : now ≤ t.created_at + 24 * 3600000

duplicate_iff :
    (now : ℕ) (dto : CreateTicketDto) (equipment_id : ℕ) (t : Ticket)
    → (is_duplicate now dto equipment_id t ≡ true) ↔ IsRepeat now dto equipment_id t
unfolding is_duplicate
duplicate_iff now dto equipment_id t = (
  λ h. record {
    same_customer = ground (arith, h);
    same_machine = ground (arith, h);
    not_closed = λ e. ground (arith, h, e);
    recent = ground (arith, h);
  },
  λ r. ground (arith, r.same_customer, r.same_machine, r.not_closed, r.recent),
)

candidate-found :
    (dto : CreateTicketDto) (now : ℕ) (db : Db) (equipment_id : ℕ) (r : ℕ × Ticket)
    → dto.equipment_id ≡ some equipment_id
    → latest_where (is_duplicate now dto equipment_id) db.tickets ≡ some r
    → duplicate_candidate now dto db ≡ some r
unfolding duplicate_candidate
candidate-found dto now db equipment_id r given found = ground (arith, given, found)

-- A partner's report without a service type, for a customer who is neither inactive nor blacklisted and on
-- equipment in use that has a ticket of the same customer, not closed and from the last 24 hours, makes
-- no ticket: the call returns the latest of these tickets, of equals the first, and the database
-- only has one more entry of the audit log, a note on it.
pub repeated_report_is_merged :
    (dto : CreateTicketDto) (actor : RequestUser) (env : Env) (db : Db)
    (g : PassesGuards dto actor db) (s : ℕ × Ticket)
    → dto.source ≡ api_partner
    → In s db.tickets
    → IsRepeat env.now dto g.equipment_id s.1
    → (id : ℕ) × (t : Ticket) × IsLatest (IsRepeat env.now dto g.equipment_id) db.tickets (id, t)
      × (create dto actor env db ≡ (
        ok t,
        append_audit (system_note id "duplicate_merge" (merge_text dto) actor.user_id) db,
      ))
repeated_report_is_merged dto actor env db g s partner i repeats =
    let test = is_duplicate env.now dto g.equipment_id in
    let (r, found) =
      latest_where-finds test db.tickets s i
        ((duplicate_iff env.now dto g.equipment_id s.1).1 repeats) in
    (
      r.0,
      r.1,
      IsLatest-weaken (λ t. test t ≡ true) (IsRepeat env.now dto g.equipment_id) db.tickets r
          (duplicate_iff env.now dto g.equipment_id)
          (latest_where-IsLatest test db.tickets r found),
      merge_planned dto actor env db g r.0 r.1 partner
          (candidate-found dto env.now db g.equipment_id r g.equipment_given found),
    )
