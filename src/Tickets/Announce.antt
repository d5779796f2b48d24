-- ===== src/Tickets/Announce.antt =====
-- What a new ticket tells people: `fireTicketCreatedNotifications` of
-- backend/src/ticketing/tickets/tickets.service.ts.
pub mod Silence
use mathlib.Core.Option
use proman_edge_ace.Prelude.{
  ℕ, String, Bool, true, false, not, ◌&&◌, ◌||◌, Option, none, some, List, [], ◌∷◌, ◌++◌, map,
  if◌then◌else◌, ◌==◌, string_eq, get_or, is_just,
}
use proman_edge_ace.Prelude.Dict.{Dict, lookup}
use proman_edge_ace.Prelude.Text.{is_blank}
use proman_edge_ace.Domain.Ticketing.{Source, predictive, source_eq, priority_name}
use proman_edge_ace.Domain.Logs.{NotifChannel, notif_channel_eq}
use proman_edge_ace.Schema.{Db, User, Ticket, Customer, Equipment}
use proman_edge_ace.Env.{Env}
use proman_edge_ace.Action.{Action, ◌>>=◌, ◌>>◌, pure, ask, gets, run_if, with_some, for_each}
use proman_edge_ace.Store.{find_ticket, find_customer}
use proman_edge_ace.Notifications.{Vars, Rendered, render, send, fire_notification}
use proman_edge_ace.Tickets.Routing.{managers_for_region}

-- A row with its key, found by a foreign key that may be null.
abbrev pub related : {A : Type 0} → Option ℕ → Dict A → Option (ℕ × A)
related none rows = none
related (some id) rows = Option.map (λ a. (id, a)) (lookup id rows)

-- `fireNotification` by e-mail or WhatsApp where the contact is on file.
abbrev pub notify_if_known : String → NotifChannel → String → Vars → ℕ → Action (Unit {0})
notify_if_known trigger channel contact vars id =
    run_if (not (is_blank contact)) (fire_notification trigger channel contact vars (some id) none)

-- `fireNotification` to a user's device.
abbrev pub push_to : String → Vars → Option ℕ → ℕ × User → Action (Unit {0})
push_to trigger vars ticket_id (id, u) =
    fire_notification trigger NotifChannel.push u.email vars ticket_id (some id)

abbrev pub email_to : String → Vars → Option ℕ → ℕ × User → Action (Unit {0})
email_to trigger vars ticket_id (id, u) =
    fire_notification trigger NotifChannel.email u.email vars ticket_id none

abbrev pub email_and_push : String → Vars → Option ℕ → ℕ × User → Action (Unit {0})
email_and_push trigger vars ticket_id r = do
  email_to trigger vars ticket_id r
  push_to trigger vars ticket_id r

-- A ticket's related rows, as the service's `include` reads them.
pub record Related : Type 0 where
  pub customer : Customer
  pub equipment : Option (ℕ × Equipment)
  pub site : Option (ℕ × String)
  pub assigned_asm : Option (ℕ × User)
  pub assigned_engineer : Option (ℕ × User)

unfoldable pub related_rows : Ticket → Action Related
related_rows t = do
  customer ← find_customer t.customer_id
  equipment ← gets (λ db. related t.equipment_id db.equipment)
  site ← gets (λ db. related t.site_id db.sites)
  assigned_asm ← gets (λ db. related t.assigned_asm_id db.users)
  assigned_engineer ← gets (λ db. related t.assigned_engineer_id db.users)
  pure (record {
    customer = customer;
    equipment = equipment;
    site = site;
    assigned_asm = assigned_asm;
    assigned_engineer = assigned_engineer;
  })

abbrev pub rows_of : Db → Ticket → Customer → Related
rows_of db t customer = record {
  customer = customer;
  equipment = related t.equipment_id db.equipment;
  site = related t.site_id db.sites;
  assigned_asm = related t.assigned_asm_id db.users;
  assigned_engineer = related t.assigned_engineer_id db.users;
}

abbrev pub item_name_of : Option (ℕ × Equipment) → String
item_name_of none = "N/A"
item_name_of (some (_, e)) = e.item_name

abbrev pub serial_no_of : Option (ℕ × Equipment) → String
serial_no_of none = "N/A"
serial_no_of (some (_, e)) = e.serial_no

abbrev warranty_end_of : Env → Option (ℕ × Equipment) → String
warranty_end_of env none = "N/A"
warranty_end_of env (some (_, e)) = env.iso_date e.warranty_end_date

-- `site?.siteName ?? customer.customerName`
abbrev pub site_name_of : Option (ℕ × String) → Customer → String
site_name_of none customer = customer.customer_name
site_name_of (some (_, name)) customer = name

abbrev created_vars : Ticket → Related → Vars
created_vars t r =
    ("ticket_no", t.ticket_no)
    ∷ ("equipment_model", item_name_of r.equipment)
    ∷ ("site_name", site_name_of r.site r.customer)
    ∷ ("service_type", get_or t.service_type "Unassigned")
    ∷ ("priority", priority_name t.priority)
    ∷ ("customer_name", r.customer.customer_name)
    ∷ []

-- A template and its message, whose name in the log is not the trigger's.
abbrev pub send_named :
    String → String → NotifChannel → Bool → String → Vars → ℕ → Option ℕ → Action (Unit {0})
send_named trigger name channel wanted recipient vars id user_id = do
  template ← render trigger channel vars
  with_some template λ (t : Rendered). run_if wanted (
      send (record {
        channel = channel;
        recipient = recipient;
        template_name = name;
        subject =
            if channel == NotifChannel.email || channel == NotifChannel.push
            then t.subject
            else none;
        body = t.body;
        ticket_id = some id;
        user_id = user_id;
      }))

-- N-23, for a sales lead
announce_outreach : ℕ → Ticket → Related → Action (Unit {0})
announce_outreach id t r = with_some r.assigned_asm λ asm. do
  env ← ask (λ env. env)
  email_and_push "N-23"
      (("equipment_serial", serial_no_of r.equipment)
        ∷ ("warranty_end_date", warranty_end_of env r.equipment)
        ∷ ("ticket_no", t.ticket_no)
        ∷ [])
      (some id) asm

-- N-22, for a prediction
announce_prediction : ℕ → Ticket → Related → Action (Unit {0})
announce_prediction id t r = do
  managers ← gets (λ db. managers_for_region r.customer.region db)
  for_each (elim r.assigned_asm [ none ↦ managers | some asm ↦ asm ∷ managers ])
      (email_and_push "N-22"
        (("rule_name", t.description)
          ∷ ("equipment_serial", serial_no_of r.equipment)
          ∷ ("equipment_model", item_name_of r.equipment)
          ∷ ("customer_name", r.customer.customer_name)
          ∷ ("ticket_no", t.ticket_no)
          ∷ [])
        (some id))

-- N-01 and N-02, for every other ticket
announce_request : ℕ → Ticket → Related → Action (Unit {0})
announce_request id t r = do
  send_named "N-01" "N-01 Ticket created" NotifChannel.email (not (is_blank email)) email vars id
      none
  send_named "N-01" "N-01 Ticket created" NotifChannel.whatsapp (not (is_blank mobile)) mobile vars
      id none
  with_some r.assigned_asm λ (asm : ℕ × User). do
    send_named "N-02" "N-02 Ticket assigned to ASM" NotifChannel.email true asm.1.email vars id none
    send_named "N-02" "N-02 Ticket assigned to ASM" NotifChannel.push true asm.1.email vars id
        (some asm.0)
  where
    vars : Vars
    vars = created_vars t r

    email : String
    email = r.customer.primary_contact_email

    mobile : String
    mobile = r.customer.primary_contact_mobile

unfoldable pub fire_ticket_created_notifications : ℕ → Action (Unit {0})
unfolding related_rows announce_outreach announce_prediction announce_request
fire_ticket_created_notifications id = do
  t ← find_ticket id
  r ← related_rows t
  if is_just t.service_type "WARRANTY_RENEWAL_OUTREACH"
      then announce_outreach id t r
      else (if t.source == predictive then announce_prediction id t r else announce_request id t r)
