-- ===== src/Tickets/Intake.antt =====
-- Tickets that no person enters one by one: `bulkImport`, `resolveExternalRefs` and the
-- `createFrom…` operations of backend/src/ticketing/tickets/tickets.service.ts. The file is parsed by a
-- library (`csv-parse`), so an import starts with the parser's answer.
pub mod Reports
use Prim.Native.String.{◌++◌}
use mathlib.Core.Option
use proman_edge_ace.Prelude.{
  ℕ, ◌+◌, suc, String, Bool, true, false, not, ◌&&◌, Option, none, some, List, [], ◌∷◌,
  if◌then◌else◌, ◌==◌, string_eq, get_or, or_else, is_some, is_just, find, keep, length, ◌⊎◌, inl,
  inr,
}
use proman_edge_ace.Prelude.Dict.{Dict}
use proman_edge_ace.Prelude.Text.{trim, is_blank, non_empty, show}
use proman_edge_ace.Domain.Ticketing.{
  Source, customer_call, customer_whatsapp, customer_portal, customer_email, amc_scheduled,
  warranty_triggered, predictive, internal, bulk_import, api_partner, source_name, Priority,
  critical, high, medium, low, priority_name,
}
use proman_edge_ace.Domain.People.{admin}
use proman_edge_ace.Domain.Masters
use proman_edge_ace.Schema.{Db, Ticket, Customer, Equipment}
use proman_edge_ace.Env.{Env}
use proman_edge_ace.Action.{
  Action, ◌>>=◌, ◌>>◌, pure, ask, gets, throw, throw_if, throw_some, first_error, or_throw, attempt,
  Result, ok, err, Error, plain, bad_request,
}
use proman_edge_ace.Workflow.{given}
use proman_edge_ace.Notifications.{first_admin}
use proman_edge_ace.Tickets.Labels.{RequestUser}
use proman_edge_ace.Tickets.Creation.{CreateTicketDto, create, is_valid_active_code}

-- `Object.values(Source)` and `Object.values(Priority)`, as the values that a text names
unfoldable pub source_named : String → Option Source
source_named name =
    find (λ s. source_name s == name)
      (customer_call ∷ customer_whatsapp ∷ customer_portal ∷ customer_email ∷ amc_scheduled
        ∷ warranty_triggered ∷ predictive ∷ internal ∷ bulk_import ∷ api_partner ∷ [])

unfoldable pub priority_named : String → Option Priority
priority_named name = find (λ p. priority_name p == name) (critical ∷ high ∷ medium ∷ low ∷ [])

-- A row of the file, or a partner's report, which has no source. The identifiers are trimmed, and one
-- that is blank is missing.
pub record Row : Type 0 where
  pub source : Option String
  pub description : Option String
  pub customer_id : Option ℕ
  pub customer_erp_id : Option String
  pub equipment_id : Option ℕ
  pub equipment_serial_no : Option String
  pub service_type : Option String
  pub priority : Option String
  pub subject : Option String

-- `xs.findFirst(p)` on a table, as the key
key_where : {A : Type 0} → (A → Bool) → Dict A → Option ℕ
key_where p [] = none
key_where p ((id, a) ∷ rows) = if p a then some id else key_where p rows

trimmed : Option String → Option String
trimmed s = given (Option.map trim s)

resolve_customer : Row → Action ℕ
unfolding trimmed key_where
resolve_customer row = elim row.customer_id [
  | some id ↦ pure id
  | none ↦ elim (trimmed row.customer_erp_id) [
    | none ↦ throw (plain "Missing \"customerId\" or \"customerErpId\"")
    | some erp ↦ do
      found ←
          gets (λ db. key_where (λ (c : Customer). is_just c.erpnext_customer_id erp) db.customers)
      or_throw found (
          plain (
            "No customer found with erpnextCustomerId \"" ++ get_or row.customer_erp_id "" ++ "\""))
  ]
]

resolve_equipment : Row → Action (Option ℕ)
unfolding trimmed key_where
resolve_equipment row = elim row.equipment_id [
  | some id ↦ pure (some id)
  | none ↦ elim (trimmed row.equipment_serial_no) [
    | none ↦ pure none
    | some serial ↦ do
      found ← gets (λ db. key_where (λ (e : Equipment). e.serial_no == serial) db.equipment)
      id ← or_throw found (
          plain
            ("No equipment found with serialNo \"" ++ get_or row.equipment_serial_no "" ++ "\""))
      pure (some id)
  ]
]

unfoldable pub resolve_external_refs : Row → Action (ℕ × Option ℕ)
unfolding resolve_customer resolve_equipment
resolve_external_refs row = do
  customer ← resolve_customer row
  equipment ← resolve_equipment row
  pure (customer, equipment)

abbrev dto_of : Source → Row → ℕ → Option ℕ → CreateTicketDto
dto_of source row customer equipment = record {
  source = source;
  service_type = given row.service_type;
  priority = Option.bind (given row.priority) priority_named;
  customer_category = none;
  subject = trimmed row.subject;
  description = trim (get_or row.description "");
  customer_id = customer;
  equipment_id = equipment;
  sla_target_date = none;
  override_blacklist_approval = false;
  override_reason = none;
}

abbrev is_unknown_code : List (String × Bool) → Option String → Bool
is_unknown_code codes none = false
is_unknown_code codes (some code) = not (is_valid_active_code code codes)

abbrev is_unknown_priority : Option String → Bool
is_unknown_priority none = false
is_unknown_priority (some p) = not (is_some (priority_named p))

-- The `try` of one row.
unfoldable pub import_row : Row → RequestUser → Action String
unfolding trimmed
import_row row actor = do
  codes ← gets (λ db. db.service_types)
  source ←
      or_throw (Option.bind (given row.source) source_named)
        (plain ("Invalid or missing \"source\" (got \"" ++ get_or row.source "" ++ "\")"))
  throw_some (
      first_error (
        (not (is_some (trimmed row.description)), plain "Missing \"description\"")
        ∷ (
          is_unknown_code codes (given row.service_type),
          plain ("Invalid \"serviceType\" (got \"" ++ get_or row.service_type "" ++ "\")"),
        )
        ∷ (
          is_unknown_priority (given row.priority),
          plain ("Invalid \"priority\" (got \"" ++ get_or row.priority "" ++ "\")"),
        )
        ∷ []))
  refs ← resolve_external_refs row
  ticket ← create (dto_of source row refs.0 refs.1) actor
  pure ticket.ticket_no

-- A line of the file with its ticket's number or its exception.
pub record ImportResult : Type 0 where
  pub row : ℕ
  pub outcome : Result String

pub record ImportReport : Type 0 where
  pub total : ℕ
  pub succeeded : ℕ
  pub failed : ℕ
  pub results : List ImportResult

unfoldable pub import_rows : ℕ → List Row → RequestUser → Action (List ImportResult)
import_rows n [] actor = pure []
import_rows n (row ∷ rows) actor = do
  outcome ← attempt (import_row row actor)
  rest ← import_rows (suc n) rows actor
  pure (record { row = n; outcome = outcome } ∷ rest)

abbrev pub is_ok : ImportResult → Bool
is_ok r = elim r.outcome [ ok _ ↦ true | err _ ↦ false ]

unfoldable pub bulk_import_rows : String ⊎ List Row → RequestUser → Action ImportReport
bulk_import_rows (inl message) actor = throw (bad_request ("Could not parse CSV: " ++ message))
bulk_import_rows (inr []) actor = throw (bad_request "CSV has no data rows")
bulk_import_rows (inr (row ∷ rows)) actor = do
  results ← import_rows 2 (row ∷ rows) actor
  pure (record {
    total = length (row ∷ rows);
    succeeded = length (keep is_ok results);
    failed = length (keep (λ r. not (is_ok r)) results);
    results = results;
  })

-- `PARTNER_ACTOR_USER_ID`, or else the first administrator
unfoldable pub attributed_user : Action ℕ
attributed_user = do
  named ← ask (λ env. env.partner_actor_user_id)
  first ← gets (λ db. first_admin db.users)
  or_throw (or_else named first) (
      bad_request
        "No PARTNER_ACTOR_USER_ID configured and no ADMIN user exists to attribute this ticket to")

-- `create` by nobody who is logged in
abbrev pub create_as_system : CreateTicketDto → Action Ticket
create_as_system dto = do
  user ← attributed_user
  create dto (record { user_id = user; role = admin })

-- `catch (err) { throw new BadRequestException(err.message) }`, for the exceptions of `resolveExternalRefs`
abbrev as_bad_request : {A : Type 0} → Result A → Action A
as_bad_request (ok a) = pure a
as_bad_request (err (plain message)) = throw (bad_request message)
as_bad_request (err e) = throw e

unfoldable pub create_from_partner : Row → Action Ticket
unfolding trimmed
create_from_partner row = do
  codes ← gets (λ db. db.service_types)
  throw_some (
      first_error (
        (not (is_some (trimmed row.description)), bad_request "Missing \"description\"")
        ∷ (
          is_unknown_code codes (given row.service_type),
          bad_request ("Invalid \"serviceType\" (got \"" ++ get_or row.service_type "" ++ "\")"),
        )
        ∷ (
          is_unknown_priority (given row.priority),
          bad_request ("Invalid \"priority\" (got \"" ++ get_or row.priority "" ++ "\")"),
        )
        ∷ []))
  resolved ← attempt (resolve_external_refs row)
  refs ← as_bad_request resolved
  create_as_system (dto_of api_partner row refs.0 refs.1)

-- The request of a scheduler, with its own columns still empty.
abbrev scheduled_dto : Source → String → ℕ → ℕ → String → CreateTicketDto
scheduled_dto source service_type customer_id equipment_id description = record {
  source = source;
  service_type = some service_type;
  priority = none;
  customer_category = none;
  subject = none;
  description = description;
  customer_id = customer_id;
  equipment_id = some equipment_id;
  sla_target_date = none;
  override_blacklist_approval = false;
  override_reason = none;
}

unfoldable pub create_from_amc_schedule : ℕ → ℕ → ℕ → String → ℕ → Action Ticket
create_from_amc_schedule customer_id equipment_id visit_seq_no reference_no planned_date = do
  iso ← ask (λ env. env.iso_string planned_date)
  create_as_system
      (record (scheduled_dto amc_scheduled "SCHEDULED_PM" customer_id equipment_id
        ("Scheduled AMC visit #" ++ show visit_seq_no ++ " for contract " ++ reference_no)) {
          customer_category = some Masters.amc;
          sla_target_date = some iso;
        })

unfoldable pub create_from_warranty_outreach : ℕ → ℕ → String → ℕ → Action Ticket
create_from_warranty_outreach customer_id equipment_id serial_no warranty_end_date = do
  date ← ask (λ env. env.iso_date warranty_end_date)
  create_as_system
      (record (scheduled_dto warranty_triggered "WARRANTY_RENEWAL_OUTREACH" customer_id equipment_id
        ("Warranty expiry outreach: " ++ serial_no ++ " warranty expires " ++ date
          ++ ". No AMC in place — contact customer for AMC proposal.")) { priority = some low })

unfoldable pub create_from_warranty_pm_schedule : ℕ → ℕ → String → ℕ → ℕ → Action Ticket
create_from_warranty_pm_schedule customer_id equipment_id serial_no visit_seq_no planned_date = do
  iso ← ask (λ env. env.iso_string planned_date)
  create_as_system
      (record (scheduled_dto warranty_triggered "SCHEDULED_PM" customer_id equipment_id (
        "Scheduled warranty-period PM visit #"
        ++ show visit_seq_no
        ++ " for "
        ++ serial_no
        ++ ".")) { sla_target_date = some iso })

unfoldable pub create_from_predictive_trigger :
    ℕ → ℕ → String → String → Priority → String → Action Ticket
create_from_predictive_trigger customer_id equipment_id serial_no service_type priority reason =
    create_as_system
      (record (scheduled_dto predictive service_type customer_id equipment_id
        ("Predictive maintenance alert for " ++ serial_no ++ ": " ++ reason)) {
          priority = some priority;
        })
