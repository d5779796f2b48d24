-- ===== src/Tickets/Creation/Checks.antt =====
-- The request for a ticket, and the first half of `create` of
-- backend/src/ticketing/tickets/tickets.service.ts: its guards, duplicates and due dates.
use Prim.Native.String.{◌++◌}
use mathlib.Core.Option
use proman_edge_ace.Prelude.{
  ℕ, ◌+◌, String, Bool, false, not, ◌&&◌, ◌||◌, Option, none, some, List, [], ◌∷◌, if◌then◌else◌,
  ◌==◌, nat_eq, string_eq, get_or, is_just, leb, ltb, find,
}
use proman_edge_ace.Prelude.Dict.{Dict, lookup}
use proman_edge_ace.Domain.Ticketing.{closed, ticket_status_eq, Priority, Source, source_eq}
use proman_edge_ace.Domain.People.{manager, role_eq}
use proman_edge_ace.Domain.Masters.{
  CustomerCategory, inactive, blacklisted, account_status_eq, decommissioned, sold, equip_status_eq,
  warranty_status_eq,
}
use proman_edge_ace.Schema.{Db, Ticket, Customer, Equipment, SlaPolicy}
use proman_edge_ace.Env.{Env}
use proman_edge_ace.Action.{
  Action, ◌>>=◌, ◌>>◌, pure, gets, throw_if, for_each, bad_request, forbidden, throw,
}
use proman_edge_ace.Store.{find_equipment}
use proman_edge_ace.BusinessHours.{business_due}
use proman_edge_ace.Notifications.{Vars}
use proman_edge_ace.Tickets.Labels.{RequestUser, dedup_window}
use proman_edge_ace.Tickets.Routing.{managers_for_region}
use proman_edge_ace.Tickets.Announce.{email_and_push}

-- `CreateTicketDto`
pub record CreateTicketDto : Type 0 where
  pub source : Source
  pub service_type : Option String
  pub priority : Option Priority
  pub customer_category : Option CustomerCategory
  pub subject : Option String
  pub description : String
  pub customer_id : ℕ
  pub equipment_id : Option ℕ
  pub sla_target_date : Option String
  pub override_blacklist_approval : Bool
  pub override_reason : Option String

unfoldable pub is_valid_blacklist_override : CreateTicketDto → RequestUser → Bool
is_valid_blacklist_override dto actor = actor.role == manager && dto.override_blacklist_approval

unfoldable pub is_blocked : Customer → Bool
is_blocked c = c.account_status == inactive || c.account_status == blacklisted

-- `ServiceTypeConfigService.isValidActiveCode`
unfoldable pub is_valid_active_code : String → List (String × Bool) → Bool
is_valid_active_code code rows =
    get_or (Option.map (λ r. r.1) (find (λ (r : String × Bool). r.0 == code) rows)) false

abbrev pub blocked_vars : Customer → Option String → Vars
blocked_vars customer attempted_by =
    ("customer_name", customer.customer_name)
    ∷ (
      "account_status",
      if customer.account_status == blacklisted then "Blacklisted" else "Inactive",
    )
    ∷ ("attempted_by", get_or attempted_by "A Call Center/ASM user")
    ∷ []

unfoldable pub warn_managers : Customer → RequestUser → Action (Unit {0})
warn_managers customer actor = do
  attempted_by ← gets (λ db. Option.map (λ u. u.full_name) (lookup actor.user_id db.users))
  managers ← gets (λ db. managers_for_region customer.region db)
  for_each managers (email_and_push "CUST-BLOCKED" (blocked_vars customer attempted_by) none)

abbrev pub refusal : Customer → String
refusal customer =
    "Customer account is "
    ++ (if customer.account_status == blacklisted then "blacklisted" else "inactive")
    ++ ". A Manager has been notified and can create this ticket directly by explicitly approving the override."

-- The managers of the region hear of the attempt, and the request is refused.
unfoldable pub refuse_blocked : Customer → RequestUser → Action (Unit {0})
refuse_blocked customer actor = do
  warn_managers customer actor
  throw (forbidden (refusal customer))

-- The request's equipment, which must be in use.
unfoldable pub usable_equipment : Option ℕ → Action (Option Equipment)
usable_equipment none = pure none
usable_equipment (some id) = do
  e ← find_equipment id
  throw_if (e.status == decommissioned || e.status == sold) (
      bad_request (
        "Equipment " ++ e.serial_no
        ++ " is decommissioned. Please contact the system administrator to update the equipment record."))
  pure (some e)

-- A ticket of the same customer and equipment, of the last 24 hours and not closed.
unfoldable pub is_duplicate : ℕ → CreateTicketDto → ℕ → Ticket → Bool
is_duplicate now dto equipment_id t =
    t.customer_id == dto.customer_id
    && is_just t.equipment_id equipment_id
    && not (t.status == closed)
    && leb now (t.created_at + dedup_window)

unfoldable pub later : ℕ × Ticket → Option (ℕ × Ticket) → ℕ × Ticket
later r none = r
later r (some s) = if ltb r.1.created_at s.1.created_at then s else r

-- The latest of them, of equals the first.
unfoldable pub latest_where : (Ticket → Bool) → Dict Ticket → Option (ℕ × Ticket)
unfolding later
latest_where p [] = none
latest_where p (r ∷ rows) =
    let rest = latest_where p rows in if p r.1 then some (later r rest) else rest

unfoldable pub duplicate_candidate : ℕ → CreateTicketDto → Db → Option (ℕ × Ticket)
unfolding latest_where is_duplicate
duplicate_candidate now dto db = elim dto.equipment_id [
  | none ↦ none
  | some equipment_id ↦ latest_where (is_duplicate now dto equipment_id) db.tickets
]

-- `hours != null ? addBusinessHours(now, hours, holidayDates) : null`
unfoldable pub due_after : Env → List ℕ → Option ℕ → Option ℕ
due_after env holidays none = none
due_after env holidays (some hours) = business_due env.utc_offset holidays env.now hours

abbrev pub hours_of : (SlaPolicy → Option ℕ) → Option (ℕ × SlaPolicy) → Option ℕ
hours_of f none = none
hours_of f (some (_, p)) = f p
