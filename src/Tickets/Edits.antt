-- ===== src/Tickets/Edits.antt =====
-- A ticket's columns changed outside the state machine: `resolveDuplicate`, `updateServiceType`,
-- `updateCustomerCategory`, `updateTags` and `overrideWarrantyEligible` of
-- backend/src/ticketing/tickets/tickets.service.ts.
use Prim.Native.String.{◌++◌}
use mathlib.Core.Option
use proman_edge_ace.Prelude.{
  ℕ, String, Bool, true, false, not, ◌&&◌, Option, none, some, List, [], ◌∷◌, if◌then◌else◌,
  string_eq, get_or, or_else, is_some, keep, map, includes,
}
use proman_edge_ace.Prelude.Dict.{lookup}
use proman_edge_ace.Prelude.Text.{trim, is_blank, join}
use proman_edge_ace.Domain.Ticketing.{closed, ticket_status_name}
use proman_edge_ace.Domain.Masters.{CustomerCategory, customer_category_name}
use proman_edge_ace.Domain.Logs.{web_ui}
use proman_edge_ace.Schema.{Ticket, Sla, SlaPolicy, AuditEntry}
use proman_edge_ace.Env.{Env}
use proman_edge_ace.Action.{
  Action, ◌>>=◌, ◌>>◌, pure, ask, gets, throw_if, throw_some, first_error, transaction, bad_request,
}
use proman_edge_ace.Store.{find_ticket, update_ticket, audit}
use proman_edge_ace.SlaPolicy.{resolve, uses_target_date, sla_target_date_label}
use proman_edge_ace.Workflow.{given}
use proman_edge_ace.Tickets.Labels.{RequestUser, service_type_label}
use proman_edge_ace.Tickets.Creation.{is_valid_active_code, due_after, hours_of}

abbrev pub changed : ℕ → String → Option String → String → ℕ → AuditEntry
changed id field old new actor = record {
  entity_type = "TICKET";
  entity_id = id;
  field_name = field;
  old_value = old;
  new_value = some new;
  changed_by_user_id = actor;
  change_source = web_ui;
}

pub data DuplicateAction : Type 0 where
  merge dismiss : DuplicateAction

-- `reason?.trim()`, where it is not empty
abbrev trimmed : Option String → Option String
trimmed reason = given (Option.map trim reason)

-- `possibleDuplicateOf!.ticketNo`; a foreign key has its row.
abbrev ticket_no_of : Option Ticket → String
ticket_no_of none = ""
ticket_no_of (some t) = t.ticket_no

merge_ticket : ℕ → Ticket → String → Option String → RequestUser → Action (Unit {0})
merge_ticket id ticket other reason actor = do
  throw_if (not (is_some (trimmed reason)))
      (bad_request "A reason is required to merge this ticket")
  now ← ask (λ env. env.now)
  transaction do
    update_ticket id λ t. record t { status = closed; closed_at = some now }
    audit (
        changed id "status" (some (ticket_status_name ticket.status))
          ("CLOSED (Merged as duplicate of " ++ other ++ ": " ++ get_or (trimmed reason) "" ++ ")")
          actor.user_id)

suffix : Option String → String
suffix none = ""
suffix (some reason) = ": " ++ reason

dismiss_flag : ℕ → String → Option String → RequestUser → Action (Unit {0})
unfolding suffix
dismiss_flag id other reason actor = audit (
    changed id "duplicate_reference" none
      ("Dismissed — confirmed not a duplicate of " ++ other ++ suffix (trimmed reason))
      actor.user_id)

unfoldable pub resolve_duplicate : ℕ → DuplicateAction → RequestUser → Option String → Action Ticket
unfolding merge_ticket dismiss_flag
resolve_duplicate id action actor reason = do
  ticket ← find_ticket id
  throw_some (
      first_error (
        (
          not (is_some ticket.possible_duplicate_of_id),
          bad_request "This ticket has no unresolved duplicate flag",
        )
        ∷ (
          ticket.duplicate_flag_resolved,
          bad_request "This duplicate flag has already been resolved",
        )
        ∷ []))
  other ← gets (λ db. ticket_no_of (lookup (get_or ticket.possible_duplicate_of_id 0) db.tickets))
  elim action [
    | merge ↦ merge_ticket id ticket other reason actor
    | dismiss ↦ dismiss_flag id other reason actor
  ]
  update_ticket id λ t. record t { duplicate_flag_resolved = true }

-- The clocks for a service type that is now known; `old` is the row that was read.
unfoldable pub reclassified :
    Env → List ℕ → String → Option String → Option (ℕ × SlaPolicy) → Sla → Sla → Sla
reclassified env holidays service_type date policy old row = record row {
  target_date = target;
  response_due =
      or_else (due_after env holidays (hours_of (λ p. p.response_hours) policy)) old.response_due;
  resolution_due =
      if uses_target_date (some service_type)
      then target
      else or_else (due_after env holidays (hours_of (λ p. p.resolution_hours) policy))
          old.resolution_due;
  policy_id = or_else (Option.map (λ r. r.0) policy) old.policy_id;
}
  where
    target : Option ℕ
    target = if uses_target_date (some service_type) then Option.map env.parse_date date else none

unfoldable pub update_service_type : ℕ → String → Option String → RequestUser → Action Ticket
update_service_type id service_type date actor = do
  codes ← gets (λ db. db.service_types)
  throw_if (not (is_valid_active_code service_type codes))
      (bad_request ("Unknown or inactive service type \"" ++ service_type ++ "\""))
  ticket ← find_ticket id
  throw_if (uses_target_date (some service_type) && not (is_some (given date))) (
      bad_request (
        sla_target_date_label service_type
        ++ " is required for "
        ++ service_type_label (some service_type)
        ++ " tickets."))
  policy ← resolve (some service_type) ticket.priority
  holidays ← gets (λ db. db.holidays)
  env ← ask (λ env. env)
  updated ← update_ticket id λ t. record t {
    service_type = some service_type;
    sla = reclassified env holidays service_type date policy ticket.sla t.sla;
  }
  audit (
      changed id "serviceType" (some (service_type_label ticket.service_type))
        (service_type_label (some service_type)) actor.user_id)
  pure updated

unfoldable pub update_customer_category : ℕ → CustomerCategory → RequestUser → Action Ticket
update_customer_category id category actor = do
  ticket ← find_ticket id
  updated ← update_ticket id λ t. record t { customer_category = some category }
  audit (
      changed id "customerCategory" (Option.map customer_category_name ticket.customer_category)
        (customer_category_name category) actor.user_id)
  pure updated

-- `[...new Set(xs)]`: of equal strings the first stays; `seen` are those before.
distinct : List String → List String → List String
distinct seen [] = []
distinct seen (x ∷ xs) =
    let rest = distinct (x ∷ seen) xs in if includes seen x then rest else x ∷ rest

unfoldable pub cleaned_tags : List String → List String
unfolding distinct
cleaned_tags tags = distinct [] (keep (λ t. not (is_blank t)) (map trim tags))

unfoldable pub update_tags : ℕ → List String → RequestUser → Action Ticket
update_tags id tags actor = do
  ticket ← find_ticket id
  updated ← update_ticket id λ t. record t { tags = cleaned_tags tags }
  audit (changed id "tags" (some (join ticket.tags)) (join (cleaned_tags tags)) actor.user_id)
  pure updated

abbrev bool_text : Bool → String
bool_text true = "true"
bool_text false = "false"

unfoldable pub override_warranty_eligible : ℕ → Bool → String → RequestUser → Action Ticket
override_warranty_eligible id eligible reason actor = do
  ticket ← find_ticket id
  updated ←
      update_ticket id λ t. record t { warranty_eligible = eligible; override_reason = some reason }
  audit (
      changed id "warrantyEligible" (some (bool_text ticket.warranty_eligible))
        (bool_text eligible ++ " (" ++ reason ++ ")") actor.user_id)
  pure updated
