-- ===== src/SlaPolicy.antt =====
-- backend/src/ticketing/sla-policy/sla-policy.service.ts (`resolve`), and the service types with a target
-- date: backend/src/ticketing/tickets/sla-policy.constants.ts.
use proman_edge_ace.Prelude.{
  ℕ, String, Bool, false, Option, none, some, List, [], ◌∷◌, ◌&&◌, if◌then◌else◌, includes, ◌==◌,
  string_eq,
}
use proman_edge_ace.Prelude.Dict.{Dict}
use proman_edge_ace.Domain.Ticketing.{Priority, priority_eq}
use proman_edge_ace.Schema.{SlaPolicy}
use proman_edge_ace.Action.{Action, pure, gets, ◌>>=◌}

-- `SLA_TARGET_DATE_SERVICE_TYPES`
abbrev pub sla_target_date_service_types : List String
sla_target_date_service_types = "SCHEDULED_PM" ∷ "TECHNICAL_AUDIT" ∷ "RETROFIT_UPGRADE" ∷ []

-- `serviceType != null && SLA_TARGET_DATE_SERVICE_TYPES.includes(serviceType)`
unfoldable pub uses_target_date : Option String → Bool
uses_target_date none = false
uses_target_date (some s) = includes sla_target_date_service_types s

-- `SLA_TARGET_DATE_LABEL`
unfoldable pub sla_target_date_label : String → String
sla_target_date_label s =
    if s == "SCHEDULED_PM"
    then "Planned Date"
    else (if s == "TECHNICAL_AUDIT"
        then "Agreed Date"
        else (if s == "RETROFIT_UPGRADE" then "Quotation Schedule Date" else "undefined"))

-- `Object.values(ServiceType)`
abbrev service_type_values : List String
service_type_values =
    "WARRANTY_REPAIR" ∷ "BREAKDOWN_CHARGEABLE" ∷ "SCHEDULED_PM" ∷ "TECHNICAL_AUDIT"
    ∷ "RETROFIT_UPGRADE" ∷ "AMC" ∷ "SPARES_SUPPLY_INSTALLATION" ∷ "WARRANTY_RENEWAL_OUTREACH" ∷ []

find_policy : String → Priority → Dict SlaPolicy → Option (ℕ × SlaPolicy)
find_policy s priority [] = none
find_policy s priority ((id, p) ∷ rows) =
    if p.service_type == s && p.priority == priority
    then some (id, p)
    else find_policy s priority rows

-- The policy's row with its key, `none` for a type that is unknown or that is no member of the enumeration.
unfoldable pub resolve : Option String → Priority → Action (Option (ℕ × SlaPolicy))
unfolding find_policy
resolve none priority = pure none
resolve (some s) priority = do
  rows ← gets (λ db. db.sla_policies)
  pure (if includes service_type_values s then find_policy s priority rows else none)
