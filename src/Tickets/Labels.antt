-- ===== src/Tickets/Labels.antt =====
-- The constants at the top of backend/src/ticketing/tickets/tickets.service.ts, and the caller.
use proman_edge_ace.Prelude.{
  ℕ, String, Option, none, some, List, [], ◌∷◌, if◌then◌else◌, ◌==◌, string_eq, get_or,
}
use proman_edge_ace.Domain.Ticketing.{Priority, critical, high, medium, low, Source, api_partner}
use proman_edge_ace.Domain.People.{Role}
use proman_edge_ace.Prelude.Text.{is_blank}

-- `RequestUser`
pub record RequestUser : Type 0 where
  pub user_id : ℕ
  pub role : Role

-- `table[key]`
value_at : {A : Type 0} → List (String × A) → String → Option A
value_at [] key = none
value_at ((k, v) ∷ table) key = if k == key then some v else value_at table key

-- `DEFAULT_PRIORITY_BY_SERVICE_TYPE`
abbrev pub default_priority_by_service_type : List (String × Priority)
default_priority_by_service_type =
    ("BREAKDOWN_CHARGEABLE", critical)
    ∷ ("WARRANTY_REPAIR", high)
    ∷ ("TECHNICAL_AUDIT", medium)
    ∷ ("RETROFIT_UPGRADE", medium)
    ∷ ("SCHEDULED_PM", medium)
    ∷ ("AMC", medium)
    ∷ ("SPARES_SUPPLY_INSTALLATION", low)
    ∷ ("WARRANTY_RENEWAL_OUTREACH", low)
    ∷ []

-- The priority where the request gives none: `medium` is `DEFAULT_PRIORITY_WHEN_UNKNOWN`.
unfoldable pub default_priority : Option String → Priority
unfolding value_at
default_priority none = medium
default_priority (some s) = get_or (value_at default_priority_by_service_type s) medium

-- `DEDUP_WINDOW_HOURS`, in milliseconds
abbrev pub dedup_window : ℕ
dedup_window = 86400000

abbrev pub min_resolution_summary_length : ℕ
min_resolution_summary_length = 20

abbrev pub auto_merge_sources : List Source
auto_merge_sources = api_partner ∷ []

-- `SERVICE_TYPE_LABEL`
abbrev pub service_type_labels : List (String × String)
service_type_labels =
    ("WARRANTY_REPAIR", "Warranty Repair")
    ∷ ("BREAKDOWN_CHARGEABLE", "Breakdown")
    ∷ ("SCHEDULED_PM", "Scheduled PM")
    ∷ ("TECHNICAL_AUDIT", "Technical Audit")
    ∷ ("RETROFIT_UPGRADE", "Retrofit / Upgrade")
    ∷ ("AMC", "AMC")
    ∷ ("SPARES_SUPPLY_INSTALLATION", "Spares Supply (with installation)")
    ∷ ("WARRANTY_RENEWAL_OUTREACH", "Warranty Renewal Outreach")
    ∷ []

unfoldable pub service_type_label : Option String → String
unfolding value_at
service_type_label none = "Not Yet Determined"
service_type_label (some s) =
    if is_blank s then "Not Yet Determined" else get_or (value_at service_type_labels s) s
