-- ===== src/SlaBreach/Rules.antt =====
-- Which roles hear of a breach: backend/src/ticketing/sla-notification-rule/sla-notification-rule.service.ts.
use proman_edge_ace.Prelude.{
  Bool, ◌&&◌, List, [], ◌∷◌, ◌++◌, map, if◌then◌else◌, ◌==◌, includes, any, keep,
}
use proman_edge_ace.Domain.People.{
  Role, call_center, asm, engineer, manager, admin, cs_support, md, role_eq,
}
use proman_edge_ace.Domain.Logs.{
  SlaBreachType, response, resolution, level2, level3, sla_breach_type_eq,
}
use proman_edge_ace.Schema.{Db, NotificationRule}
use proman_edge_ace.Action.{Action, ◌>>◌, gets, modify_db}

-- `RELEVANT_ROLES`
abbrev pub relevant_roles : List Role
relevant_roles = call_center ∷ asm ∷ engineer ∷ manager ∷ admin ∷ cs_support ∷ md ∷ []

-- `DEFAULT_ENABLED`
unfoldable pub default_enabled : SlaBreachType → List Role
default_enabled response = asm ∷ call_center ∷ manager ∷ md ∷ []
default_enabled resolution = asm ∷ manager ∷ md ∷ []
default_enabled level2 = asm ∷ manager ∷ md ∷ admin ∷ []
default_enabled level3 = asm ∷ manager ∷ md ∷ admin ∷ []

has_rule : List NotificationRule → SlaBreachType → Role → Bool
has_rule rules kind role = any (λ r. r.breach_type == kind && r.role == role) rules

missing_roles : List NotificationRule → SlaBreachType → List Role → List NotificationRule
unfolding has_rule
missing_roles rules kind [] = []
missing_roles rules kind (role ∷ roles) =
    let rest = missing_roles rules kind roles in
    if has_rule rules kind role
    then rest
    else record { breach_type = kind; role = role; enabled = includes (default_enabled kind) role }
      ∷ rest

unfoldable pub missing_rules : List NotificationRule → List NotificationRule
unfolding missing_roles
missing_rules rules =
    missing_roles rules response relevant_roles
    ++ (missing_roles rules resolution relevant_roles
        ++ (missing_roles rules level2 relevant_roles ++ missing_roles rules level3 relevant_roles))

unfoldable pub seeded : Db → List NotificationRule
seeded db = db.notification_rules ++ missing_rules db.notification_rules

-- `ensureSeeded`
unfoldable pub ensure_seeded : Action (Unit {0})
ensure_seeded = modify_db (λ db. record db { notification_rules = seeded db })

unfoldable pub enabled_roles : SlaBreachType → List NotificationRule → List Role
enabled_roles kind rules = map (λ r. r.role) (keep (λ r. r.breach_type == kind && r.enabled) rules)

-- `getEnabledRoles`
unfoldable pub get_enabled_roles : SlaBreachType → Action (List Role)
unfolding ensure_seeded
get_enabled_roles kind = do ensure_seeded; gets (λ db. enabled_roles kind db.notification_rules)

-- `setEnabled`
unfoldable pub set_enabled :
    SlaBreachType → Role → Bool → List NotificationRule → List NotificationRule
set_enabled kind role enabled [] =
    record { breach_type = kind; role = role; enabled = enabled } ∷ []
set_enabled kind role enabled (r ∷ rules) =
    let rest = set_enabled kind role enabled rules in
    if r.breach_type == kind && r.role == role
    then record r { enabled = enabled } ∷ rules
    else r ∷ rest
