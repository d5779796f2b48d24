-- ===== src/SlaBreach/Recipients.antt =====
-- Who hears of a clock: `recipientsForRoles`, `sendToAll` and `sendOne` of
-- backend/src/ticketing/tickets/sla-breach.cron.ts. `sendOne` is `fireNotification`.
use proman_edge_ace.Prelude.{ℕ, String, ◌&&◌, Option, none, some, List, [], ◌∷◌, ◌++◌, ◌==◌, keep}
use proman_edge_ace.Prelude.Dict.{Dict, lookup, modify, insert}
use proman_edge_ace.Domain.People.{Role, asm, engineer, manager, role_eq}
use proman_edge_ace.Domain.Logs.{SlaBreachType}
use proman_edge_ace.Schema.{Db, User}
use proman_edge_ace.Action.{Action, ◌>>=◌, gets, for_each}
use proman_edge_ace.Notifications.{Vars}
use proman_edge_ace.Tickets.Routing.{managers_for_region}
use proman_edge_ace.Tickets.Announce.{Related, email_and_push}
use proman_edge_ace.SlaBreach.Rules.{get_enabled_roles}

abbrev one : Option (ℕ × User) → List (ℕ × User)
one none = []
one (some u) = u ∷ []

unfoldable pub users_by_role : Role → Db → Dict User
users_by_role role db = keep (λ r. r.1.role == role && r.1.is_active) db.users

unfoldable pub users_for_role : Related → Db → Role → List (ℕ × User)
unfolding users_by_role
users_for_role r db asm = one r.assigned_asm
users_for_role r db engineer = one r.assigned_engineer
users_for_role r db manager = managers_for_region r.customer.region db
users_for_role r db role = users_by_role role db

-- `recipients.set(u.id, u)`: a key that is there keeps its place.
unfoldable pub set_recipient : Dict User → ℕ × User → Dict User
set_recipient m (id, u) = elim (lookup id m) [
  | none ↦ insert id u m
  | some _ ↦ modify id (λ _. u) m
]

unfoldable pub set_recipients : Dict User → List (ℕ × User) → Dict User
unfolding set_recipient
set_recipients m [] = m
set_recipients m (u ∷ us) = set_recipients (set_recipient m u) us

unfoldable pub recipients_for_roles : Related → Db → Dict User → List Role → Dict User
unfolding users_for_role set_recipients
recipients_for_roles r db m [] = m
recipients_for_roles r db m (role ∷ roles) =
    recipients_for_roles r db (set_recipients m (users_for_role r db role)) roles

-- `sendToAll` to the roles that are enabled for a breach.
unfoldable pub send_to_roles : SlaBreachType → String → Vars → ℕ → Related → Action (Unit {0})
send_to_roles kind trigger vars id r = do
  roles ← get_enabled_roles kind
  recipients ← gets (λ db. recipients_for_roles r db [] roles)
  for_each recipients (email_and_push trigger vars (some id))

unfoldable pub send_to_assignees : String → Vars → ℕ → Related → Action (Unit {0})
send_to_assignees trigger vars id r =
    for_each (one r.assigned_asm ++ one r.assigned_engineer) (email_and_push trigger vars (some id))
