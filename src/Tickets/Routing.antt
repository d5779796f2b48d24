-- ===== src/Tickets/Routing.antt =====
-- Who covers a region, and whose turn it is: `managersForRegion` and `pickRoundRobinAsm` of
-- backend/src/ticketing/tickets/tickets.service.ts (the cron of sla-breach.cron.ts has the same
-- `managersForRegion`).
pub mod RoundRobin
pub mod Managers
use proman_edge_ace.Prelude.{
  ℕ, Bool, true, false, ◌&&◌, Option, none, some, List, [], ◌∷◌, map, if◌then◌else◌, ◌==◌, nat_eq,
  keep, includes, is_just, ltb, leb, get_or,
}
use Prim.Native.Nat.{max}
use proman_edge_ace.Prelude.Dict.{Dict, lookup}
use proman_edge_ace.Domain.People.{Role, Region, manager, asm, role_eq, region_eq}
use proman_edge_ace.Domain.Ticketing.{ticket_status_eq}
use proman_edge_ace.Schema.{Db, User, Ticket}

user_where : (User → Bool) → Dict User → ℕ → Bool
user_where p users id = elim (lookup id users) [ none ↦ false | some u ↦ p u ]

-- `userRegion.findMany({ where: { region, user: … } })`, as user ids
users_of_region : (User → Bool) → Region → Db → List ℕ
unfolding user_where
users_of_region p region db =
    map (λ r. r.0) (keep (λ r. r.1 == region && user_where p db.users r.0) db.user_regions)

unfoldable pub managers_for_region : Option Region → Db → Dict User
unfolding users_of_region
managers_for_region none db = []
managers_for_region (some region) db =
    let ids = users_of_region (λ u. u.role == manager && u.is_active) region db in
    keep (λ r. includes ids r.0) db.users

-- `orderBy: { userId: 'asc' }`
insert_sorted : ℕ → List ℕ → List ℕ
insert_sorted n [] = n ∷ []
insert_sorted n (m ∷ ms) = let rest = insert_sorted n ms in if leb n m then n ∷ m ∷ ms else m ∷ rest

sorted : List ℕ → List ℕ
unfolding insert_sorted
sorted [] = []
sorted (n ∷ ns) = insert_sorted n (sorted ns)

unfoldable pub asms_for_region : Option Region → Db → List ℕ
unfolding users_of_region sorted
asms_for_region none db = []
asms_for_region (some region) db = sorted (users_of_region (λ u. u.role == asm) region db)

-- `lastAssignedAt.get(id) ?? new Date(0)`: the creation of the latest ticket that is assigned to the ASM.
unfoldable pub last_assigned_at : Dict Ticket → ℕ → ℕ
last_assigned_at [] id = 0
last_assigned_at ((_, t) ∷ tickets) id =
    let rest = last_assigned_at tickets id in
    if is_just t.assigned_asm_id id then max t.created_at rest else rest

-- The loop over `candidateIds.slice(1)`; `chosenTime` is always the chosen one's time.
unfoldable pub longest_waiting : (ℕ → ℕ) → ℕ → List ℕ → ℕ
longest_waiting time chosen [] = chosen
longest_waiting time chosen (id ∷ ids) =
    longest_waiting time (if ltb (time id) (time chosen) then id else chosen) ids

-- `pickRoundRobinAsm`, for a list of candidates that is not empty.
unfoldable pub pick_round_robin_asm : ℕ → List ℕ → Db → ℕ
unfolding longest_waiting last_assigned_at
pick_round_robin_asm first rest db = longest_waiting (last_assigned_at db.tickets) first rest
