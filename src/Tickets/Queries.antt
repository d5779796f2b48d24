-- ===== src/Tickets/Queries.antt =====
-- What people may read: `list` and `findOne` of backend/src/ticketing/tickets/tickets.service.ts. The
-- database sorts and compares texts, so these are parameters; a number in the query string is the
-- answer of `parseInt`.
pub mod Scope
use Prim.Native.Nat.{max, min}
use proman_edge_ace.Prelude.{
  ℕ, zero, suc, ◌-◌, ◌*◌, String, Bool, true, false, not, ◌&&◌, ◌||◌, Option, none, some, List, [],
  ◌∷◌, map, if◌then◌else◌, keep, any, take, length, includes, ltb, ◌==◌, nat_eq, string_eq, get_or,
  is_just, is_some,
}
use proman_edge_ace.Prelude.Dict.{Dict, lookup}
use proman_edge_ace.Prelude.Text.{trim}
use proman_edge_ace.Domain.Ticketing.{
  TicketStatus, closed, ticket_status_eq, Priority, breached, sla_clock_status_eq, priority_index,
}
use proman_edge_ace.Domain.People.{asm, engineer, manager, role_eq, Region, region_eq}
use proman_edge_ace.Schema.{Db, Ticket, Customer}
use proman_edge_ace.Env.{Env}
use proman_edge_ace.Action.{
  Action, ◌>>=◌, ◌>>◌, pure, ask, gets, or_throw, throw_if, not_found, forbidden,
}
use proman_edge_ace.Workflow.{given}
use proman_edge_ace.Tickets.Labels.{RequestUser}

-- The answer of `parseInt`
pub data Parsed : Type 0 where
  nan negative : Parsed
  whole : ℕ → Parsed

pub record Filters : Type 0 where
  pub status : Option TicketStatus
  pub exclude_closed : Bool
  pub priority : Option Priority
  pub region : Option Region
  pub service_type : Option String
  pub assigned : Option Bool  -- 'true' and 'false'
  pub sla_breached : Bool
  pub rejected : Bool
  pub search : Option String
  pub page : Parsed
  pub page_size : Parsed
  pub sort_by : Option String
  pub ascending : Bool

-- `where.assignedEngineerId`
pub data EngineerFilter : Type 0 where
  anyone somebody nobody : EngineerFilter
  exactly : ℕ → EngineerFilter

-- The later assignment replaces the scope of an engineer.
unfoldable pub engineer_filter : RequestUser → Option Bool → EngineerFilter
engineer_filter actor (some true) = somebody
engineer_filter actor (some false) = nobody
engineer_filter actor none = if actor.role == engineer then exactly actor.user_id else anyone

unfoldable pub has_engineer : EngineerFilter → Ticket → Bool
has_engineer anyone t = true
has_engineer somebody t = is_some t.assigned_engineer_id
has_engineer nobody t = not (is_some t.assigned_engineer_id)
has_engineer (exactly id) t = is_just t.assigned_engineer_id id

-- `scopedRegions`: null for whoever sees every region
unfoldable pub scoped_regions : RequestUser → Db → Option (List Region)
scoped_regions actor db =
    if actor.role == asm || actor.role == manager
    then some (
        map (λ (r : ℕ × Region). r.1)
          (keep (λ (r : ℕ × Region). r.0 == actor.user_id) db.user_regions))
    else none

-- `where.customer.region`: null where it is not asked for
unfoldable pub region_filter : Option (List Region) → Option Region → Option (List Region)
region_filter scoped none = scoped
region_filter none (some r) = some (r ∷ [])
region_filter (some rs) (some r) = if includes rs r then some (r ∷ []) else some []

abbrev pub region_of : Db → Ticket → Option Region
region_of db t = elim (lookup t.customer_id db.customers) [ none ↦ none | some c ↦ c.region ]

unfoldable pub in_regions : Option (List Region) → Option Region → Bool
in_regions none r = true
in_regions (some rs) none = false
in_regions (some rs) (some r) = includes rs r

abbrev pub has_status : Filters → Ticket → Bool
has_status f t = elim f.status [
  | some s ↦ t.status == s
  | none ↦ not f.exclude_closed || not (t.status == closed)
]

abbrev pub has_priority : Option Priority → Ticket → Bool
has_priority none t = true
has_priority (some p) t = priority_index t.priority == priority_index p

abbrev pub is_breached : Ticket → Bool
is_breached t = t.sla.response_status == breached || t.sla.resolution_status == breached

abbrev pub customer_matches : Env → Db → String → Ticket → Bool
customer_matches env db q t = elim (lookup t.customer_id db.customers) [
  | none ↦ false
  | some c ↦ env.matches c.customer_name q
]

abbrev pub machine_matches : Env → Db → String → Ticket → Bool
machine_matches env db q t = elim t.equipment_id [
  | none ↦ false
  | some id ↦ elim (lookup id db.equipment) [ none ↦ false | some e ↦ env.matches e.serial_no q ]
]

unfoldable pub is_found : Env → Db → Option String → Ticket → Bool
is_found env db none t = true
is_found env db (some q) t =
    env.matches t.ticket_no q
    || env.matches t.subject q
    || env.matches t.description q
    || customer_matches env db q t
    || machine_matches env db q t
    || any (λ tag. env.tag_matches tag q) t.tags

-- `filters.search?.trim()`, where it is not empty
abbrev pub query_of : Filters → Option String
query_of f = elim f.search [ none ↦ none | some s ↦ given (some (trim s)) ]

-- The whole `where`
unfoldable pub is_listed : Env → Db → RequestUser → Filters → Ticket → Bool
is_listed env db actor f t =
    has_engineer (engineer_filter actor f.assigned) t
    && in_regions (region_filter (scoped_regions actor db) f.region) (region_of db t)
    && has_status f t
    && has_priority f.priority t
    && (elim f.service_type [ none ↦ true | some s ↦ is_just t.service_type s ])
    && (not f.sla_breached || is_breached t)
    && (not f.rejected || ltb 0 t.rejections.rejection_count)
    && is_found env db (query_of f) t

unfoldable pub page_of : Parsed → ℕ
page_of (whole n) = max 1 n
page_of _ = 1

unfoldable pub page_size_of : Parsed → ℕ
page_size_of nan = 25
page_size_of negative = 1
page_size_of (whole zero) = 25
page_size_of (whole (suc n)) = min 5000 (suc n)

-- `skip`
unfoldable pub drop : {A : Type 0} → ℕ → List A → List A
drop zero xs = xs
drop (suc n) [] = []
drop (suc n) (x ∷ xs) = drop n xs

abbrev pub sortable_columns : List String
sortable_columns =
    "ticketNo" ∷ "customerName" ∷ "priority" ∷ "status" ∷ "engineerName" ∷ "region" ∷ "createdAt"
    ∷ "warrantyEligible" ∷ []

-- A column with its direction
unfoldable pub order_of : Filters → String × Bool
order_of f = elim f.sort_by [
  | none ↦ ("createdAt", false)
  | some column ↦
      if includes sortable_columns column then (column, f.ascending) else ("createdAt", false)
]

pub record Page : Type 0 where
  pub rows : Dict Ticket
  pub total : ℕ
  pub page : ℕ
  pub page_size : ℕ

-- The database sorts by a column and a direction.
abbrev pub Sorter : Type 0
Sorter = String × Bool → Db → Dict Ticket → Dict Ticket

unfoldable pub list : Sorter → RequestUser → Filters → Action Page
list sort actor f = do
  env ← ask (λ env. env)
  found ← gets λ db. keep (λ (r : ℕ × Ticket). is_listed env db actor f r.1) db.tickets
  sorted ← gets (λ db. sort (order_of f) db found)
  let page = page_of f.page
  let size = page_size_of f.page_size
  pure (record {
    rows = take size (drop ((page - 1) * size) sorted);
    total = length found;
    page = page;
    page_size = size;
  })

unfoldable pub find_one : ℕ → RequestUser → Action Ticket
find_one id actor = do
  rows ← gets (λ db. db.tickets)
  ticket ← or_throw (lookup id rows) (not_found "Ticket not found")
  throw_if (actor.role == engineer && not (is_just ticket.assigned_engineer_id actor.user_id))
      (forbidden "Not your ticket")
  pure ticket
