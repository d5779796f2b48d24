-- ===== src/Tickets/Queries/Scope.antt =====
-- Who sees which tickets: `list` of backend/src/ticketing/tickets/tickets.service.ts.
use proman_edge_ace.Prelude.{
  ℕ, zero, suc, ◌-◌, ◌*◌, ◌≡◌, refl, ◌⊎◌, inl, inr, true, false, Bool, none, some, List, [], ◌∷◌,
  All, keep, take, Bool-cases, arith, includes, ◌==◌, nat_eq, Option, String, map,
}
use proman_edge_ace.Prelude.Dict.{Dict}
use proman_edge_ace.Domain.People.{asm, engineer, manager, admin, role_eq, Region, region_eq}
use proman_edge_ace.Schema.{Db, Ticket}
use proman_edge_ace.Env.{Env}
use proman_edge_ace.Action.{ok}
use proman_edge_ace.Tickets.Labels.{RequestUser}
use proman_edge_ace.Tickets.Queries.{
  Filters, Page, Sorter, list, is_listed, has_engineer, engineer_filter, in_regions, region_filter,
  scoped_regions, region_of, page_of, page_size_of, drop, order_of,
}

module _ {A : Type 0} (P : A → Type 0) where
  take-All : (n : ℕ) (xs : List A) → All P xs → All P (take n xs)
  take-All zero xs all = tt
  take-All (suc n) [] all = tt
  take-All (suc n) (x ∷ xs) (p, all) = (p, take-All n xs all)

  drop-All : (n : ℕ) (xs : List A) → All P xs → All P (drop n xs)
  unfolding drop
  drop-All zero xs all = all
  drop-All (suc n) [] all = tt
  drop-All (suc n) (x ∷ xs) (p, all) = drop-All n xs all

  keep-All : (p : A → Bool) (xs : List A) → ((x : A) → p x ≡ true → P x) → All P (keep p xs)
  keep-All p [] f = tt
  keep-All p (x ∷ xs) f = elim (Bool-cases (p x)) [
    | inl e ↦ rw e (f x e, keep-All p xs f)
    | inr e ↦ rw e (keep-All p xs f)
  ]

-- Sorting shows no row that is not there.
abbrev pub IsSorting : Sorter → Type 1
IsSorting sort =
    (P : ℕ × Ticket → Type 0) (order : String × Bool) (db : Db) (rows : Dict Ticket)
    → All P rows
    → All P (sort order db rows)

-- The rows of a page satisfy whatever the query asks of each of them.
listed :
    (P : Ticket → Type 0) (sort : Sorter) (actor : RequestUser) (f : Filters) (env : Env) (db : Db)
    → IsSorting sort
    → ((t : Ticket) → is_listed env db actor f t ≡ true → P t)
    → (page : Page) × (list sort actor f env db ≡ (ok page, db)) × All (λ r. P r.1) page.rows
unfolding list
listed P sort actor f env db sorting each = (
  _,
  refl,
  take-All (λ r. P r.1) (page_size_of f.page_size) _
      (drop-All (λ r. P r.1) ((page_of f.page - 1) * page_size_of f.page_size) _
        (sorting (λ r. P r.1) (order_of f) db _
          (keep-All (λ r. P r.1) (λ r. is_listed env db actor f r.1) db.tickets (λ r. each r.1)))),
)

-- Someone of the user's regions
abbrev pub IsInRegions : List Region → Option Region → Type 0
IsInRegions rs region = (r : Region) × (region ≡ some r) × (includes rs r ≡ true)

narrowed :
    (rs : List Region) (wanted : Option Region) (region : Option Region)
    → in_regions (region_filter (some rs) wanted) region ≡ true
    → IsInRegions rs region
unfolding in_regions region_filter
narrowed rs none (some r) h = (r, refl, h)
narrowed rs (some w) (some r) h = (r, refl, ground (arith, h))
narrowed rs none none h = absurd (ground (arith, h))
narrowed rs (some w) none h = elim (Bool-cases (includes rs w)) [
  | inl e ↦ absurd (ground (arith, e, h))
  | inr e ↦ absurd (ground (arith, e, h))
]

in_scope :
    (actor : RequestUser) (f : Filters) (env : Env) (db : Db)
    → (actor.role ≡ asm) ⊎ (actor.role ≡ manager)
    → (t : Ticket) → is_listed env db actor f t ≡ true
    → in_regions
        (region_filter
          (some (map (λ u. u.1) (keep (λ u. u.0 == actor.user_id) db.user_regions)))
          f.region)
        (region_of db t)
      ≡ true
unfolding is_listed scoped_regions
in_scope actor f env db (inl role) t shown = ground (arith, role, shown)
in_scope actor f env db (inr role) t shown = ground (arith, role, shown)

-- The pages of an area or service manager: whatever the filters ask for, and however the database sorts what it
-- has found, every row is a ticket of a customer in one of the user's own regions.
pub page_stays_in_scope :
    (sort : Sorter) (actor : RequestUser) (f : Filters) (env : Env) (db : Db)
    → IsSorting sort
    → (actor.role ≡ asm) ⊎ (actor.role ≡ manager)
    → (page : Page) × (list sort actor f env db ≡ (ok page, db))
      × All
          (λ r.
            IsInRegions
              (map (λ u. u.1) (keep (λ u. u.0 == actor.user_id) db.user_regions))
              (region_of db r.1))
          page.rows
page_stays_in_scope sort actor f env db sorting role =
    listed
      (λ t.
        IsInRegions (map (λ u. u.1) (keep (λ u. u.0 == actor.user_id) db.user_regions))
          (region_of db t))
      sort actor f env db sorting
      λ t shown.
        narrowed (map (λ u. u.1) (keep (λ u. u.0 == actor.user_id) db.user_regions)) f.region
          (region_of db t) (in_scope actor f env db role t shown)

-- An engineer's scope is lifted by the filter `assigned`: whatever value it has, the engineer is shown what
-- an administrator is shown under the same filters.
pub assigned_filter_lifts_scope :
    (sort : Sorter) (id other : ℕ) (f : Filters) (env : Env) (db : Db) (b : Bool)
    → f.assigned ≡ some b
    → list sort (record { user_id = id; role = engineer }) f env db
      ≡ list sort (record { user_id = other; role = admin }) f env db
unfolding list is_listed engineer_filter scoped_regions
assigned_filter_lifts_scope sort id other f env db true asked = rw asked refl
assigned_filter_lifts_scope sort id other f env db false asked = rw asked refl

own :
    (id : ℕ) (f : Filters) (env : Env) (db : Db)
    → f.assigned ≡ none
    → (t : Ticket) → is_listed env db (record { user_id = id; role = engineer }) f t ≡ true
    → t.assigned_engineer_id ≡ some id
unfolding is_listed engineer_filter has_engineer
own id f env db unasked t shown = ground (arith, unasked, shown)

-- Without that filter, an engineer's pages have the engineer's own tickets only, however the database sorts
-- them.
pub engineer_sees_own_tickets :
    (sort : Sorter) (id : ℕ) (f : Filters) (env : Env) (db : Db)
    → IsSorting sort
    → f.assigned ≡ none
    → (page : Page) × (list sort (record { user_id = id; role = engineer }) f env db
        ≡ (ok page, db))
      × All (λ r. r.1.assigned_engineer_id ≡ some id) page.rows
engineer_sees_own_tickets sort id f env db sorting unasked =
    listed (λ t. t.assigned_engineer_id ≡ some id) sort (record { user_id = id; role = engineer }) f
      env db sorting (own id f env db unasked)
