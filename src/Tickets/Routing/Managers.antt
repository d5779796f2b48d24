-- ===== src/Tickets/Routing/Managers.antt =====
-- Who covers a region: `managersForRegion` of backend/src/ticketing/tickets/tickets.service.ts.
use proman_edge_ace.Prelude.{
  ℕ, ◌≡◌, refl, sym, ap, ◌∙◌, ◌↔◌, Bool, true, false, ◌&&◌, Option, none, some, List, [], ◌∷◌, map,
  keep, any, includes, ◌==◌, nat_eq, nat_beq, arith, Bool-cases, Option-cases, is_some, inl, inr,
}
use proman_edge_ace.Prelude.Dict.{Dict, lookup}
use proman_edge_ace.Domain.People.{Region, manager, role_eq, region_eq}
use proman_edge_ace.Schema.{Db, User}
use proman_edge_ace.Tickets.Routing.{managers_for_region, users_of_region, user_where}

-- An active manager whom a row of the regions gives the region.
pub record IsManagerOf (id : ℕ) (region : Region) (db : Db) : Type 0 where
  pub listed : any (λ r. r.0 == id && r.1 == region) db.user_regions ≡ true
  pub user : User
  pub on_file : lookup id db.users ≡ some user
  pub is_manager : user.role ≡ manager
  pub is_active : user.is_active ≡ true

-- Nobody covers a customer without a region.
abbrev pub Covers : ℕ → Option Region → Db → Type 0
Covers id none db = ⊥
Covers id (some region) db = IsManagerOf id region db

includes_chosen :
    (f : ℕ → Bool) (q : Region → Bool) (id : ℕ) (rows : List (ℕ × Region))
    → includes (map (λ r. r.0) (keep (λ r. q r.1 && f r.0) rows)) id
      ≡ (any (λ r. r.0 == id && q r.1) rows && f id)
includes_chosen f q id [] = refl
includes_chosen f q id ((j, g) ∷ rows) = elim (Bool-cases (q g)) [
  | inr left ↦ ground (arith, left, includes_chosen f q id rows)
  | inl taken ↦ elim (Bool-cases (nat_beq j id)) [
    | inr other ↦ ground (arith, taken, other, includes_chosen f q id rows)
    | inl here ↦ ground (arith, taken, here, includes_chosen f q id rows)
  ]
]

any-unkept :
    (f : ℕ → Bool) (id : ℕ) (users : Dict User)
    → f id ≡ false
    → any (λ r. r.0 == id) (keep (λ r. f r.0) users) ≡ false
any-unkept f id [] e = refl
any-unkept f id ((j, v) ∷ users) e = ground (arith, any-unkept f id users e)

any-keep :
    (f : ℕ → Bool) (id : ℕ) (users : Dict User)
    → f id ≡ true
    → any (λ r. r.0 == id) (keep (λ r. f r.0) users) ≡ is_some (lookup id users)
any-keep f id [] e = refl
any-keep f id ((j, v) ∷ users) e = ground (arith, any-keep f id users e)

-- The test of the source, whoever is asked for.
abbrev pub is_covering : ℕ → Option Region → Db → Bool
is_covering id region db = any (λ r. r.0 == id) (managers_for_region region db)

module _ (id : ℕ) (region : Region) (db : Db) where
  abbrev chosen : ℕ → Bool
  chosen = includes (users_of_region (λ u. u.role == manager && u.is_active) region db)

  chosen_iff : chosen id ≡ (
      any (λ r. r.0 == id && r.1 == region) db.user_regions
      && user_where (λ u. u.role == manager && u.is_active) db.users id)
  unfolding users_of_region
  chosen_iff =
      includes_chosen (user_where (λ u. u.role == manager && u.is_active) db.users)
        (λ g. g == region) id db.user_regions

  covering-is :
      is_covering id (some region) db ≡ any (λ r. r.0 == id) (keep (λ r. chosen r.0) db.users)
  unfolding managers_for_region
  covering-is = refl

  IsManagerOf-covering : IsManagerOf id region db → is_covering id (some region) db ≡ true
  unfolding user_where
  IsManagerOf-covering c =
      covering-is
      ∙ (any-keep chosen id db.users
            (chosen_iff ∙ ground (arith, c.listed, c.on_file, c.is_manager, c.is_active))
          ∙ ap is_some c.on_file)

  manager-IsManagerOf :
      (u : User) → lookup id db.users ≡ some u → chosen id ≡ true → IsManagerOf id region db
  unfolding user_where
  manager-IsManagerOf u found picked =
      let both = sym chosen_iff ∙ picked in
      record {
        listed = ground (arith, both);
        user = u;
        on_file = found;
        is_manager = ground (arith, both, found);
        is_active = ground (arith, both, found);
      }

  covering-IsManagerOf : is_covering id (some region) db ≡ true → IsManagerOf id region db
  covering-IsManagerOf h = elim (Bool-cases (chosen id)) [
    | inr out ↦ absurd (true_is_not_false (sym h ∙ covering-is ∙ any-unkept chosen id db.users out))
    | inl picked ↦ elim (Option-cases (lookup id db.users)) [
      | inr (u, found) ↦ manager-IsManagerOf u found picked
      | inl missing ↦ absurd (
          true_is_not_false
            (sym h ∙ covering-is ∙ any-keep chosen id db.users picked ∙ ap is_some missing))
    ]
  ]
    where
      true_is_not_false : true ≡ false → ⊥
      true_is_not_false e = cc

pub is_covering_iff :
    (id : ℕ) (region : Option Region) (db : Db)
    → (is_covering id region db ≡ true) ↔ Covers id region db
unfolding managers_for_region
is_covering_iff id none db = (λ h. cc, λ c. absurd c)
is_covering_iff id (some region) db =
    (covering-IsManagerOf id region db, IsManagerOf-covering id region db)
