-- ===== src/Users.antt =====
-- The administration of users: backend/src/users/users.service.ts, and the test of
-- backend/src/auth/roles.guard.ts. The password library is a parameter.
pub mod Administrators
use Prim.Native.String.{◌++◌}
use mathlib.Core.Option
use mathlib.Core.List.{◌++◌ as append}
use proman_edge_ace.Prelude.{
  ℕ, ◌+◌, String, Bool, true, false, not, ◌&&◌, ◌||◌, Option, none, some, List, [], ◌∷◌, map,
  if◌then◌else◌, keep, length, includes, ltb, ◌==◌, nat_eq, string_eq, get_or, or_else, is_some,
  is_just,
}
use proman_edge_ace.Prelude.Dict.{Dict}
use proman_edge_ace.Prelude.Text.{show, join}
use proman_edge_ace.Domain.Ticketing.{closed, ticket_status_eq}
use proman_edge_ace.Domain.People.{Role, admin, role_eq, Region}
use proman_edge_ace.Schema.{Db, User, Ticket}
use proman_edge_ace.Action.{
  Action, ◌>>=◌, ◌>>◌, pure, gets, modify_db, throw_some, first_error, run_if, with_some,
  bad_request, conflict, Error,
}
use proman_edge_ace.Store.Tables.{user_table, find_row, create_row, update_row, row_where}
use proman_edge_ace.Workflow.{given}
use proman_edge_ace.Auth.{Crypto}

abbrev pub bad_password : Error
bad_password =
    bad_request "Password must be 8+ chars with upper, lower, number, and special character"

abbrev pub unknown_tags : Option (List String) → Db → List String
unknown_tags none db = []
unknown_tags (some tags) db = keep (λ t. not (includes db.skill_tags t)) tags

abbrev pub is_unknown_level : Option String → Db → Bool
is_unknown_level none db = false
is_unknown_level (some level) db = not (includes db.billing_levels level)

-- The guards of `validateSkillTagsAndLevel`
unfoldable pub tags_and_level_error : Option (List String) → Option String → Db → Option Error
tags_and_level_error tags level db = first_error (
    (
      ltb 0 (length (unknown_tags tags db)),
      bad_request (
          "Unknown skill tag(s): "
          ++ join (unknown_tags tags db)
          ++ " — add them to the Skill Tags master list first"),
    )
    ∷ (
      is_unknown_level (given level) db,
      bad_request (
          "Unknown engineer level \""
          ++ get_or level ""
          ++ "\" — it must match an existing Billing Rate level"),
    )
    ∷ [])

pub record CreateUser : Type 0 where
  pub full_name : String
  pub email : String
  pub password : String
  pub mobile : String
  pub role : Role
  pub regions : Option (List Region)
  pub skill_tags : Option (List String)
  pub company_ids : Option (List ℕ)
  pub engineer_level : Option String
  pub erp_employee_id : Option String

abbrev pub is_linked : Option String → Db → Bool
is_linked none db = false
is_linked (some e) db = is_some (row_where (λ (u : User). is_just u.erp_employee_id e) db.users)

abbrev pub is_unknown_employee : Option String → Db → Bool
is_unknown_employee none db = false
is_unknown_employee (some e) db = not (includes db.erp_employees e)

-- The guards of `create`, in their order
unfoldable pub create_error : Crypto → CreateUser → Db → Option Error
create_error crypto dto db =
    or_else
      (first_error (
        (dto.role == admin, bad_request "Admin accounts cannot be created here")
        ∷ (not (crypto.policy dto.password), bad_password)
        ∷ []))
      (or_else (tags_and_level_error dto.skill_tags dto.engineer_level db) (
        first_error (
          (
            is_some (row_where (λ (u : User). u.email == dto.email) db.users),
            conflict "A user with this email already exists",
          )
          ∷ (
            is_unknown_employee (given dto.erp_employee_id) db,
            bad_request "ERP employee not found — try re-syncing first",
          )
          ∷ (
            is_linked (given dto.erp_employee_id) db,
            conflict "This ERP employee has already been imported as a User",
          )
          ∷ [])))

abbrev pub new_user : Crypto → CreateUser → User
new_user crypto dto = record {
  full_name = dto.full_name;
  email = dto.email;
  mobile = dto.mobile;
  password_hash = crypto.hash dto.password;
  role = dto.role;
  is_active = true;
  must_change_password = true;
  token_version = 0;
  failed_login_attempts = 0;
  locked_until = none;
  skill_tags = get_or dto.skill_tags [];
  engineer_level = dto.engineer_level;
  erp_employee_id = dto.erp_employee_id;
}

abbrev pub give_regions : ℕ → List Region → Db → Db
give_regions id regions db = record db {
  user_regions = append db.user_regions (map (λ (r : Region). (id, r)) regions);
}

abbrev pub give_companies : ℕ → List ℕ → Db → Db
give_companies id companies db = record db {
  user_companies = append db.user_companies (map (λ (c : ℕ). (id, c)) companies);
}

unfoldable pub create : Crypto → CreateUser → Action (Unit {0})
create crypto dto = do
  bad ← gets (create_error crypto dto)
  throw_some bad
  r ← create_row user_table (new_user crypto dto)
  with_some dto.regions (λ rs. modify_db (give_regions r.0 rs))
  with_some dto.company_ids (λ cs. modify_db (give_companies r.0 cs))

pub record UpdateUser : Type 0 where
  pub full_name : Option String
  pub mobile : Option String
  pub role : Option Role
  pub regions : Option (List Region)
  pub skill_tags : Option (List String)
  pub company_ids : Option (List ℕ)
  pub engineer_level : Option String
  pub is_active : Option Bool

abbrev pub open_with : (Ticket → Option ℕ) → ℕ → Db → ℕ
open_with column id db =
    length
      (keep (λ (t : ℕ × Ticket). is_just (column t.1) id && not (t.1.status == closed)) db.tickets)

unfoldable pub open_ticket_assignment_count : ℕ → Db → ℕ
open_ticket_assignment_count id db =
    open_with (λ t. t.assigned_asm_id) id db + open_with (λ t. t.assigned_engineer_id) id db

abbrev pub is_role_changing : UpdateUser → User → Bool
is_role_changing dto u = elim dto.role [ none ↦ false | some r ↦ not (r == u.role) ]

abbrev pub is_deactivating : UpdateUser → User → Bool
is_deactivating dto u = not (get_or dto.is_active true) && u.is_active

abbrev pub names_admin : Option Role → Bool
names_admin none = false
names_admin (some r) = r == admin

-- The guards of `update`, in their order
unfoldable pub update_error : ℕ → UpdateUser → User → Db → Option Error
update_error id dto u db =
    or_else
      (first_error (
        (u.role == admin, bad_request "Admin accounts cannot be edited here")
        ∷ (names_admin dto.role, bad_request "Admin accounts cannot be created here")
        ∷ []))
      (or_else (tags_and_level_error dto.skill_tags dto.engineer_level db) (
        first_error (
          (
            (is_role_changing dto u || is_deactivating dto u)
                && ltb 0 (open_ticket_assignment_count id db),
            conflict (
                "Cannot "
                ++ (if is_role_changing dto u
                    then "change this user's role"
                    else "deactivate this user")
                ++ " — they have "
                ++ show (open_ticket_assignment_count id db)
                ++ " open ticket(s) assigned as ASM/Engineer. Reassign those first."),
          )
          ∷ [])))

-- `undefined` leaves a column as it is.
abbrev pub updated_user : UpdateUser → User → User
updated_user dto u = record u {
  full_name = get_or dto.full_name u.full_name;
  mobile = get_or dto.mobile u.mobile;
  role = get_or dto.role u.role;
  skill_tags = get_or dto.skill_tags u.skill_tags;
  engineer_level = or_else dto.engineer_level u.engineer_level;
  is_active = get_or dto.is_active u.is_active;
}

abbrev pub drop_regions : ℕ → Db → Db
drop_regions id db = record db {
  user_regions = keep (λ (r : ℕ × Region). not (r.0 == id)) db.user_regions;
}

abbrev pub drop_companies : ℕ → Db → Db
drop_companies id db = record db {
  user_companies = keep (λ (c : ℕ × ℕ). not (c.0 == id)) db.user_companies;
}

unfoldable pub update : ℕ → UpdateUser → Action (Unit {0})
update id dto = do
  user ← find_row user_table id
  bad ← gets (update_error id dto user)
  throw_some bad
  update_row user_table id (updated_user dto)
  with_some dto.regions (λ rs. modify_db (λ db. give_regions id rs (drop_regions id db)))
  with_some dto.company_ids (λ cs. modify_db (λ db. give_companies id cs (drop_companies id db)))

abbrev pub with_new_password : Crypto → String → User → User
with_new_password crypto password u = record u {
  password_hash = crypto.hash password;
  must_change_password = true;
  token_version = u.token_version + 1;
}

unfoldable pub reset_password : Crypto → ℕ → String → Action (Unit {0})
reset_password crypto id password = do
  throw_some (first_error ((not (crypto.policy password), bad_password) ∷ []))
  update_row user_table id (with_new_password crypto password)
  pure tt

abbrev pub without_token : String → List (String × ℕ) → List (String × ℕ)
without_token token = keep λ (t : String × ℕ). not (t.0 == token)

-- The upsert on the token
unfoldable pub register_push_token : ℕ → String → Action (Unit {0})
register_push_token user_id token = modify_db λ db. record db {
  push_tokens = append (without_token token db.push_tokens) ((token, user_id) ∷ []);
}

unfoldable pub unregister_push_token : String → Action (Unit {0})
unregister_push_token token =
    modify_db λ db. record db { push_tokens = without_token token db.push_tokens }

-- What the administration of users asks for.
pub data Request : Type 0 where
  creating : CreateUser → Request
  updating : ℕ → UpdateUser → Request
  resetting : ℕ → String → Request
  registering : ℕ → String → Request
  unregistering : String → Request

abbrev pub handle : Crypto → Request → Action (Unit {0})
handle crypto (creating dto) = create crypto dto
handle crypto (updating id dto) = update id dto
handle crypto (resetting id password) = reset_password crypto id password
handle crypto (registering id token) = register_push_token id token
handle crypto (unregistering token) = unregister_push_token token

-- `canActivate`, for the roles that a handler asks for
unfoldable pub can_activate : Option (List Role) → Option Role → Bool
can_activate none role = true
can_activate (some roles) none = false
can_activate (some roles) (some r) = r == admin || includes roles r
