-- ===== src/Users/Administrators.antt =====
-- Who is an administrator: backend/src/users/users.service.ts.
use proman_edge_ace.Prelude.{
  ℕ, ◌≤◌, ◌≡◌, ◌⊎◌, nat_beq, refl, sym, ◌∙◌, ap, true, false, Bool, none, some, List, [], ◌∷◌, map,
  keep, arith, Option-cases, Bool-cases, inl, inr, ◌==◌, String, some_inj,
}
use proman_edge_ace.Prelude.Dict.{Dict, lookup, modify, insert, fresh}
use proman_edge_ace.Domain.People.{admin, role_eq}
use proman_edge_ace.Schema.{Db, User}
use proman_edge_ace.Env.{Env}
use proman_edge_ace.Action.{err, Error}
use proman_edge_ace.Action.Requests.{serve, serve-keeps}
use proman_edge_ace.Auth.{Crypto}
use proman_edge_ace.Users

-- The keys of the administrators
abbrev pub administrators : Dict User → List ℕ
administrators users = map (λ r. r.0) (keep (λ r. r.1.role == admin) users)

abbrev is_admin : User → Bool
is_admin u = u.role == admin

administrators-insert :
    (id : ℕ) (u : User) (users : Dict User)
    → is_admin u ≡ false
    → administrators (insert id u users) ≡ administrators users
administrators-insert id u [] e = rw e refl
administrators-insert id u ((j, v) ∷ users) e = ground (arith, administrators-insert id u users e)

administrators-modify :
    (id : ℕ) (f : User → User) (users : Dict User)
    → ((u : User) → lookup id users ≡ some u → is_admin (f u) ≡ is_admin u)
    → administrators (modify id f users) ≡ administrators users
administrators-modify id f [] same = refl
administrators-modify id f ((j, v) ∷ users) same = elim (Bool-cases (nat_beq j id)) [
  | inl here ↦ ground (arith, here, same v (rw here refl))
  | inr there ↦
      ground (arith, there, administrators-modify id f users (λ u found. same u (rw there found)))
]

not_admin :
    (crypto : Crypto) (dto : Users.CreateUser) (db : Db)
    → Users.create_error crypto dto db ≡ none
    → (dto.role == admin) ≡ false
unfolding Users.create_error
not_admin crypto dto db fine = ground (arith, fine)

guarded :
    (id : ℕ) (dto : Users.UpdateUser) (u : User) (db : Db)
    → Users.update_error id dto u db ≡ none
    → (is_admin u ≡ false) × (Users.names_admin dto.role ≡ false)
unfolding Users.update_error
guarded id dto u db fine = ground (arith, fine)

stays :
    (dto : Users.UpdateUser) (u : User)
    → (is_admin u ≡ false) × (Users.names_admin dto.role ≡ false)
    → is_admin (Users.updated_user dto u) ≡ is_admin u
stays dto u (plain, unnamed) = ground (arith, plain, unnamed)

refused :
    (id : ℕ) (dto : Users.UpdateUser) (u : User) (env : Env) (db : Db) (e : Error)
    → lookup id db.users ≡ some u
    → Users.update_error id dto u db ≡ some e
    → Users.update id dto env db ≡ (err e, db)
unfolding Users.update
refused id dto u env db e found bad = ground (arith, found, bad)

blocks :
    (id : ℕ) (dto : Users.UpdateUser) (u : User) (db : Db)
    → 1 ≤ Users.open_ticket_assignment_count id db
    → (Users.is_role_changing dto u ≡ true) ⊎ (Users.is_deactivating dto u ≡ true)
    → ¬ (Users.update_error id dto u db ≡ none)
unfolding Users.update_error
blocks id dto u db busy (inl changing) fine = ground (arith, busy, changing, fine)
blocks id dto u db busy (inr ending) fine = ground (arith, busy, ending, fine)

create-administrators :
    (crypto : Crypto) (dto : Users.CreateUser) (env : Env) (db : Db)
    → administrators (Users.create crypto dto env db).1.users ≡ administrators db.users
unfolding Users.create
create-administrators crypto dto env db = elim (Option-cases (Users.create_error crypto dto db)) [
  | inr (e, bad) ↦ ground (arith, bad)
  | inl fine ↦ ground (
    arith,
    fine,
    administrators-insert (fresh db.users) (Users.new_user crypto dto) db.users
        (not_admin crypto dto db fine),
  )
]

update-administrators :
    (id : ℕ) (dto : Users.UpdateUser) (env : Env) (db : Db)
    → administrators (Users.update id dto env db).1.users ≡ administrators db.users
unfolding Users.update
update-administrators id dto env db = elim (Option-cases (lookup id db.users)) [
  | inl missing ↦ ground (arith, missing)
  | inr (u, found) ↦ elim (Option-cases (Users.update_error id dto u db)) [
    | inr (e, bad) ↦ ground (arith, found, bad)
    | inl fine ↦ ground (
      arith,
      found,
      fine,
      administrators-modify id (Users.updated_user dto) db.users (λ w on_file. stays dto w (
          guarded id dto w db
            (ap (λ x. Users.update_error id dto x db) (some_inj (sym on_file ∙ found)) ∙ fine))),
    )
  ]
]

reset_password-administrators :
    (crypto : Crypto) (id : ℕ) (password : String) (env : Env) (db : Db)
    → administrators (Users.reset_password crypto id password env db).1.users
      ≡ administrators db.users
unfolding Users.reset_password
reset_password-administrators crypto id password env db = ground (
  arith,
  administrators-modify id (Users.with_new_password crypto password) db.users (λ u found. refl),
)

handle-administrators :
    (crypto : Crypto) (ids : List ℕ) (r : Users.Request) (env : Env) (db : Db)
    → administrators db.users ≡ ids
    → administrators (Users.handle crypto r env db).1.users ≡ ids
unfolding Users.register_push_token Users.unregister_push_token
handle-administrators crypto ids (Users.creating dto) env db e =
    create-administrators crypto dto env db ∙ e
handle-administrators crypto ids (Users.updating id dto) env db e =
    update-administrators id dto env db ∙ e
handle-administrators crypto ids (Users.resetting id password) env db e =
    reset_password-administrators crypto id password env db ∙ e
handle-administrators crypto ids (Users.registering id token) env db e = e
handle-administrators crypto ids (Users.unregistering token) env db e = e

-- However many requests the administration of users answers, those that throw included: the
-- administrators are the same users as before.
pub administrators_stay :
    (crypto : Crypto) (rs : List (Env × Users.Request)) (db : Db)
    → administrators (serve (Users.handle crypto) rs db).users ≡ administrators db.users
administrators_stay crypto rs db =
    serve-keeps (Users.handle crypto) (λ d. administrators d.users ≡ administrators db.users)
      (handle-administrators crypto (administrators db.users)) rs db refl

-- A user with a ticket that is not CLOSED, as its area manager or its engineer, keeps role and access: an edit
-- that changes the role or ends the access of such a user on file is refused and writes nothing.
pub busy_user_keeps_role :
    (id : ℕ) (dto : Users.UpdateUser) (u : User) (env : Env) (db : Db)
    → lookup id db.users ≡ some u
    → 1 ≤ Users.open_ticket_assignment_count id db
    → (Users.is_role_changing dto u ≡ true) ⊎ (Users.is_deactivating dto u ≡ true)
    → (e : Error) × (Users.update id dto env db ≡ (err e, db))
busy_user_keeps_role id dto u env db found busy asked =
    elim (Option-cases (Users.update_error id dto u db)) [
      | inr (e, bad) ↦ (e, refused id dto u env db e found bad)
      | inl fine ↦ absurd (blocks id dto u db busy asked fine)
    ]
