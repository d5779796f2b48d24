-- ===== src/Auth/Sessions.antt =====
-- Tokens that no longer count: backend/src/auth/auth.service.ts and backend/src/auth/jwt.strategy.ts.
use mathlib.Core.Path.{subst}
use proman_edge_ace.Prelude.{
  ℕ, ◌+◌, ◌≤◌, ◌≡◌, sym, ap, ◌∙◌, inl, inr, String, not, none, some, List, [], ◌∷◌, arith,
  Option-cases,
}
use native.Mathlib.Decide.{ℕ_discrete}
use proman_edge_ace.Prelude.Dict.{Dict, lookup, modify, lookup-modify_self, lookup-modify_ne}
use proman_edge_ace.Domain.People.{Role}
use proman_edge_ace.Schema.{Db, User}
use proman_edge_ace.Env.{Env}
use proman_edge_ace.Action.{ok, err, unauthorized, record_not_found}
use proman_edge_ace.Action.Stable.{
  Stable, Stable-bind, Stable-pure, Stable-ask, Stable-gets, Stable-throw, Stable-throw_if,
  Stable-or_throw, Stable-run_if, Stable-if,
}
use proman_edge_ace.Store.{find_user}
use proman_edge_ace.Auth.{
  access, refresh, Crypto, validate, refresh_session, login, logout, change_password, unlock_user,
  put_users, update_user, reject_password, open_session, count_failure, unlocked, bumped,
  with_password, bad_policy, no_access, locked_out, no_session, user_by_email, is_locked,
}

-- The account's version is at least `version`.
abbrev pub AtLeast : ℕ → ℕ → Db → Type 0
AtLeast id version db = (u : User) × (lookup id db.users ≡ some u) × (version ≤ u.token_version)

-- What a user or an administrator does to accounts.
pub data Operation : Type 0 where
  log_in : (email password : String) → Operation
  unlock : (id : ℕ) → Operation
  log_out : (id : ℕ) → Operation
  renew : (token : String) → Operation
  new_password : (id : ℕ) (current new : String) → Operation

module _ (id version : ℕ) where
  put_users-AtLeast :
      (j : ℕ) (f : User → User) (db : Db)
      → ((u : User) → u.token_version ≤ (f u).token_version)
      → AtLeast id version db
      → AtLeast id version (put_users j f db)
  put_users-AtLeast j f db grows (u, found, h) = elim (ℕ_discrete id j) [
    | yes e ↦ (
      f u,
      ap (λ k. lookup id (modify k f db.users)) (sym e) ∙ lookup-modify_self id f db.users u found,
      omega (arith, h, grows u),
    )
    | no ne ↦ (u, lookup-modify_ne id j f db.users ne ∙ found, h)
  ]

  update_user-AtLeast :
      (j : ℕ) (f : User → User)
      → ((u : User) → u.token_version ≤ (f u).token_version)
      → Stable (AtLeast id version) (update_user j f)
  update_user-AtLeast j f grows = record {
    run = λ env db i. elim (Option-cases (lookup j db.users)) [
      | inl missing ↦ subst (AtLeast id version) (sym (unchanged env db missing)) i
      | inr (u, found) ↦
          subst (AtLeast id version) (sym (changed env db u found))
            (put_users-AtLeast j f db grows i)
    ];
  }
    where
      unchanged : (env : Env) (db : Db) → lookup j db.users ≡ none → (update_user j f env db).1 ≡ db
      unchanged env db missing = ground arith

      changed :
          (env : Env) (db : Db) (u : User)
          → lookup j db.users ≡ some u
          → (update_user j f env db).1 ≡ put_users j f db
      changed env db u found = ground arith

  count_failure-grows :
      (now : ℕ) (old u : User) → u.token_version ≤ (count_failure now old u).token_version
  unfolding count_failure
  count_failure-grows now old u = ground arith

  reject_password-AtLeast :
      (crypto : Crypto) (j : ℕ) (u : User)
      → Stable (AtLeast id version) (reject_password crypto j u)
  unfolding reject_password
  reject_password-AtLeast crypto j u =
      Stable-bind (AtLeast id version) {A = ℕ} (Stable-ask (AtLeast id version) (λ env. env.now))
        λ now.
          Stable-bind (AtLeast id version)
            (update_user-AtLeast j (count_failure now u) (count_failure-grows now u))
            λ _.
              Stable-bind (AtLeast id version) (Stable-throw_if (AtLeast id version) _ _)
                λ _. Stable-throw (AtLeast id version) _

  open_session-AtLeast :
      (crypto : Crypto) (j : ℕ) (u : User) → Stable (AtLeast id version) (open_session crypto j u)
  unfolding open_session
  open_session-AtLeast crypto j u =
      Stable-bind (AtLeast id version)
        (Stable-run_if (AtLeast id version) _ (update_user-AtLeast j unlocked (λ u. omega arith)))
        λ _.
          Stable-bind (AtLeast id version) {A = ℕ}
            (Stable-ask (AtLeast id version) (λ env. env.now))
            λ now. Stable-pure (AtLeast id version) _

  login-AtLeast :
      (crypto : Crypto) (email password : String)
      → Stable (AtLeast id version) (login crypto email password)
  unfolding login
  login-AtLeast crypto email password =
      Stable-bind (AtLeast id version) {A = Dict User}
        (Stable-gets (AtLeast id version) (λ db. db.users))
        λ users.
          Stable-bind (AtLeast id version) {A = ℕ × User}
            (Stable-or_throw (AtLeast id version) (user_by_email email users) no_access)
            λ found.
              Stable-bind (AtLeast id version)
                (Stable-throw_if (AtLeast id version) (not found.1.is_active) no_access)
                λ _.
                  Stable-bind (AtLeast id version) {A = ℕ}
                    (Stable-ask (AtLeast id version) (λ env. env.now))
                    λ now.
                      Stable-bind (AtLeast id version)
                        (Stable-throw_if (AtLeast id version) (is_locked now found.1) locked_out)
                        λ _.
                          Stable-if (AtLeast id version)
                            (crypto.compare password found.1.password_hash)
                            (open_session-AtLeast crypto found.0 found.1)
                            (reject_password-AtLeast crypto found.0 found.1)

  find_user-AtLeast : (j : ℕ) → Stable (AtLeast id version) (find_user j)
  find_user-AtLeast j =
      Stable-bind (AtLeast id version) {A = Dict User}
        (Stable-gets (AtLeast id version) (λ db. db.users))
        λ rows. Stable-or_throw (AtLeast id version) (lookup j rows) record_not_found

  change_password-AtLeast :
      (crypto : Crypto) (j : ℕ) (current new : String)
      → Stable (AtLeast id version) (change_password crypto j current new)
  unfolding change_password
  change_password-AtLeast crypto j current new =
      Stable-bind (AtLeast id version)
        (Stable-throw_if (AtLeast id version) (not (crypto.policy new)) bad_policy)
        λ _. Stable-bind (AtLeast id version) {A = User} (find_user-AtLeast j) λ u.
          Stable-bind (AtLeast id version)
            (Stable-throw_if (AtLeast id version) (not (crypto.compare current u.password_hash))
              (unauthorized "Current password is incorrect"))
            λ _. update_user-AtLeast j (with_password (crypto.hash new)) (λ v. omega arith)

  logout-AtLeast : (j : ℕ) → Stable (AtLeast id version) (logout j)
  unfolding logout
  logout-AtLeast j = update_user-AtLeast j bumped (λ v. omega arith)

  unlock_user-AtLeast : (j : ℕ) → Stable (AtLeast id version) (unlock_user j)
  unfolding unlock_user
  unlock_user-AtLeast j = update_user-AtLeast j unlocked (λ v. omega arith)

refresh_session-reads :
    (crypto : Crypto) (token : String) (env : Env) (db : Db)
    → (refresh_session crypto token env db).1 ≡ db
unfolding refresh_session
refresh_session-reads crypto token env db = elim (Option-cases (crypto.verify env.now token)) [
  | inl bad ↦ ground arith
  | inr (access _ _ _ _, e) ↦ ground arith
  | inr (refresh sub version, e) ↦ elim (Option-cases (lookup sub db.users)) [
    | inl missing ↦ ground arith
    | inr (u, found) ↦ ground arith
  ]
]

-- One operation at a time, each with its moment, whether it returns or throws.
perform : Crypto → Operation → Env → Db → Db
perform crypto (log_in email password) env db = (login crypto email password env db).1
perform crypto (unlock id) env db = (unlock_user id env db).1
perform crypto (log_out id) env db = (logout id env db).1
perform crypto (renew token) env db = (refresh_session crypto token env db).1
perform crypto (new_password id current new) env db =
    (change_password crypto id current new env db).1

unfoldable pub perform_all : Crypto → List (Env × Operation) → Db → Db
unfolding perform
perform_all crypto [] db = db
perform_all crypto ((env, o) ∷ os) db = perform_all crypto os (perform crypto o env db)

perform-AtLeast :
    (id version : ℕ) (crypto : Crypto) (o : Operation) (env : Env) (db : Db)
    → AtLeast id version db
    → AtLeast id version (perform crypto o env db)
unfolding perform
perform-AtLeast id version crypto (log_in email password) =
    (login-AtLeast id version crypto email password).run
perform-AtLeast id version crypto (unlock j) = (unlock_user-AtLeast id version j).run
perform-AtLeast id version crypto (log_out j) = (logout-AtLeast id version j).run
perform-AtLeast id version crypto (renew token) =
    λ env db. subst (AtLeast id version) (sym (refresh_session-reads crypto token env db))
perform-AtLeast id version crypto (new_password j current new) =
    (change_password-AtLeast id version crypto j current new).run

perform_all-AtLeast :
    (id version : ℕ) (crypto : Crypto) (os : List (Env × Operation)) (db : Db)
    → AtLeast id version db
    → AtLeast id version (perform_all crypto os db)
unfolding perform_all
perform_all-AtLeast id version crypto [] db i = i
perform_all-AtLeast id version crypto ((env, o) ∷ os) db i =
    perform_all-AtLeast id version crypto os _ (perform-AtLeast id version crypto o env db i)

validate-older :
    (id version : ℕ) (email : String) (role : Role) (env : Env) (db : Db)
    → AtLeast id (version + 1) db
    → validate (access id email role version) env db ≡ (err no_session, db)
unfolding validate
validate-older id version email role env db (u, found, h) = ground arith

refresh_session-older :
    (crypto : Crypto) (id version : ℕ) (token : String) (env : Env) (db : Db)
    → AtLeast id (version + 1) db
    → crypto.verify env.now token ≡ some (refresh id version)
    → refresh_session crypto token env db ≡ (err no_session, db)
unfolding refresh_session
refresh_session-older crypto id version token env db (u, found, h) signed = ground arith

logout-found :
    (id : ℕ) (env : Env) (db : Db) (u : User)
    → lookup id db.users ≡ some u
    → logout id env db ≡ (ok tt, put_users id bumped db)
unfolding logout
logout-found id env db u found = ground arith

logout-raises :
    (id version : ℕ) (env : Env) (db : Db) (u : User)
    → lookup id db.users ≡ some u
    → version ≤ u.token_version
    → AtLeast id (version + 1) (logout id env db).1
logout-raises id version env db u found h = (
  bumped u,
  ap (λ x. lookup id x.1.users) (logout-found id env db u found)
      ∙ lookup-modify_self id bumped db.users u found,
  omega (arith, h),
)

-- After a logout, no token of the account that carries the version of that moment or an older one works
-- again, access or refresh, whatever logins, unlocks, logouts, renewals and changes of password follow.
pub logout_revokes :
    (crypto : Crypto) (id version : ℕ) (env : Env) (db : Db) (u : User)
    → lookup id db.users ≡ some u
    → version ≤ u.token_version
    → (os : List (Env × Operation)) (env' : Env) (email : String) (role : Role) (token : String)
    → crypto.verify env'.now token ≡ some (refresh id version)
    → let db' = perform_all crypto os (logout id env db).1 in
      (validate (access id email role version) env' db' ≡ (err no_session, db'))
      × (refresh_session crypto token env' db' ≡ (err no_session, db'))
logout_revokes crypto id version env db u found h os env' email role token signed =
    let i =
      perform_all-AtLeast id (version + 1) crypto os (logout id env db).1
        (logout-raises id version env db u found h) in
    (
      validate-older id version email role env' _ i,
      refresh_session-older crypto id version token env' _ i signed,
    )
