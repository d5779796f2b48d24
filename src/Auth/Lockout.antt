-- ===== src/Auth/Lockout.antt =====
-- The lockout of `login` in backend/src/auth/auth.service.ts: five wrong passwords in a row.
use proman_edge_ace.Prelude.{
  ℕ, suc, ◌+◌, ◌≤◌, ◌<◌, ◌≡◌, sym, String, true, false, none, some, List, [], ◌∷◌, arith, length,
  All, Bool-cases, inl, inr, ◌==◌, string_eq,
}
use mathlib.Core.Path.{subst}
use proman_edge_ace.Prelude.Dict.{Dict, lookup, modify, lookup-modify_self}
use proman_edge_ace.Schema.{Db, User}
use proman_edge_ace.Env.{Env}
use proman_edge_ace.Action.{ok, err}
use proman_edge_ace.Auth.{
  Crypto, login, lockout_ms, locked_out, user_by_email, is_locked, count_failure, put_users,
  reject_password, open_session, Session, sign_access_token, sign_refresh_token,
}

-- The account with this address: its row is the one that its key finds.
pub record Account (id : ℕ) (email : String) (u : User) (db : Db) : Type 0 where
  pub keyed : lookup id db.users ≡ some u
  pub addressed : user_by_email email db.users ≡ some (id, u)

user_by_email-email :
    (email : String) (us : Dict User) (id : ℕ) (u : User)
    → user_by_email email us ≡ some (id, u)
    → (u.email == email) ≡ true
unfolding user_by_email
user_by_email-email email [] id u a = cc
user_by_email-email email ((j, v) ∷ us) id u a = elim (Bool-cases (v.email == email)) [
  | inl e ↦ ground arith
  | inr e ↦ user_by_email-email email us id u (ground arith)
]

user_by_email-modify :
    (email : String) (id : ℕ) (f : User → User) (us : Dict User) (u : User)
    → ((v : User) → (f v).email ≡ v.email)
    → lookup id us ≡ some u
    → user_by_email email us ≡ some (id, u)
    → user_by_email email (modify id f us) ≡ some (id, f u)
unfolding user_by_email
user_by_email-modify email id f [] u same k a = cc
user_by_email-modify email id f ((j, v) ∷ us) u same k a =
    ground
      (arith, user_by_email-modify email id f us u same, same v, user_by_email-email email us id u)

put_users-Account :
    (id : ℕ) (email : String) (f : User → User) (u : User) (db : Db)
    → ((v : User) → (f v).email ≡ v.email)
    → Account id email u db
    → Account id email (f u) (put_users id f db)
put_users-Account id email f u db same a = record {
  keyed = lookup-modify_self id f db.users u a.keyed;
  addressed = user_by_email-modify email id f db.users u same a.keyed a.addressed;
}

count_failure-email : (now : ℕ) (old v : User) → (count_failure now old v).email ≡ v.email
unfolding count_failure
count_failure-email now old v = ground arith

-- An active account without a lock, after `n` wrong passwords.
pub record Failing (crypto : Crypto) (hash : String) (n : ℕ) (u : User) : Type 0 where
  pub active : u.is_active ≡ true
  pub counted : u.failed_login_attempts ≡ n
  pub unlocked : u.locked_until ≡ none
  pub hashed : u.password_hash ≡ hash

module _ (crypto : Crypto) (id : ℕ) (email hash : String) where
  login-wrong :
      (n : ℕ) (u : User) (env : Env) (db : Db) (password : String)
      → Account id email u db
      → Failing crypto hash n u
      → crypto.compare password hash ≡ false
      → (login crypto email password env db).1 ≡ put_users id (count_failure env.now u) db
  unfolding login reject_password is_locked
  login-wrong n u env db password a f wrong =
      ground (arith, a.addressed, a.keyed, f.active, f.unlocked, f.hashed)

  count_failure-Failing :
      (n : ℕ) (u : User) (now : ℕ)
      → Failing crypto hash n u
      → n < 4
      → Failing crypto hash (suc n) (count_failure now u u)
  unfolding count_failure
  count_failure-Failing n u now f few = record {
    active = ground (arith, f.active, f.counted);
    counted = ground (arith, f.counted);
    unlocked = ground (arith, f.counted);
    hashed = ground (arith, f.hashed, f.counted);
  }

  count_failure-locks :
      (u : User) (now : ℕ)
      → Failing crypto hash 4 u
      → ((count_failure now u u).locked_until ≡ some (now + lockout_ms))
        × ((count_failure now u u).is_active ≡ true)
  unfolding count_failure
  count_failure-locks u now f = (ground (arith, f.counted), ground (arith, f.active))

  login-locked :
      (u : User) (env : Env) (db : Db) (password : String) (at : ℕ)
      → Account id email u db
      → u.is_active ≡ true
      → u.locked_until ≡ some at
      → env.now < at
      → login crypto email password env db ≡ (err locked_out, db)
  unfolding login is_locked
  login-locked u env db password at a active locked early = ground (arith, a.addressed)

  login-right :
      (n : ℕ) (u : User) (env : Env) (db : Db) (password : String)
      → Account id email u db
      → Failing crypto hash n u
      → crypto.compare password hash ≡ true
      → (s : Session) × ((login crypto email password env db).0 ≡ ok s)
  unfolding login is_locked open_session
  login-right n u env db password a f right = (
    record {
      access_token = sign_access_token crypto env.now id u;
      refresh_token = sign_refresh_token crypto env.now id u;
      user_id = id;
      must_change_password = u.must_change_password;
    },
    ground (arith, a.addressed, a.keyed, f.active, f.unlocked, f.hashed),
  )

  -- The logins with the given passwords, each at its moment.
  unfoldable pub attempts : List (Env × String) → Db → Db
  attempts [] db = db
  attempts ((env, password) ∷ tries) db = attempts tries (login crypto email password env db).1

  abbrev pub Wrong : Env × String → Type 0
  Wrong t = crypto.compare t.1 hash ≡ false

  abbrev Fails : ℕ → Db → Type 0
  Fails n db = (u : User) × Account id email u db × Failing crypto hash n u

  attempts-Fails :
      (tries : List (Env × String)) (n : ℕ) (db : Db)
      → All Wrong tries
      → length tries + n ≤ 4
      → Fails n db
      → Fails (length tries + n) (attempts tries db)
  unfolding attempts
  attempts-Fails [] n db w few i = subst (λ k. Fails k db) (omega arith) i
  attempts-Fails ((env, password) ∷ tries) n db (wrong, w) few (u, a, f) =
      subst (λ k. Fails k (attempts tries (login crypto email password env db).1)) (omega arith)
        (attempts-Fails tries (suc n) (login crypto email password env db).1 w (omega (arith, few))
          (subst (λ d. Fails (suc n) d) (sym (login-wrong n u env db password a f wrong))
            (
              count_failure env.now u u,
              put_users-Account id email (count_failure env.now u) u db
                  (count_failure-email env.now u) a,
              count_failure-Failing n u env.now f (omega (arith, few)),
            )))

-- For an active account without a lock and without failures: after four wrong passwords in a row, at any
-- times, the right one still opens a session. A fifth wrong one, however long after the first, locks the
-- account: a login in the 30 minutes that follow throws, whatever the password, and writes nothing.
pub fifth_failure_locks :
    (crypto : Crypto) (id : ℕ) (email hash : String) (u : User) (db : Db)
    (tries : List (Env × String))
    → Account id email u db
    → Failing crypto hash 0 u
    → length tries ≡ 4
    → All (Wrong crypto id email hash) tries
    → (env : Env) (right : String) → crypto.compare right hash ≡ true
    → (wrong' : String) → crypto.compare wrong' hash ≡ false
    → (env' : Env) (password : String) → env'.now < env.now + lockout_ms
    → let db4 = attempts crypto id email hash tries db in
      let db5 = (login crypto email wrong' env db4).1 in
      ((s : Session) × ((login crypto email right env db4).0 ≡ ok s))
      × (login crypto email password env' db5 ≡ (err locked_out, db5))
fifth_failure_locks crypto id email hash u db tries a f four wrong env right good wrong' bad env'
      password early =
    let (v, b, g) =
      subst (λ k. Fails crypto id email hash k (attempts crypto id email hash tries db))
        (omega (arith, four))
        (attempts-Fails crypto id email hash tries 0 db wrong (omega (arith, four)) (u, a, f)) in
    let db4 = attempts crypto id email hash tries db in
    let w = login-wrong crypto id email hash 4 v env db4 wrong' b g bad in
    let c =
      put_users-Account id email (count_failure env.now v) v db4 (count_failure-email env.now v)
        b in
    let (lock, active) = count_failure-locks crypto id email hash v env.now g in
    (
      login-right crypto id email hash 4 v env db4 right b g good,
      login-locked crypto id email hash (count_failure env.now v v) env'
          ((login crypto email wrong' env db4).1) password (env.now + lockout_ms)
          (subst (Account id email (count_failure env.now v v)) (sym w) c) active lock early,
    )
