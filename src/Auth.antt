-- ===== src/Auth.antt =====
-- Sessions and the lockout: backend/src/auth/auth.service.ts, and `validate` of
-- backend/src/auth/strategies/jwt.strategy.ts. The password library (bcrypt) and the token library (JWT) are
-- parameters.
pub mod Lockout
pub mod Sessions
use proman_edge_ace.Prelude.{
  ℕ, ◌+◌, String, Bool, true, false, not, ◌&&◌, ◌||◌, Option, none, some, List, [], ◌∷◌,
  if◌then◌else◌, ◌==◌, nat_eq, string_eq, is_some, leb, ltb,
}
use proman_edge_ace.Prelude.Dict.{Dict, lookup, modify}
use proman_edge_ace.Domain.People.{Role}
use proman_edge_ace.Schema.{Db, User}
use proman_edge_ace.Action.{
  Action, ◌>>=◌, ◌>>◌, pure, ask, gets, modify_db, throw, throw_if, or_throw, run_if, unauthorized,
  bad_request, record_not_found, Error,
}
use proman_edge_ace.Store.{find_user}

-- `AccessTokenPayload` and `RefreshTokenPayload`
pub data Payload : Type 0 where
  access : (sub : ℕ) (email : String) (role : Role) (token_version : ℕ) → Payload
  refresh : (sub token_version : ℕ) → Payload

-- The libraries' operations: `bcrypt.compare`, `bcrypt.hash`, `jwt.sign` with the issuing time, `jwt.verify`
-- at a time, and the test against PASSWORD_POLICY_REGEX.
pub record Crypto : Type 0 where
  pub compare : String → String → Bool
  pub hash : String → String
  pub sign : ℕ → Payload → String
  pub verify : ℕ → String → Option Payload
  pub policy : String → Bool

abbrev pub max_failed_attempts : ℕ
max_failed_attempts = 5

-- `LOCKOUT_MS`
abbrev pub lockout_ms : ℕ
lockout_ms = 1800000

abbrev pub put_users : ℕ → (User → User) → Db → Db
put_users id f db = record db { users = modify id f db.users }

-- `user.update`
abbrev pub update_user : ℕ → (User → User) → Action (Unit {0})
update_user id f = do find_user id; modify_db (put_users id f)

-- `user.findUnique({ where: { email } })`
unfoldable pub user_by_email : String → Dict User → Option (ℕ × User)
user_by_email email [] = none
user_by_email email ((id, u) ∷ us) =
    if u.email == email then some (id, u) else user_by_email email us

-- One more failure; the fifth locks the account and starts the count again.
unfoldable pub count_failure : ℕ → User → User → User
count_failure now old row =
    if leb max_failed_attempts (old.failed_login_attempts + 1)
    then record row { failed_login_attempts = 0; locked_until = some (now + lockout_ms) }
    else record row { failed_login_attempts = old.failed_login_attempts + 1; locked_until = none }

-- Every token that is out is revoked.
abbrev pub bumped : User → User
bumped row = record row { token_version = row.token_version + 1 }

abbrev pub with_password : String → User → User
with_password hash row = record row {
  password_hash = hash;
  must_change_password = false;
  token_version = row.token_version + 1;
}

abbrev pub unlocked : User → User
unlocked row = record row { failed_login_attempts = 0; locked_until = none }

unfoldable pub is_locked : ℕ → User → Bool
is_locked now u = elim u.locked_until [ none ↦ false | some at ↦ ltb now at ]

pub record Session : Type 0 where
  pub access_token : String
  pub refresh_token : String
  pub user_id : ℕ
  pub must_change_password : Bool

abbrev pub bad_policy : Error
bad_policy =
    bad_request
      "Password must be at least 8 characters and include an uppercase letter, a number, and a special character"

abbrev pub no_access : Error
no_access =
    unauthorized
      "You have not been assigned access to any of the modules here, please contact your IT Admin."

abbrev pub locked_out : Error
locked_out = unauthorized "Account locked after too many failed attempts"

abbrev pub no_session : Error
no_session = unauthorized "Session no longer valid"

unfoldable pub unlock_user : ℕ → Action (Unit {0})
unlock_user id = update_user id unlocked

unfoldable pub logout : ℕ → Action (Unit {0})
logout id = update_user id bumped

module _ (crypto : Crypto) where
  abbrev pub sign_access_token : ℕ → ℕ → User → String
  sign_access_token now id u = crypto.sign now (access id u.email u.role u.token_version)

  abbrev pub sign_refresh_token : ℕ → ℕ → User → String
  sign_refresh_token now id u = crypto.sign now (refresh id u.token_version)

  -- The answer to a wrong password.
  unfoldable pub reject_password : ℕ → User → Action Session
  reject_password id u = do
    now ← ask (λ env. env.now)
    update_user id (count_failure now u)
    throw_if (leb max_failed_attempts (u.failed_login_attempts + 1))
        (unauthorized "Account locked for 30 minutes after 5 failed attempts")
    throw (unauthorized "Invalid credentials")

  -- The answer to the right one.
  unfoldable pub open_session : ℕ → User → Action Session
  open_session id u = do
    run_if (ltb 0 u.failed_login_attempts || is_some u.locked_until) (update_user id unlocked)
    now ← ask (λ env. env.now)
    pure (record {
      access_token = sign_access_token now id u;
      refresh_token = sign_refresh_token now id u;
      user_id = id;
      must_change_password = u.must_change_password;
    })

  -- The message on a lock is without its time.
  unfoldable pub login : String → String → Action Session
  login email password = do
    users ← gets (λ db. db.users)
    found ← or_throw (user_by_email email users) no_access
    throw_if (not found.1.is_active) no_access
    now ← ask (λ env. env.now)
    throw_if (is_locked now found.1) locked_out
    if crypto.compare password found.1.password_hash
        then open_session found.0 found.1
        else reject_password found.0 found.1

  unfoldable pub refresh_session : String → Action String
  refresh_session token = do
    now ← ask (λ env. env.now)
    payload ← or_throw (crypto.verify now token) (unauthorized "Invalid or expired refresh token")
    users ← gets (λ db. db.users)
    elim payload [
      | access _ _ _ _ ↦ throw (unauthorized "Invalid token type")
      | refresh sub version ↦ do
        u ← or_throw (lookup sub users) no_session
        throw_if (not (u.is_active && u.token_version == version)) no_session
        pure (sign_access_token now sub u)
    ]

  unfoldable pub change_password : ℕ → String → String → Action (Unit {0})
  change_password id current new = do
    throw_if (not (crypto.policy new)) bad_policy
    u ← find_user id
    throw_if (not (crypto.compare current u.password_hash))
        (unauthorized "Current password is incorrect")
    update_user id (with_password (crypto.hash new))

-- `JwtStrategy.validate`
unfoldable pub validate : Payload → Action (ℕ × Role)
validate payload = elim payload [
  | refresh _ _ ↦ throw (unauthorized "Invalid token type")
  | access sub email role version ↦ do
    users ← gets (λ db. db.users)
    u ← or_throw (lookup sub users) no_session
    throw_if (not (u.is_active && u.token_version == version)) no_session
    pure (sub, role)
]
