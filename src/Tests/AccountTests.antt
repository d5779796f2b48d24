-- ===== src/Tests/AccountTests.antt =====
-- The theorems on sessions, each at a concrete input.
use proman_edge_ace.Prelude.{
  ◌≡◌, refl, String, true, none, some, List, [], ◌∷◌, ◌==◌, string_eq, arith,
}
use proman_edge_ace.Domain.Ticketing.{«open»}
use proman_edge_ace.Domain.People.{engineer}
use proman_edge_ace.Schema.{Db}
use proman_edge_ace.Env.{Env}
use proman_edge_ace.Action.{ok, err}
use proman_edge_ace.Auth.{
  Crypto, access, refresh, Session, login, logout, validate, refresh_session, no_session,
  locked_out, user_by_email,
}
use proman_edge_ace.Auth.Sessions.{Operation, log_in, unlock, perform_all, logout_revokes}
use proman_edge_ace.Auth.Lockout.{attempts, fifth_failure_locks}
use proman_edge_ace.Tests.Fixtures.{at_time, user, ticket, db_with}

-- Passwords are their own hashes, and one token is good.
abbrev plain_crypto : Crypto
plain_crypto = record {
  compare = λ password hash. password == hash;
  hash = λ password. password;
  sign = λ now payload. "token";
  verify = λ now token. some (refresh 2 0);
  policy = λ password. true;
}

abbrev db : Db
db = db_with (ticket «open» none 0)

abbrev later_calls : List (Env × Operation)
later_calls = (at_time 3000, log_in "eshan" "secret") ∷ (at_time 4000, unlock 2) ∷ []

logout_revokes_example :
    (validate
        (access 2 "eshan" engineer 0)
        (at_time 5000)
        (perform_all plain_crypto later_calls (logout 2 (at_time 2000) db).1)
      ≡ (err no_session, perform_all plain_crypto later_calls (logout 2 (at_time 2000) db).1))
    × (refresh_session plain_crypto "token"
          (at_time 5000)
          (perform_all plain_crypto later_calls (logout 2 (at_time 2000) db).1)
        ≡ (err no_session, perform_all plain_crypto later_calls (logout 2 (at_time 2000) db).1))
logout_revokes_example =
    logout_revokes plain_crypto 2 0 (at_time 2000) db (user "eshan" engineer) refl (omega arith)
      later_calls (at_time 5000) "eshan" engineer "token" refl

abbrev four_tries : List (Env × String)
four_tries =
    (at_time 1000, "a") ∷ (at_time 2000, "b") ∷ (at_time 3000, "c") ∷ (at_time 4000, "d") ∷ []

abbrev after_four : Db
after_four = attempts plain_crypto 2 "eshan" "secret" four_tries db

fifth_failure_locks_example :
    ((s : Session) × ((login plain_crypto "eshan" "secret" (at_time 5000) after_four).0 ≡ ok s))
    × (login plain_crypto "eshan" "secret"
          (at_time 6000)
          (login plain_crypto "eshan" "e" (at_time 5000) after_four).1
        ≡ (err locked_out, (login plain_crypto "eshan" "e" (at_time 5000) after_four).1))
unfolding user_by_email
fifth_failure_locks_example =
    fifth_failure_locks plain_crypto 2 "eshan" "secret" (user "eshan" engineer) db four_tries
      (record { keyed = refl; addressed = refl })
      (record { active = refl; counted = refl; unlocked = refl; hashed = refl }) refl
      (refl, (refl, (refl, (refl, tt)))) (at_time 5000) "secret" refl "e" refl (at_time 6000)
      "secret" (omega arith)
