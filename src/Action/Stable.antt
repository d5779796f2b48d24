-- ===== src/Action/Stable.antt =====
-- What a call leaves true of the database, whether it returns or throws.
use proman_edge_ace.Prelude.{
  sym, ap, ◌∙◌, Bool, true, false, Option, none, some, List, if◌then◌else◌, ℕ, String,
}
use mathlib.Core.Path.{subst}
use proman_edge_ace.Schema.{Db, AuditEntry, NotificationLog}
use proman_edge_ace.Env.{Env}
use proman_edge_ace.Action.{
  Action, Result, ok, err, after, ◌>>=◌, pure, gets, ask, run_if, throw, throw_if, or_throw, Error,
}
use proman_edge_ace.Notifications.Failsafe.{Quiet, logged}

pub record Stable {A : Type 0} (I : Db → Type 0) (m : Action A) : Type 0 where
  pub run : (env : Env) (db : Db) → I db → I (m env db).1

module _ (I : Db → Type 0) where
  after-Stable :
      {A B : Type 0} (f : A → Action B) (env : Env) (x : Result A × Db)
      → ((a : A) → Stable I (f a))
      → I x.1
      → I (after f env x).1
  after-Stable f env (ok a, db) s i = (s a).run env db i
  after-Stable f env (err e, db) s i = i

  pub Stable-bind :
      {A B : Type 0} {m : Action A} {f : A → Action B}
      → Stable I m
      → ((a : A) → Stable I (f a))
      → Stable I (m >>= f)
  Stable-bind {m} {f} s r = record {
    run = λ env db i. after-Stable f env (m env db) r (s.run env db i);
  }

  pub Stable-pure : {A : Type 0} (a : A) → Stable I (pure a)
  Stable-pure a = record { run = λ env db i. i }

  pub Stable-gets : {A : Type 0} (f : Db → A) → Stable I (gets f)
  Stable-gets f = record { run = λ env db i. i }

  pub Stable-ask : {A : Type 0} (f : Env → A) → Stable I (ask f)
  Stable-ask f = record { run = λ env db i. i }

  pub Stable-throw : {A : Type 0} (e : Error) → Stable I (throw {A = A} e)
  Stable-throw e = record { run = λ env db i. i }

  pub Stable-throw_if : (c : Bool) (e : Error) → Stable I (throw_if c e)
  Stable-throw_if true e = Stable-throw e
  Stable-throw_if false e = Stable-pure tt

  pub Stable-or_throw : {A : Type 0} (o : Option A) (e : Error) → Stable I (or_throw o e)
  Stable-or_throw none e = Stable-throw e
  Stable-or_throw (some a) e = Stable-pure a

  pub Stable-run_if : (c : Bool) {m : Action (Unit {0})} → Stable I m → Stable I (run_if c m)
  Stable-run_if true s = s
  Stable-run_if false s = Stable-pure tt

  pub Stable-if :
      {A : Type 0} (c : Bool) {m n : Action A}
      → Stable I m
      → Stable I n
      → Stable I (if c then m else n)
  Stable-if true s r = s
  Stable-if false s r = r

  -- A call that changes no more than the logs and the push tokens.
  pub Quiet-Stable :
      {A : Type 0} {m : Action A}
      → ((db : Db) (audits : List AuditEntry) (notes : List NotificationLog)
            (tokens : List (String × ℕ))
          → I db
          → I (logged db audits notes tokens))
      → Quiet m
      → Stable I m
  Quiet-Stable respects q = record {
    run = λ env db i.
        let (a, db', e, k) = q.run env db in
        subst I (sym (ap (λ x. x.1) e ∙ k.same)) (respects db _ _ _ i);
  }
