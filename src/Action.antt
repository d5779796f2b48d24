-- ===== src/Action.antt =====
-- A call into the service layer: it reads its environment, reads and writes the database, and returns
-- or throws. What was written before a throw stays written, unless the call is a transaction.
pub mod Stable
pub mod Requests
use proman_edge_ace.Prelude.{
  ℕ, String, ◌≡◌, ap, Bool, true, false, Option, none, some, List, [], ◌∷◌, if◌then◌else◌,
}
use proman_edge_ace.Schema.{Db}
use proman_edge_ace.Env.{Env}

-- The exception's class, with its message.
pub data Error : Type 0 where
  bad_request : String → Error
  forbidden : String → Error
  not_found : String → Error
  unauthorized : String → Error
  conflict : String → Error
  plain : String → Error  -- `new Error`
  record_not_found : Error  -- thrown by Prisma's `findUniqueOrThrow` and `update`

pub data Result {ℓ} (A : Type ℓ) : Type ℓ where
  ok : A → Result A
  err : Error → Result A

abbrev pub Action : Type 0 → Type 0
Action A = Env → Db → Result A × Db

module _ {A : Type 0} where
  abbrev pub pure : A → Action A
  pure a env db = (ok a, db)

  abbrev pub throw : Error → Action A
  throw e env db = (err e, db)

  abbrev pub ask : (Env → A) → Action A
  ask f env db = (ok (f env), db)

  abbrev pub gets : (Db → A) → Action A
  gets f env db = (ok (f db), db)

  abbrev pub or_throw : Option A → Error → Action A
  or_throw none e = throw e
  or_throw (some a) e = pure a

  -- `prisma.$transaction`: nothing stays written if the body throws.
  abbrev pub transaction : Action A → Action A
  transaction m env db =
      let (r, db') = m env db in elim r [ ok a ↦ (ok a, db') | err e ↦ (err e, db) ]

  -- `try`, with the exception as a value.
  abbrev pub attempt : Action A → Action (Result A)
  attempt m env db = let (r, db') = m env db in (ok r, db')

abbrev pub after : {A B : Type 0} → (A → Action B) → Env → Result A × Db → Result B × Db
after f env (ok a, db) = f a env db
after f env (err e, db) = (err e, db)

infixl 5 ◌>>=◌ ◌>>◌
abbrev pub ◌>>=◌ : {A B : Type 0} → Action A → (A → Action B) → Action B
◌>>=◌ m f env db = after f env (m env db)

abbrev pub ◌>>◌ : {A B : Type 0} → Action A → Action B → Action B
m >> k = m >>= λ _. k

abbrev pub modify_db : (Db → Db) → Action (Unit {0})
modify_db f env db = (ok tt, f db)

-- `if (c) throw e;`
abbrev pub throw_if : Bool → Error → Action (Unit {0})
throw_if true e = throw e
throw_if false e = pure tt

-- The checks before a write: the exception of the first that fails.
abbrev pub first_error : List (Bool × Error) → Option Error
first_error [] = none
first_error ((true, e) ∷ checks) = some e
first_error ((false, _) ∷ checks) = first_error checks

abbrev pub throw_some : Option Error → Action (Unit {0})
throw_some none = pure tt
throw_some (some e) = throw e

-- `if (c) m;`
abbrev pub run_if : Bool → Action (Unit {0}) → Action (Unit {0})
run_if c m = if c then m else pure tt

-- `if (o) m(o);`
abbrev pub with_some : {A : Type 0} → Option A → (A → Action (Unit {0})) → Action (Unit {0})
with_some none m = pure tt
with_some (some a) m = m a

-- `for (const x of xs) m(x);`
unfoldable pub for_each : {A : Type 0} → List A → (A → Action (Unit {0})) → Action (Unit {0})
for_each [] m = pure tt
for_each (x ∷ xs) m = do m x; for_each xs m

pub err_is_not_ok :
    {A : Type 0} {e : Error} {a : A} {x y : Db} → ◌≡◌ {A = Result A × Db} (err e, x) (ok a, y) → ⊥
err_is_not_ok h = cc

abbrev pub answer : {A : Type 0} → A → Result A → A
answer d (ok x) = x
answer d (err _) = d

pub ok_inj : {A : Type 0} {a b : A} → ok a ≡ ok b → a ≡ b
ok_inj {a = a} h = ap (answer a) h
