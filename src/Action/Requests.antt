-- ===== src/Action/Requests.antt =====
-- Requests that a service answers one after the other, each at its own time. What a request that throws
-- has written stays written.
use proman_edge_ace.Prelude.{List, [], ◌∷◌, All, ◌≡◌, refl}
use proman_edge_ace.Schema.{Db}
use proman_edge_ace.Env.{Env}
use proman_edge_ace.Action.{Action, Result, ok, err, after, pure, ◌>>◌}

module _ {R : Type 0} (handle : R → Action (Unit {0})) where
  unfoldable pub serve : List (Env × R) → Db → Db
  serve [] db = db
  serve ((env, r) ∷ rs) db = serve rs (handle r env db).1

  -- What each request keeps, all of them keep.
  pub serve-keeps {ℓ} :
      (P : Db → Type ℓ)
      → ((r : R) (env : Env) (db : Db) → P db → P (handle r env db).1)
      → (rs : List (Env × R)) (db : Db) → P db
      → P (serve rs db)
  unfolding serve
  serve-keeps P keeps [] db p = p
  serve-keeps P keeps ((env, r) ∷ rs) db p =
      serve-keeps P keeps rs (handle r env db).1 (keeps r env db p)

  -- The same, where the requests satisfy a condition.
  pub serve-keeps_if {ℓ κ} :
      (C : Env → R → Type κ) (P : Db → Type ℓ)
      → ((r : R) (env : Env) (db : Db) → C env r → P db → P (handle r env db).1)
      → (rs : List (Env × R)) (db : Db) → All (λ q. C q.0 q.1) rs
      → P db
      → P (serve rs db)
  unfolding serve
  serve-keeps_if C P keeps [] db cs p = p
  serve-keeps_if C P keeps ((env, r) ∷ rs) db (c, cs) p =
      serve-keeps_if C P keeps rs (handle r env db).1 cs (keeps r env db c p)

after-discard : {A : Type 0} (env : Env) (r : Result A × Db) → (after (λ _. pure tt) env r).1 ≡ r.1
after-discard env (ok a, db) = refl
after-discard env (err e, db) = refl

-- A call whose answer is not looked at.
pub discard_answer :
    {A : Type 0} (m : Action A) (env : Env) (db : Db)
    → ((m >> pure {A = Unit {0}} tt) env db).1 ≡ (m env db).1
discard_answer m env db = after-discard env (m env db)
