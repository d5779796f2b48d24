-- ===== src/Prelude/Dict.antt =====
-- A database table as rows under their primary keys, in the order of insertion.
use Prim.Native.Nat.{ℕ, suc, max}
use mathlib.Core.Path.{◌≡◌, refl}
use mathlib.Core.Logic.{◌≢◌}
use mathlib.Core.Option.{Option, none, some}
use mathlib.Core.List.{List, [], ◌∷◌, ◌++◌}
use native.Mathlib.Omega.{arith}
use proman_edge_ace.Prelude.Tests.{if◌then◌else◌, nat_beq}

abbrev pub Dict {ℓ} : Type ℓ → Type ℓ
Dict V = List (ℕ × V)

module _ {ℓ} {V : Type ℓ} where
  abbrev pub lookup : ℕ → Dict V → Option V
  lookup k [] = none
  lookup k ((j, v) ∷ d) = if nat_beq j k then some v else lookup k d

  -- The row under `k` changed by `f`; nothing where there is none.
  abbrev pub modify : ℕ → (V → V) → Dict V → Dict V
  modify k f [] = []
  modify k f ((j, v) ∷ d) = if nat_beq j k then (j, f v) ∷ d else (j, v) ∷ modify k f d

  -- The table without the row under `k`.
  abbrev pub remove : ℕ → Dict V → Dict V
  remove k [] = []
  remove k ((j, v) ∷ d) = let rest = remove k d in if nat_beq j k then d else (j, v) ∷ rest

  -- A key above all that are in use: the identifier that the database generates for a new row.
  abbrev pub fresh : Dict V → ℕ
  fresh [] = 0
  fresh ((j, v) ∷ d) = max (suc j) (fresh d)

  abbrev pub insert : ℕ → V → Dict V → Dict V
  insert k v d = d ++ (k, v) ∷ []

  pub lookup-modify_self :
      (k : ℕ) (f : V → V) (d : Dict V) (v : V)
      → lookup k d ≡ some v
      → lookup k (modify k f d) ≡ some (f v)
  lookup-modify_self k f [] v h = cc
  lookup-modify_self k f ((j, w) ∷ d) v h = ground (arith, lookup-modify_self k f d v)

  pub lookup-modify_ne :
      (j k : ℕ) (f : V → V) (d : Dict V) → j ≢ k → lookup j (modify k f d) ≡ lookup j d
  lookup-modify_ne j k f [] h = refl
  lookup-modify_ne j k f ((i, w) ∷ d) h = ground (arith, lookup-modify_ne j k f d h)

  -- What is on file stays when a row comes in at the end.
  pub lookup-insert :
      (k j : ℕ) (new old : V) (d : Dict V)
      → lookup k d ≡ some old
      → lookup k (insert j new d) ≡ some old
  lookup-insert k j new old [] h = cc
  lookup-insert k j new old ((i, x) ∷ d) h = ground (arith, lookup-insert k j new old d)
