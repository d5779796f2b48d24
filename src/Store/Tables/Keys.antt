-- ===== src/Store/Tables/Keys.antt =====
-- Primary keys: no two rows of a table have the same.
use mathlib.Core.Path.{subst}
use proman_edge_ace.Prelude.{
  ℕ, ◌≡◌, ◌≢◌, refl, some, none, some_inj, some_or_none, true, false, sym, ◌∙◌, Bool-cases, nat_beq,
  nat_beq_iff, inl, inr, [], ◌∷◌, All, arith,
}
use proman_edge_ace.Prelude.Dict.{Dict, lookup}

module _ {V : Type 0} where
  abbrev pub IsAbsent : ℕ → Dict V → Type 0
  IsAbsent k = All λ r. k ≢ r.0

  abbrev pub HasDistinctKeys : Dict V → Type 0
  HasDistinctKeys [] = Unit
  HasDistinctKeys ((k, v) ∷ d) = IsAbsent k d × HasDistinctKeys d

  -- Each row is found under its key.
  abbrev pub AreFound : Dict V → Dict V → Type 0
  AreFound table = All λ r. lookup r.0 table ≡ some r.1

  found_below :
      (k : ℕ) (v : V) (d rows : Dict V)
      → IsAbsent k rows
      → AreFound d rows
      → AreFound ((k, v) ∷ d) rows
  found_below k v d [] absent found = tt
  found_below k v d (r ∷ rows) (ne, absent) (f, found) =
      (ground (arith, ne, f), found_below k v d rows absent found)

  pub HasDistinctKeys-AreFound : (d : Dict V) → HasDistinctKeys d → AreFound d d
  HasDistinctKeys-AreFound [] keys = tt
  HasDistinctKeys-AreFound ((k, v) ∷ d) (absent, keys) =
      (ground arith, found_below k v d d absent (HasDistinctKeys-AreFound d keys))

  lookup_head : (k j : ℕ) (w : V) (d : Dict V) → nat_beq j k ≡ true → lookup k ((j, w) ∷ d) ≡ some w
  lookup_head k j w d same = rw same refl

  lookup_tail :
      (k j : ℕ) (w : V) (d : Dict V) → nat_beq j k ≡ false → lookup k ((j, w) ∷ d) ≡ lookup k d
  lookup_tail k j w d other = rw other refl

  pub lookup-IsAbsent : (k : ℕ) (d : Dict V) → lookup k d ≡ none → IsAbsent k d
  lookup-IsAbsent k [] missing = tt
  lookup-IsAbsent k ((j, v) ∷ d) missing = elim (Bool-cases (nat_beq j k)) [
    | inl same ↦ absurd (some_or_none (lookup k ((j, v) ∷ d)) (lookup_head k j v d same) missing)
    | inr other ↦
        (ground (arith, other), lookup-IsAbsent k d (sym (lookup_tail k j v d other) ∙ missing))
  ]

  -- What holds of every row holds of the one under `k`.
  pub lookup-All :
      (P : ℕ → V → Type 0) (k : ℕ) (v : V) (d : Dict V)
      → lookup k d ≡ some v
      → All (λ r. P r.0 r.1) d
      → P k v
  lookup-All P k v [] found all = cc
  lookup-All P k v ((j, w) ∷ d) found (p, all) = elim (Bool-cases (nat_beq j k)) [
    | inl same ↦
        subst (λ i. P i v) ((nat_beq_iff j k).0 same)
          (subst (P j) (some_inj (sym (lookup_head k j w d same) ∙ found)) p)
    | inr other ↦ lookup-All P k v d (sym (lookup_tail k j w d other) ∙ found) all
  ]
