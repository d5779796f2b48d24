-- ===== src/Store/Tables/Every.antt =====
-- What holds of every row of a table, under the writes of one row.
use proman_edge_ace.Prelude.{
  ℕ, ◌≡◌, Bool, Bool-cases, inl, inr, refl, true, false, some, some_inj, [], ◌∷◌, All, All-append,
  arith, nat_beq, if◌then◌else◌,
}
use proman_edge_ace.Prelude.Dict.{Dict, lookup, modify, insert, remove}

module _ {V : Type 0} (P : V → Type 0) where
  abbrev pub Every : Dict V → Type 0
  Every = All λ r. P r.1

  pub Every-modify :
      (id : ℕ) (f : V → V) (d : Dict V)
      → ((v : V) → lookup id d ≡ some v → P v → P (f v))
      → Every d
      → Every (modify id f d)
  Every-modify id f [] keeps all = tt
  Every-modify id f ((j, v) ∷ d) keeps (p, all) = elim (Bool-cases (nat_beq j id)) [
    | inl same ↦ ground (arith, same, keeps v (rw same refl) p, all)
    | inr other ↦
        ground (arith, other, p, Every-modify id f d (λ w found. keeps w (rw other found)) all)
  ]

  pub Every-insert : (id : ℕ) (v : V) (d : Dict V) → P v → Every d → Every (insert id v d)
  Every-insert id v d p all = All-append (λ r. P r.1) d ((id, v) ∷ []) all (p, tt)

  pub Every-remove : (id : ℕ) (d : Dict V) → Every d → Every (remove id d)
  Every-remove id [] all = tt
  Every-remove id ((j, v) ∷ d) (p, all) = ground (arith, Every-remove id d all)

  -- A row that is on file has the property.
  pub Every-lookup : (id : ℕ) (v : V) (d : Dict V) → lookup id d ≡ some v → Every d → P v
  Every-lookup id v [] e all = cc
  Every-lookup id v ((j, w) ∷ d) e (p, all) =
      head_or_tail (nat_beq j id) e (λ same. rw (← some_inj same) p)
        (λ rest. Every-lookup id v d rest all)
    where
      head_or_tail :
          (b : Bool)
          → (if b then some w else lookup id d) ≡ some v
          → (some w ≡ some v → P v)
          → (lookup id d ≡ some v → P v)
          → P v
      head_or_tail true same here there = here same
      head_or_tail false rest here there = there rest
