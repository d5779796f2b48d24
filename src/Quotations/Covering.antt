-- ===== src/Quotations/Covering.antt =====
-- Which tickets are covered: `getChargeability` of
-- backend/src/ticketing/quotations/quotation.service.ts.
use proman_edge_ace.Prelude.{
  ℕ, ◌≡◌, ◌≤◌, sym, ap, ◌⊎◌, inl, inr, ◌↔◌, true, false, some, List, [], ◌∷◌, arith, is_some,
  nat_beq, nat_beq_iff, nat_eq, Option-cases, Bool-cases,
}
use proman_edge_ace.Prelude.Dict.{Dict, lookup}
use proman_edge_ace.Prelude.Members.{In}
use proman_edge_ace.Schema.{Db, Ticket, AmcContract}
use proman_edge_ace.Quotations.Chargeability.{
  chargeability_of, is_charged, contracts_of, first_current, is_current,
}

-- A contract of the machine that runs at the time.
pub record Runs (now e : ℕ) (links : List (ℕ × ℕ)) (rows : Dict AmcContract) : Type 0 where
  pub id : ℕ
  pub contract : AmcContract
  pub linked : In (id, e) links
  pub on_file : lookup id rows ≡ some contract
  pub started : contract.start_date ≤ now
  pub not_over : now ≤ contract.end_date

-- The ticket's machine is under a running contract, or the ticket has warranty.
abbrev pub IsCovered : ℕ → Ticket → Db → Type 0
IsCovered now t db =
    (t.warranty_eligible ≡ true)
    ⊎ ((e : ℕ) × (t.equipment_id ≡ some e) × Runs now e db.covered db.contracts)

module _ (now e : ℕ) (rows : Dict AmcContract) where
  Runs-skip :
      (l : ℕ × ℕ) (links : List (ℕ × ℕ)) → Runs now e links rows → Runs now e (l ∷ links) rows
  Runs-skip l links r = record {
    id = r.id;
    contract = r.contract;
    linked = inr r.linked;
    on_file = r.on_file;
    started = r.started;
    not_over = r.not_over;
  }

  current-Runs :
      (links : List (ℕ × ℕ))
      → is_some (first_current now (contracts_of e links rows)) ≡ true
      → Runs now e links rows
  current-Runs [] h = absurd (ground (arith, h))
  current-Runs ((k, f) ∷ links) h = elim (Option-cases (lookup k rows)) [
    | inl missing ↦ Runs-skip (k, f) links (current-Runs links (ground (arith, h, missing)))
    | inr (c, found) ↦ elim (Bool-cases (nat_beq f e)) [
      | inr other ↦ Runs-skip (k, f) links (current-Runs links (ground (arith, h, found, other)))
      | inl same ↦ elim (Bool-cases (is_current now c)) [
        | inr over ↦
            Runs-skip (k, f) links (current-Runs links (ground (arith, h, found, same, over)))
        | inl runs ↦ record {
          id = k;
          contract = c;
          linked = inl (ap (λ x. (k, x)) (sym ((nat_beq_iff f e).0 same)));
          on_file = found;
          started = ground (arith, runs);
          not_over = ground (arith, runs);
        }
      ]
    ]
  ]

  Runs-current :
      (links : List (ℕ × ℕ)) (id : ℕ) (c : AmcContract)
      → In (id, e) links
      → lookup id rows ≡ some c
      → c.start_date ≤ now
      → now ≤ c.end_date
      → is_some (first_current now (contracts_of e links rows)) ≡ true
  Runs-current [] id c i found started not_over = absurd i
  Runs-current ((k, f) ∷ links) id c (inl at) found started not_over =
      let here = ap (λ (x : ℕ × ℕ). x.0) at in
      let there = ap (λ (x : ℕ × ℕ). x.1) at in
      ground (arith, here, there, found, started, not_over)
  Runs-current ((k, f) ∷ links) id c (inr i) found started not_over =
      let rest = Runs-current links id c i found started not_over in
      elim (Option-cases (lookup k rows)) [
        | inl missing ↦ ground (arith, rest, missing)
        | inr (d, known) ↦ ground (arith, rest, known)
      ]

pub uncharged_iff :
    (now : ℕ) (t : Ticket) (db : Db)
    → (is_charged (chargeability_of now t db) ≡ false) ↔ IsCovered now t db
unfolding chargeability_of
uncharged_iff now t db = (
  λ h. elim (Bool-cases t.warranty_eligible) [
    | inl warranty ↦ inl warranty
    | inr plain ↦ elim (Option-cases t.equipment_id) [
      | inl missing ↦ absurd (ground (arith, h, plain, missing))
      | inr (e, given) ↦
          inr
            (e, given, current-Runs now e db.contracts db.covered (ground (arith, h, plain, given)))
    ]
  ],
  λ c. elim c [
    | inl warranty ↦ ground (arith, warranty)
    | inr (e, given, r) ↦
        let runs =
          Runs-current now e db.contracts db.covered r.id r.contract r.linked r.on_file r.started
            r.not_over in
        ground (arith, given, runs)
  ],
)
