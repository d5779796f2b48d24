-- ===== src/Contracts/Overlaps.antt =====
-- The warnings of overlapping contracts: `findOverlaps` of
-- backend/src/ticketing/amc/amc-contract.service.ts.
use mathlib.Core.Path.{subst}
use mathlib.Core.List.{◌++◌ as append}
use proman_edge_ace.Prelude.{
  ◌≢◌, ◌≤◌, get_or, arith, Option, none, some, ℕ, ◌≡◌, refl, sym, ◌∙◌, ap, inl, inr, ◌↔◌, true,
  false, List, [], ◌∷◌, keep, includes, nat_eq, Bool-cases,
}
use mathlib.Core.Option
use proman_edge_ace.Prelude.Dict.{Dict, lookup}
use proman_edge_ace.Prelude.Members.{In, In-append, In-keep, In-map, In-includes, In-partners}
use proman_edge_ace.Schema.{Db, AmcContract, Equipment}
use proman_edge_ace.Contracts.{
  Overlap, overlaps_among, overlaps_with, is_overlapping, machines_of, serial_of,
}

-- The warning that the contract `r` covers the machine `m` too
abbrev warning : Db → ℕ × AmcContract → ℕ → Overlap
warning db r m = record {
  equipment_id = m;
  equipment_serial_no = serial_of m db.equipment;
  other_contract_ref_no = r.1.contract_reference_no;
}

-- The same, as the code tests it
abbrev IsFound : Db → ℕ → List ℕ → ℕ → ℕ → Dict AmcContract → Overlap → Type 0
IsFound db self machines start end' rows w =
    (r : ℕ × AmcContract) × (m : ℕ) × In r rows
    × (is_overlapping self start end' r ≡ true)
    × In m (machines_of r.0 db.covered)
    × (includes machines m ≡ true)
    × (w ≡ warning db r m)

overlaps_with_iff :
    (db : Db) (machines : List ℕ) (r : ℕ × AmcContract) (w : Overlap)
    → In w (overlaps_with db machines r) ↔ (
        (m : ℕ) × In m (machines_of r.0 db.covered)
        × (includes machines m ≡ true)
        × (w ≡ warning db r m))
overlaps_with_iff db machines (id, c) w = (
  λ h.
      let (m, i, e) =
        (In-map (warning db (id, c)) w (keep (includes machines) (machines_of id db.covered))).0
          h in
      let (j, q) = (In-keep (includes machines) m (machines_of id db.covered)).0 i in (m, j, q, e),
  λ (m, j, q, e).
      (In-map (warning db (id, c)) w (keep (includes machines) (machines_of id db.covered))).1
        (m, (In-keep (includes machines) m (machines_of id db.covered)).1 (j, q), e),
)

tested_iff :
    (db : Db) (self : ℕ) (machines : List ℕ) (start end' : ℕ) (rows : Dict AmcContract)
    (w : Overlap)
    → In w (overlaps_among db self machines start end' rows)
      ↔ IsFound db self machines start end' rows w
unfolding overlaps_among
tested_iff db self machines start end' [] w = (λ h. absurd h, λ (r, m, i, ov, j, q, e). absurd i)
tested_iff db self machines start end' (r ∷ rows) w =
    let (to, from) = tested_iff db self machines start end' rows w in
    let rest = overlaps_among db self machines start end' rows in
    elim (Bool-cases (is_overlapping self start end' r)) [
      | inl meets ↦ (
        λ h.
            elim ((In-append w (overlaps_with db machines r) rest).0
              (subst (In w) (kept meets) h)) [
                | inl here ↦
                    let (m, j, q, e) = (overlaps_with_iff db machines r w).0 here in
                    (r, m, inl refl, meets, j, q, e)
                | inr there ↦ further (to there)
              ],
        λ (s, m, i, ov, j, q, e). subst (In w) (sym (kept meets)) (
            (In-append w (overlaps_with db machines r) rest).1 (elim i [
              | inl same ↦ inl ((overlaps_with_iff db machines r w).1 (moved same (m, j, q, e)))
              | inr k ↦ inr (from (s, m, k, ov, j, q, e))
            ])),
      )
      | inr apart ↦ (
        λ h. further (to (subst (In w) (dropped apart) h)),
        λ (s, m, i, ov, j, q, e). subst (In w) (sym (dropped apart)) (elim i [
          | inl same ↦ absurd (differ s same ov apart)
          | inr k ↦ from (s, m, k, ov, j, q, e)
        ]),
      )
    ]
  where
    kept :
        is_overlapping self start end' r ≡ true
        → overlaps_among db self machines start end' (r ∷ rows)
          ≡ append (overlaps_with db machines r) (overlaps_among db self machines start end' rows)
    kept e = rw e refl

    dropped :
        is_overlapping self start end' r ≡ false
        → overlaps_among db self machines start end' (r ∷ rows)
          ≡ overlaps_among db self machines start end' rows
    dropped e = rw e refl

    further :
        IsFound db self machines start end' rows w
        → IsFound db self machines start end' (r ∷ rows) w
    further (s, m, i, ov, j, q, e) = (s, m, inr i, ov, j, q, e)

    Here : ℕ × AmcContract → Type 0
    Here s =
        (m : ℕ) × In m (machines_of s.0 db.covered)
        × (includes machines m ≡ true)
        × (w ≡ warning db s m)

    moved : {s : ℕ × AmcContract} → s ≡ r → Here s → Here r
    moved same h = subst Here same h

    differ :
        (s : ℕ × AmcContract)
        → s ≡ r
        → is_overlapping self start end' s ≡ true
        → is_overlapping self start end' r ≡ false
        → ⊥
    differ s same ov apart = cc

-- A machine of the request under another contract whose dates meet the given ones.
pub record IsOverlap (db : Db) (self : ℕ) (machines : List ℕ) (start end' : ℕ)
    (rows : Dict AmcContract) (w : Overlap) : Type 0 where
  pub id : ℕ
  pub contract : AmcContract
  pub on_file : In (id, contract) rows
  pub another : id ≢ self
  pub starts : contract.start_date ≤ end'
  pub ends : start ≤ contract.end_date
  pub covered : In (id, w.equipment_id) db.covered
  pub asked_for : In w.equipment_id machines
  pub serial :
      w.equipment_serial_no
      ≡ get_or (Option.map (λ e. e.serial_no) (lookup w.equipment_id db.equipment)) ""
  pub reference : w.other_contract_ref_no ≡ contract.contract_reference_no

overlapping_iff :
    (self start end' : ℕ) (r : ℕ × AmcContract)
    → (is_overlapping self start end' r ≡ true)
      ↔ ((r.0 ≢ self) × (r.1.start_date ≤ end') × (start ≤ r.1.end_date))
unfolding is_overlapping
overlapping_iff self start end' (id, c) = (λ h. ground (arith, h), λ h. ground (arith, h))

serial-is :
    (m : ℕ) (rows : Dict Equipment)
    → serial_of m rows ≡ get_or (Option.map (λ e. e.serial_no) (lookup m rows)) ""
serial-is m rows = each (lookup m rows)
  where
    each :
        (o : Option Equipment)
        → (elim o [ none ↦ "" | some e ↦ e.serial_no ])
          ≡ get_or (Option.map (λ e. e.serial_no) o) ""
    each none = refl
    each (some e) = refl

module _ (db : Db) (self : ℕ) (machines : List ℕ) (start end' : ℕ) (rows : Dict AmcContract)
    (w : Overlap) where
  IsFound-IsOverlap :
      IsFound db self machines start end' rows w → IsOverlap db self machines start end' rows w
  IsFound-IsOverlap (r, m, i, ov, j, q, e) =
      let (ne, starts, ends) = (overlapping_iff self start end' r).0 ov in
      let same : m ≡ w.equipment_id = ap (λ (x : Overlap). x.equipment_id) (sym e) in
      record {
        id = r.0;
        contract = r.1;
        on_file = i;
        another = ne;
        starts = starts;
        ends = ends;
        covered = subst (λ n. In (r.0, n) db.covered) same ((In-partners r.0 m db.covered).0 j);
        asked_for = subst (λ n. In n machines) same ((In-includes m machines).0 q);
        serial =
            ap (λ (x : Overlap). x.equipment_serial_no) e
            ∙ ap (λ n. serial_of n db.equipment) same
            ∙ serial-is w.equipment_id db.equipment;
        reference = ap (λ (x : Overlap). x.other_contract_ref_no) e;
      }

  IsOverlap-IsFound :
      IsOverlap db self machines start end' rows w → IsFound db self machines start end' rows w
  IsOverlap-IsFound o = (
    (o.id, o.contract),
    w.equipment_id,
    o.on_file,
    (overlapping_iff self start end' (o.id, o.contract)).1 (o.another, o.starts, o.ends),
    (In-partners o.id w.equipment_id db.covered).1 o.covered,
    (In-includes w.equipment_id machines).1 o.asked_for,
    ap
          (λ s. record {
            equipment_id = w.equipment_id;
            equipment_serial_no = s;
            other_contract_ref_no = w.other_contract_ref_no;
          })
          (o.serial ∙ sym (serial-is w.equipment_id db.equipment))
        ∙ ap
            (λ s. record {
              equipment_id = w.equipment_id;
              equipment_serial_no = serial_of w.equipment_id db.equipment;
              other_contract_ref_no = s;
            })
            o.reference,
  )

  -- The warnings are exactly these: one stands in the list if and only if it names a machine of the
  -- request that a contract covers, which is another one, starts by the given end and ends from the given
  -- start on, with the machine's serial number and that contract's reference.
  pub warnings_are_the_overlaps :
      In w (overlaps_among db self machines start end' rows)
      ↔ IsOverlap db self machines start end' rows w
  warnings_are_the_overlaps = (
    λ h. IsFound-IsOverlap ((tested_iff db self machines start end' rows w).0 h),
    λ o. (tested_iff db self machines start end' rows w).1 (IsOverlap-IsFound o),
  )
