-- ===== src/Tickets/Intake/Reports.antt =====
-- The report of `bulkImport` in backend/src/ticketing/tickets/tickets.service.ts.
use proman_edge_ace.Prelude.{
  ℕ, suc, ◌+◌, ◌≡◌, refl, ap, ◌∙◌, inr, String, Bool, not, List, [], ◌∷◌, arith, length, keep,
}
use proman_edge_ace.Schema.{Db}
use proman_edge_ace.Env.{Env}
use proman_edge_ace.Action.{Result, ok, err, after}
use proman_edge_ace.Tickets.Labels.{RequestUser}
use proman_edge_ace.Tickets.Intake.{
  Row, ImportResult, ImportReport, import_row, import_rows, bulk_import_rows, is_ok,
}

-- One result for each row, in order, with numbers in a row.
abbrev pub Numbered : ℕ → List Row → List ImportResult → Type 0
Numbered n [] [] = Unit
Numbered n [] (r ∷ rs) = ⊥
Numbered n (row ∷ rows) [] = ⊥
Numbered n (row ∷ rows) (r ∷ rs) = (r.row ≡ n) × Numbered (suc n) rows rs

-- A row that has made a ticket counts one, and a row that threw none.
abbrev pub tickets_made : Result String → ℕ
tickets_made (ok _) = 1
tickets_made (err _) = 0

abbrev pub created_count : List ImportResult → ℕ
created_count [] = 0
created_count (r ∷ rs) = tickets_made r.outcome + created_count rs

created_count-keep : (rs : List ImportResult) → length (keep is_ok rs) ≡ created_count rs
created_count-keep [] = refl
created_count-keep (r ∷ rs) = ground (arith, created_count-keep rs)

length-keep_split :
    {A : Type 0} (p : A → Bool) (xs : List A)
    → length (keep p xs) + length (keep (λ x. not (p x)) xs) ≡ length xs
length-keep_split p [] = refl
length-keep_split p (x ∷ xs) = ground (arith, length-keep_split p xs)

length-Numbered :
    (n : ℕ) (rows : List Row) (rs : List ImportResult)
    → Numbered n rows rs
    → length rs ≡ length rows
length-Numbered n [] [] h = refl
length-Numbered n [] (r ∷ rs) h = absurd h
length-Numbered n (row ∷ rows) [] h = absurd h
length-Numbered n (row ∷ rows) (r ∷ rs) h = ap suc (length-Numbered (suc n) rows rs h.1)

-- What `import_rows` has made of the rows.
record Imported (n : ℕ) (rows : List Row) (actor : RequestUser) (env : Env) (db : Db) : Type 0 where
  results : List ImportResult
  db' : Db
  returned : import_rows n rows actor env db ≡ (ok results, db')
  numbered : Numbered n rows results

import_rows-cons :
    (n : ℕ) (row : Row) (rows : List Row) (actor : RequestUser) (env : Env) (db : Db)
    (outcome : Result String) (db1 db2 : Db) (rs : List ImportResult)
    → import_row row actor env db ≡ (outcome, db1)
    → import_rows (suc n) rows actor env db1 ≡ (ok rs, db2)
    → import_rows n (row ∷ rows) actor env db
      ≡ (ok (record { row = n; outcome = outcome } ∷ rs), db2)
unfolding import_rows
import_rows-cons n row rows actor env db outcome db1 db2 rs e f = ground arith

import_rows-Imported :
    (n : ℕ) (rows : List Row) (actor : RequestUser) (env : Env) (db : Db)
    → Imported n rows actor env db
unfolding import_rows
import_rows-Imported n [] actor env db = record {
  results = [];
  db' = db;
  returned = refl;
  numbered = tt;
}
import_rows-Imported n (row ∷ rows) actor env db =
    let x = import_row row actor env db in
    let i = import_rows-Imported (suc n) rows actor env x.1 in
    record {
      results = record { row = n; outcome = x.0 } ∷ i.results;
      db' = i.db';
      returned = import_rows-cons n row rows actor env db x.0 x.1 i.db' i.results refl i.returned;
      numbered = (refl, i.numbered);
    }

-- An import of a file with rows never fails as a whole: it returns a report with one result for each row,
-- in the order in which the parser gave them, numbered from 2; it counts as succeeded exactly the rows whose
-- outcome is a ticket, and as failed all others.
pub import_reports_every_row :
    (row : Row) (rows : List Row) (actor : RequestUser) (env : Env) (db : Db)
    → (report : ImportReport) × (db' : Db) × (bulk_import_rows (inr (row ∷ rows)) actor env db
        ≡ (ok report, db'))
      × Numbered 2 (row ∷ rows) report.results
      × (report.total ≡ length (row ∷ rows))
      × (report.succeeded ≡ created_count report.results)
      × (report.succeeded + report.failed ≡ report.total)
unfolding bulk_import_rows
import_reports_every_row row rows actor env db =
    let i = import_rows-Imported 2 (row ∷ rows) actor env db in
    (
      _,
      i.db',
      ap (after _ env) i.returned,
      i.numbered,
      refl,
      created_count-keep i.results,
      length-keep_split is_ok i.results ∙ length-Numbered 2 (row ∷ rows) i.results i.numbered,
    )
