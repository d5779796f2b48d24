-- ===== src/Quotations/Totals.antt =====
-- The totals of a quotation under its edits: backend/src/ticketing/quotations/quotation.service.ts.
use mathlib.Core.Path.{subst}
use proman_edge_ace.Prelude.{
  ℕ, ◌≡◌, refl, sym, ◌∙◌, ap, inl, inr, ◌≢◌, true, false, none, some, arith, get_or, is_some,
  Option-cases,
}
use proman_edge_ace.Prelude.Dict.{lookup, modify, lookup-modify_self, lookup-modify_ne}
use proman_edge_ace.Schema.{Db, Quotation, QuotationItem}
use proman_edge_ace.Env.{Env}
use proman_edge_ace.Action.{
  Action, Result, ok, err, ok_inj, err_is_not_ok, after, ask, ◌>>=◌, ◌>>◌, bad_request,
  record_not_found,
}
use proman_edge_ace.Store.Tables.{
  quotation_table, quotation_item_table, change, find_row, create_row, update_row, delete_row,
}
use proman_edge_ace.Workflow.{given}
use proman_edge_ace.Quotations.{
  UpdateQuotation, AddItem, UpdateItem, update, add_item, update_item, remove_item,
  recompute_totals, totalled, subtotal_of, tax_of, items_of, editable_quotation, edited_item,
  edited_quotation, new_item,
}

-- The row on file, whose totals are those of the lines on file.
pub record Totalled (env : Env) (id : ℕ) (q : Quotation) (db : Db) : Type 0 where
  pub on_file : lookup id db.quotations ≡ some q
  pub subtotal : q.subtotal ≡ some (subtotal_of env (items_of id db.quotation_items))
  pub tax : q.tax_amount ≡ some (tax_of env (items_of id db.quotation_items))
  pub grand :
      q.grand_total
      ≡ some (
          env.plus
            (env.plus
              (subtotal_of env (items_of id db.quotation_items))
              (tax_of env (items_of id db.quotation_items)))
            (get_or q.labour_charges 0))

-- The editor's requests.
pub data Edit : Type 0 where
  updating : UpdateQuotation → Edit
  adding : AddItem → Edit
  changing : ℕ → UpdateItem → Edit
  removing : ℕ → Edit

abbrev pub perform : ℕ → Edit → Action Quotation
perform id (updating dto) = update id dto
perform id (adding dto) = add_item id dto
perform id (changing item_id dto) = update_item id item_id dto
perform id (removing item_id) = remove_item id item_id

pub record EndsTotalled (id : ℕ) (m : Action Quotation) : Type 0 where
  pub run :
      (env : Env) (db : Db) (q : Quotation) (db' : Db)
      → m env db ≡ (ok q, db')
      → Totalled env id q db'

totalled-Totalled :
    (id : ℕ) (v : Quotation) (env : Env) (db : Db)
    → lookup id db.quotations ≡ some v
    → let f = totalled env (items_of id db.quotation_items) v.labour_charges in
      Totalled env id (f v) (change quotation_table (modify id f) db)
totalled-Totalled id v env db found = record {
  on_file =
      lookup-modify_self id (totalled env (items_of id db.quotation_items) v.labour_charges)
        db.quotations v found;
  subtotal = refl;
  tax = refl;
  grand = refl;
}

recompute-found :
    (id : ℕ) (v : Quotation) (env : Env) (db : Db)
    → lookup id db.quotations ≡ some v
    → let f = totalled env (items_of id db.quotation_items) v.labour_charges in
      recompute_totals id env db ≡ (ok (f v), change quotation_table (modify id f) db)
unfolding recompute_totals
recompute-found id v env db found = ground (arith, found)

recompute-missing :
    (id : ℕ) (env : Env) (db : Db)
    → lookup id db.quotations ≡ none
    → recompute_totals id env db ≡ (err record_not_found, db)
unfolding recompute_totals
recompute-missing id env db missing = ground (arith, missing)

recompute-EndsTotalled : (id : ℕ) → EndsTotalled id (recompute_totals id)
recompute-EndsTotalled id = record {
  run = λ env db q db' e. elim (Option-cases (lookup id db.quotations)) [
    | inl missing ↦ absurd (err_is_not_ok (sym (recompute-missing id env db missing) ∙ e))
    | inr (v, found) ↦
        let same = sym (recompute-found id v env db found) ∙ e in
        subst (λ r. Totalled env id r db') (ok_inj (ap (λ r. r.0) same))
          (subst
            (Totalled env id (totalled env (items_of id db.quotation_items) v.labour_charges v))
            (ap (λ r. r.1) same) (totalled-Totalled id v env db found))
  ];
}

after-EndsTotalled :
    {A : Type 0} (id : ℕ) (f : A → Action Quotation) (r : Result A × Db) (env : Env) (q : Quotation)
    (db' : Db)
    → ((a : A) → EndsTotalled id (f a))
    → after f env r ≡ (ok q, db')
    → Totalled env id q db'
after-EndsTotalled id f (ok a, db) env q db' ends e = (ends a).run env db q db' e
after-EndsTotalled id f (err x, db) env q db' ends e = absurd (err_is_not_ok e)

bind-EndsTotalled :
    {A : Type 0} (id : ℕ) (m : Action A) (f : A → Action Quotation)
    → ((a : A) → EndsTotalled id (f a))
    → EndsTotalled id (m >>= f)
bind-EndsTotalled id m f ends = record {
  run = λ env db q db' e. after-EndsTotalled id f (m env db) env q db' ends e;
}

written-EndsTotalled :
    {A : Type 0} (id : ℕ) (m : Action A) → EndsTotalled id (do m; recompute_totals id)
written-EndsTotalled id m =
    bind-EndsTotalled id m (λ _. recompute_totals id) (λ _. recompute-EndsTotalled id)

asked-EndsTotalled :
    {A : Type 0} (id : ℕ) (m : Env → Action A)
    → EndsTotalled id (do env ← ask (λ env. env); m env; recompute_totals id)
asked-EndsTotalled id m =
    bind-EndsTotalled {A = Env} id (ask (λ env. env)) (λ env. do m env; recompute_totals id)
      (λ env. written-EndsTotalled id (m env))

perform-EndsTotalled : (id : ℕ) (e : Edit) → EndsTotalled id (perform id e)
unfolding update add_item update_item remove_item
perform-EndsTotalled id (updating dto) =
    bind-EndsTotalled id (editable_quotation id)
      (λ q. do
        env ← ask (λ env. env)
        update_row quotation_table id (edited_quotation env dto q)
        recompute_totals id)
      λ q. asked-EndsTotalled id (λ env. update_row quotation_table id (edited_quotation env dto q))
perform-EndsTotalled id (adding dto) =
    bind-EndsTotalled id (editable_quotation id)
      (λ q. do
        env ← ask (λ env. env)
        create_row quotation_item_table (new_item env id dto)
        recompute_totals id)
      λ q. asked-EndsTotalled id (λ env. create_row quotation_item_table (new_item env id dto))
perform-EndsTotalled id (changing item_id dto) =
    bind-EndsTotalled id (editable_quotation id)
      (λ q. do
        it ← find_row quotation_item_table item_id
        env ← ask (λ env. env)
        update_row quotation_item_table item_id (edited_item env dto it)
        recompute_totals id)
      λ q.
        bind-EndsTotalled id (find_row quotation_item_table item_id)
          (λ it. do
            env ← ask (λ env. env)
            update_row quotation_item_table item_id (edited_item env dto it)
            recompute_totals id)
          λ it.
            asked-EndsTotalled id
              (λ env. update_row quotation_item_table item_id (edited_item env dto it))
perform-EndsTotalled id (removing item_id) =
    bind-EndsTotalled id (editable_quotation id)
      (λ q. do delete_row quotation_item_table item_id; recompute_totals id)
      λ q. written-EndsTotalled id (delete_row quotation_item_table item_id)

-- An edit of a quotation, one of its lines added, changed or removed: where it returns, the row on file
-- is the one it returns, and its totals are those of the lines that are on file after it.
pub edit_leaves_right_totals :
    (id : ℕ) (e : Edit) (env : Env) (db : Db) (q : Quotation) (db' : Db)
    → perform id e env db ≡ (ok q, db')
    → Totalled env id q db'
edit_leaves_right_totals id e = (perform-EndsTotalled id e).run

-- Every edit of a quotation that ERPNext has is refused and writes nothing.
pub pushed_quotation_is_locked :
    (id : ℕ) (e : Edit) (env : Env) (db : Db) (q : Quotation)
    → lookup id db.quotations ≡ some q
    → is_some (given q.erpnext_quotation_id) ≡ true
    → perform id e env db
      ≡ (err (bad_request "This quotation is already in ERPNext — edit it there, not in ACE"), db)
unfolding update add_item update_item remove_item editable_quotation
pushed_quotation_is_locked id (updating dto) env db q found pushed = ground (arith, found, pushed)
pushed_quotation_is_locked id (adding dto) env db q found pushed = ground (arith, found, pushed)
pushed_quotation_is_locked id (changing item_id dto) env db q found pushed =
    ground (arith, found, pushed)
pushed_quotation_is_locked id (removing item_id) env db q found pushed =
    ground (arith, found, pushed)

-- `updateItem` asks whether the quotation that the request names can be edited, and not whether the
-- line is that quotation's: through a quotation `j` that can be edited, a line of another one that
-- ERPNext has is changed, and the totals of the other stay as they were.
pub any_editable_quotation_edits_lines :
    (id j item_id : ℕ) (w q : Quotation) (it : QuotationItem) (dto : UpdateItem) (env : Env)
    (db : Db)
    → j ≢ id
    → lookup j db.quotations ≡ some w
    → is_some (given w.erpnext_quotation_id) ≡ false
    → lookup item_id db.quotation_items ≡ some it
    → it.quotation_id ≡ id
    → lookup id db.quotations ≡ some q
    → is_some (given q.erpnext_quotation_id) ≡ true
    → let db' = (update_item j item_id dto env db).1 in
      (lookup item_id db'.quotation_items ≡ some (edited_item env dto it it))
      × (lookup id db'.quotations ≡ some q)
unfolding update_item editable_quotation recompute_totals
any_editable_quotation_edits_lines id j item_id w q it dto env db other found free on_file parent
      held pushed =
    (
      ground (
        arith,
        found,
        free,
        on_file,
        lookup-modify_self item_id (edited_item env dto it) db.quotation_items it on_file,
      ),
      ground (
        arith,
        found,
        free,
        on_file,
        held,
        lookup-modify_ne id j
            (totalled env (items_of j (modify item_id (edited_item env dto it) db.quotation_items))
              w.labour_charges)
            db.quotations (λ e. other (sym e)),
      ),
    )
