-- ===== src/Visits/Outcomes.antt =====
-- What `submit` of backend/src/ticketing/fsv/fsv.service.ts comes to.
use mathlib.Core.Path.{subst}
use proman_edge_ace.Prelude.{
  ℕ, ◌≤◌, ◌≡◌, sym, ◌∙◌, ap, ◌⊎◌, inl, inr, ◌↔◌, true, false, not, none, some, arith, Option-cases,
  some_or_none, length, get_or, is_some, nat_eq,
}
use proman_edge_ace.Prelude.Dict.{lookup, modify}
use proman_edge_ace.Prelude.Text.{trim, is_blank, utf16_length}
use proman_edge_ace.Domain.Masters.{draft, submitted, fsv_status_eq}
use proman_edge_ace.Domain.Logs.{NotifChannel}
use proman_edge_ace.Schema.{Db, Visit, Ticket, Customer}
use proman_edge_ace.Env.{Env}
use proman_edge_ace.Action.{ok, err, Error}
use proman_edge_ace.Store.Tables.{visit_table, change}
use proman_edge_ace.Workflow.{given}
use proman_edge_ace.Notifications.{Vars}
use proman_edge_ace.Notifications.Failsafe.{Quiet, Keeps, Quiet-bind, Quiet-run_if, Quiet-with_some}
use proman_edge_ace.Tickets.Labels.{RequestUser}
use proman_edge_ace.Tickets.Announce.{Related, related_rows, rows_of}
use proman_edge_ace.Tickets.Announce.Silence.{send_named-Quiet}
use proman_edge_ace.Visits.{
  submit, submit_error, submitted_row, submitted_vars, notify_submitted, parts_of, lock_visit,
  photos_of,
}

notify_submitted-Quiet :
    (ticket_id : ℕ) (vars : Vars) (r : Related) → Quiet (notify_submitted ticket_id vars r)
unfolding notify_submitted
notify_submitted-Quiet ticket_id vars r =
    let email = r.customer.primary_contact_email in
    let mobile = r.customer.primary_contact_mobile in
    Quiet-bind
      (Quiet-run_if (not (is_blank email)) (
        send_named-Quiet "N-13" "N-13 FSV submitted" NotifChannel.email true email vars ticket_id
          none))
      λ _.
        Quiet-bind
          (Quiet-run_if (not (is_blank mobile)) (
            send_named-Quiet "N-13" "N-13 FSV submitted" NotifChannel.whatsapp true mobile vars
              ticket_id none))
          λ _. Quiet-with_some r.assigned_asm λ u.
            send_named-Quiet "N-13" "N-13 FSV submitted" NotifChannel.push true u.1.email vars
              ticket_id (some u.0)

-- What a visit's report takes.
pub record MaySubmit (id : ℕ) (v : Visit) (actor : RequestUser) (db : Db) : Type 0 where
  pub open_yet : v.status ≡ draft
  pub is_theirs : v.engineer_id ≡ actor.user_id
  pub described : 20 ≤ utf16_length (trim (get_or v.work_performed ""))
  pub accounted : (1 ≤ length (parts_of id db.parts)) ⊎ (v.no_parts_used ≡ true)
  pub represented : is_blank (trim (get_or v.customer_rep_name "")) ≡ false
  pub signed_off : v.customer_sign_off ≡ true
  pub photographed : 1 ≤ length (photos_of id db.photos)
  pub attached : is_some (given v.visit_report_url) ≡ true

submit_error_iff :
    (id : ℕ) (v : Visit) (actor : RequestUser) (db : Db)
    → (submit_error id v actor db.parts db.photos ≡ none) ↔ MaySubmit id v actor db
unfolding submit_error
submit_error_iff id v actor db = (
  λ h. record {
    open_yet = ground arith;
    is_theirs = ground arith;
    described = ground arith;
    accounted = ground arith;
    represented = ground arith;
    signed_off = ground arith;
    photographed = ground arith;
    attached = ground arith;
  },
  λ m. ground (
    arith, m.open_yet, m.is_theirs, m.described, m.accounted, m.represented, m.signed_off,
    m.photographed, m.attached,
  ),
)

-- The rows that a visit's foreign keys lead to.
pub record OnFile (id : ℕ) (v : Visit) (t : Ticket) (c : Customer) (db : Db) : Type 0 where
  pub visit : lookup id db.visits ≡ some v
  pub ticket : lookup v.ticket_id db.tickets ≡ some t
  pub customer : lookup t.customer_id db.customers ≡ some c

-- A visit's row with the status, the time and the caller.
abbrev pub signed_in : Env → RequestUser → Visit → Visit
signed_in env actor v = record v {
  status = submitted;
  submitted_at = some env.now;
  submitted_by = some actor.user_id;
}

-- A visit's row written as submitted.
abbrev pub locked_db : ℕ → RequestUser → Env → Db → Db
locked_db id actor env db = change visit_table (modify id (signed_in env actor)) db

module _ (id : ℕ) (v : Visit) (t : Ticket) (c : Customer) (actor : RequestUser) (env : Env)
    (db : Db) where
  pub submit-refused :
      (e : Error)
      → OnFile id v t c db
      → submit_error id v actor db.parts db.photos ≡ some e
      → submit id actor env db ≡ (err e, db)
  unfolding submit related_rows
  submit-refused e rows bad = ground (arith, rows.visit, rows.ticket, rows.customer)

  submit-checked :
      OnFile id v t c db
      → submit_error id v actor db.parts db.photos ≡ none
      → submit id actor env db ≡ lock_visit id actor v.ticket_id t (rows_of db t c) env db
  unfolding submit related_rows
  submit-checked rows fine = ground (arith, rows.visit, rows.ticket, rows.customer)

  lock_visit-found :
      (r : Related)
      → lookup id db.visits ≡ some v
      → (db' : Db) × (lock_visit id actor v.ticket_id t r env db
          ≡ (ok (submitted_row env actor v), db'))
        × Keeps (locked_db id actor env db) db'
  unfolding lock_visit
  lock_visit-found r found =
      let (_, db', e, k) =
        (notify_submitted-Quiet v.ticket_id (submitted_vars t r) r).run env
          (locked_db id actor env db) in
      (db', ground (arith, found, e), k)

  -- The report of a visit that is on file with its ticket and its customer is accepted exactly when the
  -- visit is a draft of the caller's, the trimmed description has at least twenty characters, a part
  -- is logged or none is said to have been used, the customer's representative is named and has
  -- signed off, and a photo and the scanned report are there. The row then has the status
  -- SUBMITTED, the time and the caller, and is returned; apart from it there can only be new entries at the
  -- end of the two logs, and push tokens can be gone. The ticket is as it was.
  -- Otherwise it throws and writes nothing.
  pub submission_outcome :
      OnFile id v t c db
      → (MaySubmit id v actor db
          × ((db' : Db) × (submit id actor env db ≡ (ok (signed_in env actor v), db'))
              × Keeps (locked_db id actor env db) db'))
        ⊎ ((¬ MaySubmit id v actor db) × ((e : Error) × (submit id actor env db ≡ (err e, db))))
  submission_outcome rows = elim (Option-cases (submit_error id v actor db.parts db.photos)) [
    | inl fine ↦
        let (db', e, k) = lock_visit-found (rows_of db t c) rows.visit in
        inl ((submit_error_iff id v actor db).0 fine, (db', submit-checked rows fine ∙ e, k))
    | inr (e, bad) ↦ inr (
      λ m. absurd (
          some_or_none (submit_error id v actor db.parts db.photos) bad
            ((submit_error_iff id v actor db).1 m)),
      (e, submit-refused e rows bad),
    )
  ]

-- A row that a foreign key should lead to is missing.
module _ (id : ℕ) (actor : RequestUser) (env : Env) (db : Db) where
  no_visit : lookup id db.visits ≡ none → (submit id actor env db).1 ≡ db
  unfolding submit
  no_visit e = ground (arith, e)

  no_ticket :
      (v : Visit)
      → lookup id db.visits ≡ some v
      → lookup v.ticket_id db.tickets ≡ none
      → (submit id actor env db).1 ≡ db
  unfolding submit
  no_ticket v e f = ground (arith, e, f)

  no_customer :
      (v : Visit) (t : Ticket)
      → lookup id db.visits ≡ some v
      → lookup v.ticket_id db.tickets ≡ some t
      → lookup t.customer_id db.customers ≡ none
      → (submit id actor env db).1 ≡ db
  unfolding submit related_rows
  no_customer v t e f g = ground (arith, e, f, g)

-- `submit` writes nothing, or it writes the row of a draft.
pub submit-writes :
    (id : ℕ) (actor : RequestUser) (env : Env) (db : Db)
    → ((submit id actor env db).1 ≡ db)
      ⊎ ((v : Visit) × (lookup id db.visits ≡ some v)
          × (v.status ≡ draft)
          × Keeps (locked_db id actor env db) (submit id actor env db).1)
submit-writes id actor env db = elim (Option-cases (lookup id db.visits)) [
  | inl e ↦ inl (no_visit id actor env db e)
  | inr (v, e) ↦ elim (Option-cases (lookup v.ticket_id db.tickets)) [
    | inl f ↦ inl (no_ticket id actor env db v e f)
    | inr (t, f) ↦ elim (Option-cases (lookup t.customer_id db.customers)) [
      | inl g ↦ inl (no_customer id actor env db v t e f g)
      | inr (c, g) ↦
          elim (submission_outcome id v t c actor env db
            (record { visit = e; ticket = f; customer = g })) [
              | inl (may, (db', s, k)) ↦ inr (
                v,
                e,
                may.open_yet,
                subst (Keeps (locked_db id actor env db)) (sym (ap (λ r. r.1) s)) k,
              )
              | inr (_, (_, s)) ↦ inl (ap (λ r. r.1) s)
            ]
    ]
  ]
]
