-- ===== src/Visits/Locked.antt =====
-- A submitted visit is immutable: backend/src/ticketing/fsv/fsv.service.ts.
use mathlib.Core.Path.{subst}
use native.Mathlib.Decide.{ℕ_discrete}
use proman_edge_ace.Prelude.{
  ℕ, ◌≡◌, sym, ◌∙◌, ap, String, false, Option, some, List, ◌≢◌, arith, Option-cases, length, ◌+◌,
  or_else, is_just, nat_eq, Bool-cases, inl, inr,
}
use proman_edge_ace.Prelude.Dict.{lookup, lookup-modify_ne, lookup-insert, fresh}
use proman_edge_ace.Domain.Masters.{draft, submitted, fsv_status_eq}
use proman_edge_ace.Schema.{Db, Visit}
use proman_edge_ace.Env.{Env}
use proman_edge_ace.Action.Requests.{serve, serve-keeps, discard_answer}
use proman_edge_ace.PriceLists.{default_name, listed_default}
use proman_edge_ace.Tickets.Labels.{RequestUser}
use proman_edge_ace.Visits.Outcomes.{submit-writes}
use proman_edge_ace.Visits

-- The visit has been submitted, and `v` is its row.
abbrev pub Locked : ℕ → Visit → Db → Type 0
Locked id v db = (lookup id db.visits ≡ some v) × (v.status ≡ submitted)

module _ (id : ℕ) (v : Visit) where
  update-Locked :
      (j : ℕ) (dto : Visits.UpdateVisit) (env : Env) (db : Db)
      → Locked id v db
      → Locked id v (Visits.update j dto env db).1
  unfolding Visits.update Visits.draft_visit
  update-Locked j dto env db (found, closed) = elim (ℕ_discrete id j) [
    | yes e ↦ ground (arith, e, found, closed)
    | no ne ↦ (
      ground (arith, found, lookup-modify_ne id j (Visits.edited_visit env dto) db.visits ne),
      closed,
    )
  ]

  set_signature-Locked :
      (j : ℕ) (url : String) (env : Env) (db : Db)
      → Locked id v db
      → Locked id v (Visits.set_signature j url env db).1
  unfolding Visits.set_signature Visits.draft_visit
  set_signature-Locked j url env db (found, closed) = elim (ℕ_discrete id j) [
    | yes e ↦ ground (arith, e, found, closed)
    | no ne ↦ (
      ground (
        arith,
        found,
        lookup-modify_ne id j (λ v. record v { customer_signature_url = some url }) db.visits ne,
      ),
      closed,
    )
  ]

  set_report-Locked :
      (j : ℕ) (url : String) (env : Env) (db : Db)
      → Locked id v db
      → Locked id v (Visits.set_report j url env db).1
  unfolding Visits.set_report Visits.draft_visit
  set_report-Locked j url env db (found, closed) = elim (ℕ_discrete id j) [
    | yes e ↦ ground (arith, e, found, closed)
    | no ne ↦ (
      ground (
        arith,
        found,
        lookup-modify_ne id j (λ v. record v { visit_report_url = some url }) db.visits ne,
      ),
      closed,
    )
  ]

  add_part-Locked :
      (j : ℕ) (dto : Visits.AddPart) (env : Env) (db : Db)
      → Locked id v db
      → Locked id v (Visits.add_part j dto env db).1
  unfolding Visits.add_part Visits.draft_visit Visits.clear_no_parts
  add_part-Locked j dto env db (found, closed) = elim (ℕ_discrete id j) [
    | yes e ↦ ground (arith, e, found, closed)
    | no ne ↦ (
      ground (
        arith,
        found,
        lookup-modify_ne id j (λ v. record v { no_parts_used = false }) db.visits ne,
      ),
      closed,
    )
  ]

  update_part-Locked :
      (j part_id : ℕ) (dto : Visits.UpdatePart) (env : Env) (db : Db)
      → Locked id v db
      → Locked id v (Visits.update_part j part_id dto env db).1
  unfolding Visits.update_part Visits.draft_visit
  update_part-Locked j part_id dto env db (found, closed) = (ground (arith, found), closed)

  remove_part-Locked :
      (j part_id : ℕ) (env : Env) (db : Db)
      → Locked id v db
      → Locked id v (Visits.remove_part j part_id env db).1
  unfolding Visits.remove_part Visits.draft_visit
  remove_part-Locked j part_id env db (found, closed) = (ground (arith, found), closed)

  add_photo-Locked :
      (j : ℕ) (url : String) (caption : Option String) (env : Env) (db : Db)
      → Locked id v db
      → Locked id v (Visits.add_photo j url caption env db).1
  unfolding Visits.add_photo Visits.draft_visit
  add_photo-Locked j url caption env db (found, closed) = (ground (arith, found), closed)

  remove_photo-Locked :
      (j photo_id : ℕ) (env : Env) (db : Db)
      → Locked id v db
      → Locked id v (Visits.remove_photo j photo_id env db).1
  unfolding Visits.remove_photo Visits.draft_visit
  remove_photo-Locked j photo_id env db (found, closed) = (ground (arith, found), closed)

  create_draft-Locked :
      (ticket_id : ℕ) (dto : Visits.CreateVisit) (actor : RequestUser) (env : Env) (db : Db)
      → Locked id v db
      → Locked id v (Visits.create_draft ticket_id dto actor env db).1
  unfolding Visits.create_draft default_name
  create_draft-Locked ticket_id dto actor env db (found, closed) =
      elim (Option-cases (lookup ticket_id db.tickets)) [
        | inl e ↦ (ground (arith, e, found), closed)
        | inr (t, e) ↦ elim (Bool-cases (is_just t.assigned_engineer_id actor.user_id)) [
          | inl mine ↦ (
            ground (
              arith,
              e,
              mine,
              lookup-insert id (fresh db.visits)
                  (Visits.new_visit env ticket_id actor dto
                    (Visits.next_no "FSV" env.local_year (Visits.visit_nos db.visits))
                    (length (Visits.visits_of ticket_id db.visits) + 1)
                    (or_else dto.price_list_name (listed_default db.price_lists)))
                  v db.visits found,
            ),
            closed,
          )
          | inr other ↦ (ground (arith, e, other, found), closed)
        ]
      ]

  submit-Locked :
      (j : ℕ) (actor : RequestUser) (env : Env) (db : Db)
      → Locked id v db
      → Locked id v (Visits.submit j actor env db).1
  submit-Locked j actor env db (found, closed) = elim (submit-writes j actor env db) [
    | inl same ↦ (ap (λ (d : Db). lookup id d.visits) same ∙ found, closed)
    | inr (w, found', open_yet, k) ↦ (
      ap (λ (d : Db). lookup id d.visits) k.same
          ∙ lookup-modify_ne id j (Visits.submitted_row env actor) db.visits
              (other w found' open_yet)
          ∙ found,
      closed,
    )
  ]
    where
      other : (w : Visit) → lookup j db.visits ≡ some w → w.status ≡ draft → id ≢ j
      other w found' open_yet e = ground (arith, e, found, found', open_yet, closed)

  handle-Locked :
      (r : Visits.Request) (env : Env) (db : Db)
      → Locked id v db
      → Locked id v (Visits.handle r env db).1
  handle-Locked (Visits.creating ticket_id dto actor) env db locked =
      subst (λ (d : Db). Locked id v d)
        (sym (discard_answer (Visits.create_draft ticket_id dto actor) env db))
        (create_draft-Locked ticket_id dto actor env db locked)
  handle-Locked (Visits.updating j dto) env db locked = update-Locked j dto env db locked
  handle-Locked (Visits.signing j url) env db locked = set_signature-Locked j url env db locked
  handle-Locked (Visits.reporting j url) env db locked = set_report-Locked j url env db locked
  handle-Locked (Visits.adding_part j dto) env db locked = add_part-Locked j dto env db locked
  handle-Locked (Visits.updating_part j part_id dto) env db locked =
      update_part-Locked j part_id dto env db locked
  handle-Locked (Visits.removing_part j part_id) env db locked =
      remove_part-Locked j part_id env db locked
  handle-Locked (Visits.adding_photo j url caption) env db locked =
      add_photo-Locked j url caption env db locked
  handle-Locked (Visits.removing_photo j photo_id) env db locked =
      remove_photo-Locked j photo_id env db locked
  handle-Locked (Visits.submitting j actor) env db locked =
      subst (λ (d : Db). Locked id v d) (sym (discard_answer (Visits.submit j actor) env db))
        (submit-Locked j actor env db locked)

-- However many requests on visits, parts and photos are answered, at any times and those that throw
-- included: the row of a visit that has been submitted stays as it is.
pub submitted_visit_is_locked :
    (id : ℕ) (v : Visit) (rs : List (Env × Visits.Request)) (db : Db)
    → lookup id db.visits ≡ some v
    → v.status ≡ submitted
    → lookup id (serve Visits.handle rs db).visits ≡ some v
submitted_visit_is_locked id v rs db found closed =
    (serve-keeps Visits.handle (Locked id v) (handle-Locked id v) rs db (found, closed)).0
