-- ===== src/Visits/Amounts.antt =====
-- The amounts of the parts that visits consume: backend/src/ticketing/fsv/fsv.service.ts.
use mathlib.Core.Path.{subst}
use proman_edge_ace.Prelude.{
  ℕ, ◌≡◌, sym, ◌∙◌, ap, List, All, arith, String, Option, get_or, some_inj, Option-cases, inl, inr,
}
use proman_edge_ace.Prelude.Dict.{Dict, lookup, fresh}
use proman_edge_ace.Domain.Masters.{fsv_status_eq}
use proman_edge_ace.Schema.{Db, Part}
use proman_edge_ace.Env.{Env}
use proman_edge_ace.Action.Requests.{serve, serve-keeps_if, discard_answer}
use proman_edge_ace.Store.Tables.Every.{Every, Every-modify, Every-insert, Every-remove}
use proman_edge_ace.PriceLists.{default_name}
use proman_edge_ace.Tickets.Labels.{RequestUser}
use proman_edge_ace.Visits.Outcomes.{submit-writes}
use proman_edge_ace.Visits

module _ (mul : ℕ → ℕ → ℕ) where
  -- The amount is the quantity times the selling rate.
  abbrev pub IsReckoned : Part → Type 0
  IsReckoned p = p.amount ≡ mul p.qty p.selling_rate

  abbrev Reckoned : Db → Type 0
  Reckoned db = Every IsReckoned db.parts

  abbrev Multiplies : Env → Visits.Request → Type 0
  Multiplies env r = env.times ≡ mul

  add_part-Reckoned :
      (j : ℕ) (dto : Visits.AddPart) (env : Env) (db : Db)
      → env.times ≡ mul
      → Reckoned db
      → Reckoned (Visits.add_part j dto env db).1
  unfolding Visits.add_part Visits.draft_visit Visits.clear_no_parts
  add_part-Reckoned j dto env db e all = ground (
    arith,
    all,
    Every-insert IsReckoned (fresh db.parts) (Visits.new_part env j dto) db.parts
        (ap (λ m. m dto.qty dto.selling_rate) e) all,
  )

  edited_part-IsReckoned :
      (env : Env) (dto : Visits.UpdatePart) (read p : Part)
      → env.times ≡ mul
      → read ≡ p
      → IsReckoned (Visits.edited_part env dto read p)
  edited_part-IsReckoned env dto read p e same =
      ap (λ m. m (get_or dto.qty read.qty) (get_or dto.selling_rate read.selling_rate)) e
      ∙ ap (λ (q : Part). mul (get_or dto.qty q.qty) (get_or dto.selling_rate q.selling_rate)) same

  update_part-Reckoned :
      (j part_id : ℕ) (dto : Visits.UpdatePart) (env : Env) (db : Db)
      → env.times ≡ mul
      → Reckoned db
      → Reckoned (Visits.update_part j part_id dto env db).1
  unfolding Visits.update_part Visits.draft_visit
  update_part-Reckoned j part_id dto env db e all = elim (Option-cases (lookup part_id db.parts)) [
    | inl missing ↦ ground (arith, missing, all)
    | inr (p, found) ↦ ground (
      arith,
      found,
      all,
      Every-modify IsReckoned part_id (Visits.edited_part env dto p) db.parts
          (λ q on_file _. edited_part-IsReckoned env dto p q e (some_inj (sym found ∙ on_file)))
          all,
    )
  ]

  remove_part-Reckoned :
      (j part_id : ℕ) (env : Env) (db : Db)
      → Reckoned db
      → Reckoned (Visits.remove_part j part_id env db).1
  unfolding Visits.remove_part Visits.draft_visit
  remove_part-Reckoned j part_id env db all =
      ground (arith, all, Every-remove IsReckoned part_id db.parts all)

  -- The other requests leave the parts as they are.
  update-parts :
      (j : ℕ) (dto : Visits.UpdateVisit) (env : Env) (db : Db)
      → (Visits.update j dto env db).1.parts ≡ db.parts
  unfolding Visits.update Visits.draft_visit
  update-parts j dto env db = ground arith

  set_signature-parts :
      (j : ℕ) (url : String) (env : Env) (db : Db)
      → (Visits.set_signature j url env db).1.parts ≡ db.parts
  unfolding Visits.set_signature Visits.draft_visit
  set_signature-parts j url env db = ground arith

  set_report-parts :
      (j : ℕ) (url : String) (env : Env) (db : Db)
      → (Visits.set_report j url env db).1.parts ≡ db.parts
  unfolding Visits.set_report Visits.draft_visit
  set_report-parts j url env db = ground arith

  add_photo-parts :
      (j : ℕ) (url : String) (caption : Option String) (env : Env) (db : Db)
      → (Visits.add_photo j url caption env db).1.parts ≡ db.parts
  unfolding Visits.add_photo Visits.draft_visit
  add_photo-parts j url caption env db = ground arith

  remove_photo-parts :
      (j photo_id : ℕ) (env : Env) (db : Db)
      → (Visits.remove_photo j photo_id env db).1.parts ≡ db.parts
  unfolding Visits.remove_photo Visits.draft_visit
  remove_photo-parts j photo_id env db = ground arith

  create_draft-parts :
      (ticket_id : ℕ) (dto : Visits.CreateVisit) (actor : RequestUser) (env : Env) (db : Db)
      → (Visits.create_draft ticket_id dto actor env db).1.parts ≡ db.parts
  unfolding Visits.create_draft default_name
  create_draft-parts ticket_id dto actor env db =
      elim (Option-cases (lookup ticket_id db.tickets)) [
        | inl e ↦ ground (arith, e)
        | inr (t, e) ↦ ground (arith, e)
      ]

  submit-parts :
      (j : ℕ) (actor : RequestUser) (env : Env) (db : Db)
      → (Visits.submit j actor env db).1.parts ≡ db.parts
  submit-parts j actor env db = elim (submit-writes j actor env db) [
    | inl same ↦ ap (λ (d : Db). d.parts) same
    | inr (w, found, open_yet, k) ↦ ap (λ (d : Db). d.parts) k.same
  ]

  same_parts : {d d' : Dict Part} → d' ≡ d → Every IsReckoned d → Every IsReckoned d'
  same_parts e all = subst (Every IsReckoned) (sym e) all

  handle-Reckoned :
      (r : Visits.Request) (env : Env) (db : Db)
      → env.times ≡ mul
      → Reckoned db
      → Reckoned (Visits.handle r env db).1
  handle-Reckoned (Visits.creating ticket_id dto actor) env db e all =
      same_parts
        (ap (λ (d : Db). d.parts) (discard_answer (Visits.create_draft ticket_id dto actor) env db)
          ∙ create_draft-parts ticket_id dto actor env db)
        all
  handle-Reckoned (Visits.updating j dto) env db e all = same_parts (update-parts j dto env db) all
  handle-Reckoned (Visits.signing j url) env db e all =
      same_parts (set_signature-parts j url env db) all
  handle-Reckoned (Visits.reporting j url) env db e all =
      same_parts (set_report-parts j url env db) all
  handle-Reckoned (Visits.adding_part j dto) env db e all = add_part-Reckoned j dto env db e all
  handle-Reckoned (Visits.updating_part j part_id dto) env db e all =
      update_part-Reckoned j part_id dto env db e all
  handle-Reckoned (Visits.removing_part j part_id) env db e all =
      remove_part-Reckoned j part_id env db all
  handle-Reckoned (Visits.adding_photo j url caption) env db e all =
      same_parts (add_photo-parts j url caption env db) all
  handle-Reckoned (Visits.removing_photo j photo_id) env db e all =
      same_parts (remove_photo-parts j photo_id env db) all
  handle-Reckoned (Visits.submitting j actor) env db e all =
      same_parts
        (ap (λ (d : Db). d.parts) (discard_answer (Visits.submit j actor) env db)
          ∙ submit-parts j actor env db)
        all

-- Whatever JavaScript's product of two numbers is: where every part's amount is the product of its
-- quantity and its selling rate, this holds after any number of requests too, those that throw
-- included.
pub part_amounts_stay_right :
    (mul : ℕ → ℕ → ℕ) (rs : List (Env × Visits.Request)) (db : Db)
    → All (λ q. q.0.times ≡ mul) rs
    → Every (IsReckoned mul) db.parts
    → Every (IsReckoned mul) (serve Visits.handle rs db).parts
part_amounts_stay_right mul =
    serve-keeps_if Visits.handle (Multiplies mul) (Reckoned mul) (handle-Reckoned mul)
