-- ===== src/Visits/Items.antt =====
-- The parts and the photos of a visit: backend/src/ticketing/fsv/fsv.service.ts.
use proman_edge_ace.Prelude.{ℕ, String, false, Option, length, leb, get_or}
use proman_edge_ace.Schema.{Part}
use proman_edge_ace.Env.{Env}
use proman_edge_ace.Action.{Action, ◌>>=◌, ◌>>◌, pure, ask, gets, throw_if, run_if, bad_request}
use proman_edge_ace.Store.Tables.{
  visit_table, part_table, photo_table, find_row, create_row, update_row, delete_row,
}
use proman_edge_ace.Visits.Editing.{draft_visit, photos_of, max_photos}

pub record AddPart : Type 0 where
  pub item_code : String
  pub item_name : String
  pub qty : ℕ
  pub uom : String
  pub warehouse : String
  pub rate : ℕ
  pub selling_rate : ℕ

abbrev pub new_part : Env → ℕ → AddPart → Part
new_part env visit_id dto = record {
  visit_id = visit_id;
  item_code = dto.item_code;
  item_name = dto.item_name;
  qty = dto.qty;
  uom = dto.uom;
  warehouse = dto.warehouse;
  rate = dto.rate;
  selling_rate = dto.selling_rate;
  amount = env.times dto.qty dto.selling_rate;
}

unfoldable pub clear_no_parts : ℕ → Action (Unit {0})
clear_no_parts id = do update_row visit_table id λ v. record v { no_parts_used = false }; pure tt

unfoldable pub add_part : ℕ → AddPart → Action (Unit {0})
unfolding clear_no_parts
add_part id dto = do
  visit ← draft_visit id
  env ← ask (λ env. env)
  run_if visit.no_parts_used (clear_no_parts id)
  create_row part_table (new_part env id dto)
  pure tt

pub record UpdatePart : Type 0 where
  pub qty : Option ℕ
  pub warehouse : Option String
  pub rate : Option ℕ
  pub selling_rate : Option ℕ

-- `amount` is reckoned from the row that was read.
abbrev pub edited_part : Env → UpdatePart → Part → Part → Part
edited_part env dto read p = record p {
  qty = get_or dto.qty p.qty;
  warehouse = get_or dto.warehouse p.warehouse;
  rate = get_or dto.rate p.rate;
  selling_rate = get_or dto.selling_rate p.selling_rate;
  amount = env.times (get_or dto.qty read.qty) (get_or dto.selling_rate read.selling_rate);
}

unfoldable pub update_part : ℕ → ℕ → UpdatePart → Action (Unit {0})
update_part id part_id dto = do
  draft_visit id
  part ← find_row part_table part_id
  env ← ask (λ env. env)
  update_row part_table part_id (edited_part env dto part)
  pure tt

unfoldable pub remove_part : ℕ → ℕ → Action (Unit {0})
remove_part id part_id = do draft_visit id; delete_row part_table part_id; pure tt

unfoldable pub add_photo : ℕ → String → Option String → Action (Unit {0})
add_photo id url caption = do
  draft_visit id
  photos ← gets (λ db. db.photos)
  throw_if (leb max_photos (length (photos_of id photos)))
      (bad_request "Maximum 5 photos per visit")
  create_row photo_table (record { visit_id = id; url = url; caption = caption })
  pure tt

unfoldable pub remove_photo : ℕ → ℕ → Action (Unit {0})
remove_photo id photo_id = do draft_visit id; delete_row photo_table photo_id; pure tt
