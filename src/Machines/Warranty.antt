-- ===== src/Machines/Warranty.antt =====
-- Machines: backend/src/ticketing/equipment/equipment.service.ts. Columns that only this screen shows are
-- left out.
use Prim.Native.String.{◌++◌}
use mathlib.Core.Option
use mathlib.Core.List.{◌++◌ as append}
use proman_edge_ace.Prelude.{
  ℕ, ◌+◌, ◌*◌, String, true, false, not, Option, none, some, List, map, if◌then◌else◌, keep, leb,
  ltb, ◌==◌, nat_eq, get_or, or_else,
}
use proman_edge_ace.Prelude.Dict.{lookup}
use proman_edge_ace.Prelude.Text.{show}
use proman_edge_ace.Domain.Masters.{
  EquipStatus, WarrantyStatus, under_warranty, expiring_soon, out_of_warranty,
}
use proman_edge_ace.Domain.Contracts.{EquipCategory}
use proman_edge_ace.Domain.Logs.{web_ui}
use proman_edge_ace.Schema.{Db, Equipment, AuditEntry}
use proman_edge_ace.Env.{Env}
use proman_edge_ace.Action.{
  Action, ◌>>=◌, ◌>>◌, pure, ask, gets, modify_db, throw_if, transaction, with_some, or_throw,
  bad_request,
}
use proman_edge_ace.Store.{audit}
use proman_edge_ace.Store.Tables.{equipment_table, find_row, create_row, update_row, delete_row}
use proman_edge_ace.Workflow.{given}
use proman_edge_ace.Tickets.Labels.{RequestUser}

abbrev pub expiring_soon_days : ℕ
expiring_soon_days = 45

-- 45 days in milliseconds
abbrev pub soon : ℕ
soon = expiring_soon_days * 86400000

unfoldable pub compute_warranty_status : ℕ → ℕ → WarrantyStatus
compute_warranty_status now end' =
    if ltb end' now
    then out_of_warranty
    else if leb end' (now + soon)
    then expiring_soon
    else under_warranty

pub record EquipmentDto : Type 0 where
  pub serial_no : String
  pub item_code : String
  pub item_name : String
  pub equipment_category : EquipCategory
  pub model_number : Option String
  pub customer_id : ℕ
  pub site_id : Option ℕ
  pub delivery_date : Option String
  pub warranty_start_date : String
  pub warranty_end_date : String
  pub warranty_period_months : ℕ
  pub operating_hours_meter : Option ℕ
  pub status : Option EquipStatus
  pub amc_contract_ids : Option (List ℕ)

abbrev pub new_equipment : Env → EquipmentDto → Equipment
new_equipment env dto = record {
  serial_no = dto.serial_no;
  item_code = dto.item_code;
  item_name = dto.item_name;
  equipment_category = dto.equipment_category;
  model_number = dto.model_number;
  customer_id = dto.customer_id;
  site_id = dto.site_id;
  delivery_date = Option.map env.parse_date (given dto.delivery_date);
  status = get_or dto.status EquipStatus.active;
  warranty_status = compute_warranty_status env.now (env.parse_date dto.warranty_end_date);
  warranty_start_date = env.parse_date dto.warranty_start_date;
  warranty_end_date = env.parse_date dto.warranty_end_date;
  warranty_period_months = dto.warranty_period_months;
  warranty_outreach_sent_at = none;
  operating_hours_meter = dto.operating_hours_meter;
  predictive_hours_checkpoint = none;
  quantity = none;
  erp_tracking_status = none;
  possible_duplicate_of_id = none;
  duplicate_flag_resolved = false;
}

-- `amcContracts: { connect: … }`
abbrev pub cover : ℕ → List ℕ → Db → Db
cover id contracts db = record db {
  covered = append db.covered (map (λ (c : ℕ). (c, id)) contracts);
}

unfoldable pub create : EquipmentDto → Action (ℕ × Equipment)
create dto = do
  env ← ask (λ env. env)
  r ← create_row equipment_table (new_equipment env dto)
  with_some dto.amc_contract_ids (λ ids. modify_db (cover r.0 ids))
  pure r

-- `undefined` leaves a column as it is. A warranty that now ends later can have its outreach again.
abbrev pub updated_equipment : Env → EquipmentDto → Equipment → Equipment → Equipment
updated_equipment env dto read e =
    let end' = env.parse_date dto.warranty_end_date in
    record e {
      warranty_outreach_sent_at =
          if ltb read.warranty_end_date end' then none else e.warranty_outreach_sent_at;
      serial_no = dto.serial_no;
      item_code = dto.item_code;
      item_name = dto.item_name;
      equipment_category = dto.equipment_category;
      model_number = or_else dto.model_number e.model_number;
      customer_id = dto.customer_id;
      site_id = or_else dto.site_id e.site_id;
      delivery_date = or_else (Option.map env.parse_date (given dto.delivery_date)) e.delivery_date;
      warranty_start_date = env.parse_date dto.warranty_start_date;
      warranty_end_date = end';
      warranty_period_months = dto.warranty_period_months;
      warranty_status = compute_warranty_status env.now end';
      operating_hours_meter = or_else dto.operating_hours_meter e.operating_hours_meter;
      status = get_or dto.status e.status;
    }

-- `amcContracts: { set: … }` clears the machine's links first.
abbrev pub uncover : ℕ → Db → Db
uncover id db = record db { covered = keep (λ (l : ℕ × ℕ). not (l.1 == id)) db.covered }

unfoldable pub update : ℕ → EquipmentDto → Action Equipment
update id dto = do
  existing ← find_row equipment_table id
  env ← ask (λ env. env)
  updated ← update_row equipment_table id (updated_equipment env dto existing)
  with_some dto.amc_contract_ids (λ ids. modify_db (λ db. cover id ids (uncover id db)))
  pure updated

pub data DuplicateAction : Type 0 where
  merge dismiss : DuplicateAction

-- An entry of `resolveDuplicate` in the audit log
abbrev pub resolution_entry : ℕ → Option String → String → ℕ → AuditEntry
resolution_entry id old new actor = record {
  entity_type = "EQUIPMENT";
  entity_id = id;
  field_name = "duplicateResolution";
  old_value = old;
  new_value = some new;
  changed_by_user_id = actor;
  change_source = web_ui;
}

-- What the original takes from the record that is merged into it.
abbrev pub merged : Equipment → Equipment → Equipment → Equipment
merged duplicate read e = record e {
  warranty_start_date = duplicate.warranty_start_date;
  warranty_end_date = duplicate.warranty_end_date;
  warranty_period_months = duplicate.warranty_period_months;
  warranty_status = duplicate.warranty_status;
  delivery_date = duplicate.delivery_date;
  quantity = duplicate.quantity;
  erp_tracking_status = duplicate.erp_tracking_status;
  model_number = or_else read.model_number duplicate.model_number;
}

-- The transaction of MERGE
unfoldable pub merge_duplicate : ℕ → Equipment → ℕ → Equipment → RequestUser → Action (Unit {0})
merge_duplicate id duplicate original_id original actor = transaction do
  update_row equipment_table original_id (merged duplicate original)
  delete_row equipment_table id
  audit (
      resolution_entry id (some duplicate.serial_no)
        ("MERGED into "
          ++ original.serial_no
          ++ " (id "
          ++ show original_id
          ++ ") — this record deleted")
        actor.user_id)
  audit (
      resolution_entry original_id none
        ("Received merge from " ++ duplicate.serial_no ++ " (deleted)") actor.user_id)

-- The transaction of DISMISS
unfoldable pub dismiss_duplicate : ℕ → Equipment → RequestUser → Action Equipment
dismiss_duplicate id original actor = transaction do
  updated ← update_row equipment_table id λ e. record e { duplicate_flag_resolved = true }
  audit (
      resolution_entry id none ("Dismissed — confirmed not a duplicate of " ++ original.serial_no)
        actor.user_id)
  pure updated

unfoldable pub resolve_duplicate : ℕ → DuplicateAction → RequestUser → Action Equipment
resolve_duplicate id action actor = do
  equipment ← find_row equipment_table id
  original_id ←
      or_throw equipment.possible_duplicate_of_id
        (bad_request "This equipment record has no unresolved duplicate flag")
  rows ← gets (λ db. db.equipment)
  original ←
      or_throw (lookup original_id rows)
        (bad_request "This equipment record has no unresolved duplicate flag")
  throw_if equipment.duplicate_flag_resolved
      (bad_request "This duplicate flag has already been resolved")
  elim action [
    | merge ↦ do
      merge_duplicate id equipment original_id original actor
      find_row equipment_table original_id
    | dismiss ↦ dismiss_duplicate id original actor
  ]
