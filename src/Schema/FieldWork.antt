-- ===== src/Schema/FieldWork.antt =====
-- Field service visits with their parts and photos, and the price lists:
-- backend/prisma/schema.prisma. A quantity or an amount of money is a number of JavaScript's, under its
-- bits; a coordinate is its text.
use proman_edge_ace.Prelude.{ℕ, String, Bool, Option}
use proman_edge_ace.Domain.Masters.{FsvStatus}

pub record Visit : Type 0 where
  pub visit_no : String
  pub ticket_id : ℕ
  pub visit_number : ℕ
  pub engineer_id : ℕ
  pub visit_date : ℕ
  pub price_list_name : Option String
  pub travel_start_time : Option ℕ
  pub site_arrival_time : Option ℕ
  pub work_start_time : Option ℕ
  pub work_end_time : Option ℕ
  pub work_performed : Option String
  pub findings_root_cause : Option String
  pub recommendations : Option String
  pub customer_rep_name : Option String
  pub customer_rep_designation : Option String
  pub customer_sign_off : Bool
  pub customer_signature_url : Option String
  pub gps_lat_at_checkin : Option String
  pub gps_long_at_checkin : Option String
  pub no_parts_used : Bool
  pub status : FsvStatus
  pub submitted_at : Option ℕ
  pub submitted_by : Option ℕ
  pub visit_report_url : Option String

pub record Part : Type 0 where
  pub visit_id : ℕ
  pub item_code : String
  pub item_name : String
  pub qty : ℕ
  pub uom : String
  pub warehouse : String
  pub rate : ℕ
  pub selling_rate : ℕ
  pub amount : ℕ

pub record Photo : Type 0 where
  pub visit_id : ℕ
  pub url : String
  pub caption : Option String

pub record PriceList : Type 0 where
  pub name : String
  pub is_default : Bool
  pub is_active : Bool
