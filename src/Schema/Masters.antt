-- ===== src/Schema/Masters.antt =====
-- Users, customers, equipment and service-level policies: backend/prisma/schema.prisma.
use proman_edge_ace.Prelude.{ℕ, String, Bool, Option, List}
use proman_edge_ace.Domain.Ticketing.{Priority}
use proman_edge_ace.Domain.People.{Role, Region}
use proman_edge_ace.Domain.Masters.{AccountStatus, EquipStatus, WarrantyStatus}
use proman_edge_ace.Domain.Contracts.{EquipCategory}

pub record User : Type 0 where
  pub full_name : String
  pub email : String
  pub mobile : String
  pub password_hash : String
  pub role : Role
  pub is_active : Bool
  pub must_change_password : Bool
  pub token_version : ℕ
  pub failed_login_attempts : ℕ
  pub locked_until : Option ℕ
  pub skill_tags : List String
  pub engineer_level : Option String
  pub erp_employee_id : Option String

pub record Customer : Type 0 where
  pub customer_name : String
  pub erpnext_customer_id : Option String
  pub region : Option Region
  pub billing_state : Option String
  pub primary_contact_email : String
  pub primary_contact_mobile : String
  pub account_status : AccountStatus

pub record Equipment : Type 0 where
  pub serial_no : String
  pub item_code : String
  pub item_name : String
  pub equipment_category : EquipCategory
  pub model_number : Option String
  pub customer_id : ℕ
  pub site_id : Option ℕ
  pub delivery_date : Option ℕ
  pub status : EquipStatus
  pub warranty_status : WarrantyStatus
  pub warranty_start_date : ℕ
  pub warranty_end_date : ℕ
  pub warranty_period_months : ℕ
  pub warranty_outreach_sent_at : Option ℕ
  pub operating_hours_meter : Option ℕ  -- in thousandths of an hour, as the checkpoint
  pub predictive_hours_checkpoint : Option ℕ
  pub quantity : Option ℕ
  pub erp_tracking_status : Option String
  pub possible_duplicate_of_id : Option ℕ
  pub duplicate_flag_resolved : Bool

pub record SlaPolicy : Type 0 where
  pub service_type : String
  pub priority : Priority
  pub response_hours : Option ℕ
  pub resolution_hours : Option ℕ
  pub level2_delay_hours : Option ℕ
  pub level3_delay_hours : Option ℕ
