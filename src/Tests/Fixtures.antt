-- ===== src/Tests/Fixtures.antt =====
-- A small database of backend/prisma/schema.prisma and its surroundings, for the tests.
use proman_edge_ace.Prelude.{
  ℕ, ◌+◌, ◌-◌, ◌*◌, String, true, false, Option, none, some, [], ◌∷◌, string_eq, inr,
}
use proman_edge_ace.Prelude.Text.{show, contains}
use proman_edge_ace.Domain.Ticketing.{TicketStatus, pending, medium, customer_call, on_track}
use proman_edge_ace.Domain.People.{Role, asm, engineer, manager, admin, north}
use proman_edge_ace.Domain.Masters
use proman_edge_ace.Domain.Contracts.{EquipCategory}
use proman_edge_ace.Schema.{Db, User, Customer, Equipment, Visit, Ticket, Sla}
use proman_edge_ace.Env.{Env, refused}
use proman_edge_ace.Tickets.Labels.{RequestUser}

abbrev pub at_time : ℕ → Env
at_time now = record {
  now = now;
  utc_offset = 19800000;
  iso_string = λ t. "2026-08-06T00:00:00.000Z";
  iso_date = λ t. "2026-08-06";
  parse_date = λ s. 0;
  local_year = 2026;
  local_month = 7;
  has_smtp = true;
  has_firebase = true;
  has_whatsapp = true;
  mail = λ m. none;
  push_to = λ token m. refused "gone" "messaging/registration-token-not-registered";
  whatsapp = λ m. none;
  partner_actor_user_id = some 4;
  frontend_url = none;
  company_state = none;
  sales_taxes_template = "Sales SGST 9% & CGST9% - PISPL";
  sales_igst_template = "Sales IGST 18%";
  to_lower_case = λ s. s;
  matches = λ s q. contains s q;
  tag_matches = λ s q. contains s q;
  add_months = λ t n. t + n * 2592000000;
  sub_months = λ t n. t - n * 2592000000;
  plus = λ a b. a + b;
  times = λ a b. a * b;
  number_text = show;
  erp = record {
    quotation_draft = λ ticket customer lines until price_list taxes. inr "SAL-QTN-1";
    sales_order_from_quotation = λ quotation po date. inr "SAL-ORD-1";
    find_sales_order_by_po_no = λ po. inr none;
    update_quotation_remarks = λ quotation ticket po date. inr tt;
    doc_status =
        λ doctype name. inr (record { status = "To Bill"; docstatus = 1; per_billed = none });
    draft_sales_invoice = λ order. inr "ACC-SINV-1";
    draft_zero_rate_sales_invoice = λ order. inr "ACC-SINV-2";
    sales_order_direct = λ ticket customer lines po date delivery. inr "SAL-ORD-2";
    find_delivery_note = λ order. inr none;
  };
}

abbrev pub user : String → Role → User
user name role = record {
  full_name = name;
  email = name;
  mobile = "";
  password_hash = "secret";
  role = role;
  is_active = true;
  must_change_password = false;
  token_version = 0;
  failed_login_attempts = 0;
  locked_until = none;
  skill_tags = [];
  engineer_level = none;
  erp_employee_id = none;
}

abbrev pub customer : Masters.AccountStatus → Customer
customer status = record {
  customer_name = "Works";
  erpnext_customer_id = none;
  region = some north;
  billing_state = none;
  primary_contact_email = "";
  primary_contact_mobile = "";
  account_status = status;
}

abbrev pub machine : Equipment
machine = record {
  serial_no = "S1";
  item_code = "C1";
  item_name = "Crusher";
  equipment_category = EquipCategory.crusher;
  model_number = none;
  customer_id = 1;
  site_id = none;
  delivery_date = none;
  status = Masters.EquipStatus.active;
  warranty_status = Masters.under_warranty;
  warranty_start_date = 0;
  warranty_end_date = 0;
  warranty_period_months = 12;
  warranty_outreach_sent_at = none;
  operating_hours_meter = none;
  predictive_hours_checkpoint = none;
  quantity = none;
  erp_tracking_status = none;
  possible_duplicate_of_id = none;
  duplicate_flag_resolved = false;
}

abbrev pub clocks : Sla
clocks = record {
  target_date = none;
  response_due = some 100000;
  resolution_due = some 900000;
  response_met = false;
  resolution_met = false;
  response_status = on_track;
  resolution_status = on_track;
  response_breached_at = none;
  resolution_breached_at = none;
  response_escalation_level = 0;
  resolution_escalation_level = 0;
  paused_at = none;
  paused_minutes = 0;
  policy_id = none;
}

-- A visit of engineer 2 to ticket 7.
abbrev pub visit : Masters.FsvStatus → Visit
visit status = record {
  visit_no = "FSV-2026-000001";
  ticket_id = 7;
  visit_number = 1;
  engineer_id = 2;
  visit_date = 0;
  price_list_name = none;
  travel_start_time = none;
  site_arrival_time = none;
  work_start_time = none;
  work_end_time = none;
  work_performed = some "Replaced the main bearing";
  findings_root_cause = none;
  recommendations = none;
  customer_rep_name = some "Ravi";
  customer_rep_designation = none;
  customer_sign_off = true;
  customer_signature_url = none;
  gps_lat_at_checkin = none;
  gps_long_at_checkin = none;
  no_parts_used = true;
  status = status;
  submitted_at = none;
  submitted_by = none;
  visit_report_url = some "report.pdf";
}

-- A ticket of customer 1 on machine 1, with a status, an engineer and a number of rejections.
abbrev pub ticket : TicketStatus → Option ℕ → ℕ → Ticket
ticket status engineer_id rejections = record {
  ticket_no = "ACE2627:00001";
  source = customer_call;
  service_type = none;
  customer_category = none;
  priority = medium;
  status = status;
  subject = "Crusher";
  description = "noise";
  customer_id = 1;
  equipment_id = some 1;
  site_id = none;
  warranty_status_at_creation = none;
  warranty_eligible = false;
  override_reason = none;
  reached_site_gps = none;
  sla = clocks;
  rejections = record {
    rejection_count = rejections;
    rejection_reasons = [];
    escalated_multiple_rejections = false;
    escalation_acknowledged_at = none;
    escalation_acknowledged_by_user_id = none;
  };
  csat = record { survey_sent = false; score = none; response_text = none };
  created_by_user_id = 4;
  assigned_asm_id = some 1;
  assigned_engineer_id = engineer_id;
  re_open_count = 0;
  pending_reason = none;
  pending_notes = none;
  resolution_summary = none;
  possible_duplicate_of_id = none;
  duplicate_flag_resolved = false;
  tags = [];
  created_at = 1000;
  closed_at = none;
  erpnext_invoice_id = none;
}

-- One ticket, under the key 7.
abbrev pub db_of : Masters.AccountStatus → Ticket → Db
db_of status t = record {
  tickets = (7, t) ∷ [];
  audit_log = [];
  notification_log = [];
  templates = [];
  users =
      (1, user "asha" asm)
      ∷ (2, user "eshan" engineer)
      ∷ (3, user "mira" manager)
      ∷ (4, user "adi" admin)
      ∷ [];
  user_regions = (1, north) ∷ (3, north) ∷ [];
  user_companies = [];
  push_tokens = [];
  skill_tags = [];
  billing_levels = [];
  erp_employees = [];
  customers = (1, customer status) ∷ [];
  equipment = (1, machine) ∷ [];
  sites = [];
  visits = (1, visit Masters.submitted) ∷ [];
  parts = [];
  photos = [];
  price_lists = [];
  quotations = [];
  quotation_items = [];
  deliveries = [];
  contracts = [];
  covered = [];
  scheduled_visits = [];
  pm_visits = [];
  predictive_rules = [];
  amc_look_ahead = none;
  pm_look_ahead = none;
  service_types = [];
  pause_states = pending ∷ [];
  sla_policies = [];
  holidays = [];
  notification_rules = [];
}

abbrev pub db_with : Ticket → Db
db_with t = db_of Masters.AccountStatus.active t

abbrev pub the_engineer : RequestUser
the_engineer = record { user_id = 2; role = engineer }

abbrev pub the_asm : RequestUser
the_asm = record { user_id = 1; role = asm }

abbrev pub the_manager : RequestUser
the_manager = record { user_id = 3; role = manager }

abbrev pub the_admin : RequestUser
the_admin = record { user_id = 4; role = admin }
