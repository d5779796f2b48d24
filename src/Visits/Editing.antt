-- ===== src/Visits/Editing.antt =====
-- A field service visit while it is a draft: backend/src/ticketing/fsv/fsv.service.ts. `undefined` in a
-- request leaves a column as it is.
use Prim.Native.String.{◌++◌}
use mathlib.Core.Option
use text.Mathlib.Text.{starts_with}
use proman_edge_ace.Prelude.{
  ℕ, ◌+◌, String, Bool, false, not, Option, none, some, keep, length, ◌==◌, nat_eq, get_or, or_else,
  is_just, map,
}
use proman_edge_ace.Prelude.Dict.{Dict}
use proman_edge_ace.Prelude.Text.{show, pad_zeros}
use proman_edge_ace.Domain.Masters.{draft, submitted, fsv_status_eq}
use proman_edge_ace.Schema.{Visit, Part, Photo}
use proman_edge_ace.Env.{Env}
use proman_edge_ace.Action.{Action, ◌>>=◌, ◌>>◌, pure, ask, gets, throw_if, bad_request, forbidden}
use proman_edge_ace.Store.{find_ticket}
use proman_edge_ace.Store.Tables.{visit_table, find_row, create_row, update_row}
use proman_edge_ace.PriceLists.{default_name}
use proman_edge_ace.Workflow.{given}
use proman_edge_ace.Tickets.Labels.{RequestUser}

abbrev pub max_photos : ℕ
max_photos = 5

-- `PREFIX-YYYY-NNNNNN`, where `numbers` are in use
unfoldable pub next_no : String → ℕ → Dict String → String
next_no prefix year numbers =
    let start = prefix ++ "-" ++ show year ++ "-" in
    start ++ pad_zeros 6 (show (length (keep (λ r. starts_with r.1 start) numbers) + 1))

abbrev pub visits_of : ℕ → Dict Visit → Dict Visit
visits_of ticket_id = keep λ (r : ℕ × Visit). r.1.ticket_id == ticket_id

abbrev pub parts_of : ℕ → Dict Part → Dict Part
parts_of visit_id = keep λ (r : ℕ × Part). r.1.visit_id == visit_id

abbrev pub photos_of : ℕ → Dict Photo → Dict Photo
photos_of visit_id = keep λ (r : ℕ × Photo). r.1.visit_id == visit_id

pub record CreateVisit : Type 0 where
  pub visit_date : String
  pub price_list_name : Option String
  pub gps_lat_at_checkin : Option String
  pub gps_long_at_checkin : Option String

abbrev pub new_visit : Env → ℕ → RequestUser → CreateVisit → String → ℕ → Option String → Visit
new_visit env ticket_id actor dto visit_no visit_number price_list = record {
  visit_no = visit_no;
  ticket_id = ticket_id;
  visit_number = visit_number;
  engineer_id = actor.user_id;
  visit_date = env.parse_date dto.visit_date;
  price_list_name = price_list;
  travel_start_time = none;
  site_arrival_time = none;
  work_start_time = none;
  work_end_time = none;
  work_performed = none;
  findings_root_cause = none;
  recommendations = none;
  customer_rep_name = none;
  customer_rep_designation = none;
  customer_sign_off = false;
  customer_signature_url = none;
  gps_lat_at_checkin = dto.gps_lat_at_checkin;
  gps_long_at_checkin = dto.gps_long_at_checkin;
  no_parts_used = false;
  status = draft;
  submitted_at = none;
  submitted_by = none;
  visit_report_url = none;
}

-- The numbers of the visits on file
abbrev pub visit_nos : Dict Visit → Dict String
visit_nos = map λ (r : ℕ × Visit). (r.0, r.1.visit_no)

unfoldable pub create_draft : ℕ → CreateVisit → RequestUser → Action Visit
create_draft ticket_id dto actor = do
  ticket ← find_ticket ticket_id
  throw_if (not (is_just ticket.assigned_engineer_id actor.user_id))
      (forbidden "Only the assigned engineer can open a Field Service Visit for this ticket")
  visits ← gets (λ db. db.visits)
  env ← ask (λ env. env)
  default ← default_name
  r ← create_row visit_table (
      new_visit env ticket_id actor dto (next_no "FSV" env.local_year (visit_nos visits))
        (length (visits_of ticket_id visits) + 1) (or_else dto.price_list_name default))
  pure r.1

pub record UpdateVisit : Type 0 where
  pub travel_start_time : Option String
  pub site_arrival_time : Option String
  pub work_start_time : Option String
  pub work_end_time : Option String
  pub work_performed : Option String
  pub findings_root_cause : Option String
  pub recommendations : Option String
  pub customer_rep_name : Option String
  pub customer_rep_designation : Option String
  pub customer_sign_off : Option Bool
  pub customer_signature_url : Option String
  pub no_parts_used : Option Bool
  pub gps_lat_at_checkin : Option String
  pub gps_long_at_checkin : Option String

-- A date of the request, or else the old one.
abbrev pub dated : Env → Option String → Option ℕ → Option ℕ
dated env date old = or_else (Option.map env.parse_date (given date)) old

abbrev pub edited_visit : Env → UpdateVisit → Visit → Visit
edited_visit env dto v = record v {
  travel_start_time = dated env dto.travel_start_time v.travel_start_time;
  site_arrival_time = dated env dto.site_arrival_time v.site_arrival_time;
  work_start_time = dated env dto.work_start_time v.work_start_time;
  work_end_time = dated env dto.work_end_time v.work_end_time;
  work_performed = or_else dto.work_performed v.work_performed;
  findings_root_cause = or_else dto.findings_root_cause v.findings_root_cause;
  recommendations = or_else dto.recommendations v.recommendations;
  customer_rep_name = or_else dto.customer_rep_name v.customer_rep_name;
  customer_rep_designation = or_else dto.customer_rep_designation v.customer_rep_designation;
  customer_sign_off = get_or dto.customer_sign_off v.customer_sign_off;
  customer_signature_url = or_else dto.customer_signature_url v.customer_signature_url;
  no_parts_used = get_or dto.no_parts_used v.no_parts_used;
  gps_lat_at_checkin = or_else dto.gps_lat_at_checkin v.gps_lat_at_checkin;
  gps_long_at_checkin = or_else dto.gps_long_at_checkin v.gps_long_at_checkin;
}

-- The visit, which must not have been submitted.
unfoldable pub draft_visit : ℕ → Action Visit
draft_visit id = do
  visit ← find_row visit_table id
  throw_if (visit.status == submitted)
      (bad_request "This Field Service Visit has already been submitted and is immutable")
  pure visit

unfoldable pub update : ℕ → UpdateVisit → Action (Unit {0})
update id dto = do
  draft_visit id
  env ← ask (λ env. env)
  update_row visit_table id (edited_visit env dto)
  pure tt

unfoldable pub set_signature : ℕ → String → Action (Unit {0})
set_signature id url = do
  draft_visit id
  update_row visit_table id λ v. record v { customer_signature_url = some url }
  pure tt

unfoldable pub set_report : ℕ → String → Action (Unit {0})
set_report id url = do
  draft_visit id
  update_row visit_table id λ v. record v { visit_report_url = some url }
  pure tt
