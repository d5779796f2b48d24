-- ===== src/Tests/ContractTests.antt =====
-- The theorems on contracts, machines, users and queries, each at a concrete input.
use proman_edge_ace.Prelude.{
  ℕ, ◌+◌, ◌*◌, ◌≤◌, ◌≡◌, refl, ◌↔◌, inl, true, false, none, some, List, [], ◌∷◌, All, arith, nat_eq,
  string_eq, length, map, keep, ◌==◌,
}
use mathlib.Core.Option
use proman_edge_ace.Prelude.Members.{In}
use proman_edge_ace.Prelude.Dict.{lookup}
use proman_edge_ace.Domain.Ticketing.{working, ticket_status_eq}
use proman_edge_ace.Domain.People.{role_eq}
use proman_edge_ace.Domain.Contracts
use proman_edge_ace.Schema.{Db, AmcContract, PredictiveRule}
use proman_edge_ace.Action.{ok}
use proman_edge_ace.Action.Requests.{serve}
use proman_edge_ace.Auth.{Crypto}
use proman_edge_ace.Contracts.{Overlap, scheduled, overlaps_among}
use proman_edge_ace.Contracts.Renewal.{alert7, run}
use proman_edge_ace.Contracts.Alerts.{announcements, daily, announced_at_most_once}
use proman_edge_ace.Contracts.DailyRun.{HasEnded, run_refines_daily, ended_contract_lapses}
use proman_edge_ace.Contracts.Spacing.{IsSpaced, planned_visits_spread_evenly}
use proman_edge_ace.Contracts.Overlaps.{IsOverlap, warnings_are_the_overlaps}
use proman_edge_ace.Machines.Engines.{pm_dates}
use proman_edge_ace.Machines.PmDates.{IsSchedule, pm_dates_are_complete}
use proman_edge_ace.Tickets.Queries.{Filters, Page, whole, list, region_of}
use proman_edge_ace.Tickets.Queries.Scope.{IsInRegions, page_stays_in_scope}
use proman_edge_ace.Users
use proman_edge_ace.Users.Administrators.{administrators, administrators_stay}
use proman_edge_ace.Tests.Fixtures.{at_time, ticket, db_with, the_asm}

-- A contract of customer 1 until the time 5000.
abbrev contract : AmcContract
contract = record {
  contract_reference_no = "AMC-1";
  customer_id = 1;
  start_date = 0;
  end_date = 5000;
  contract_value = "100000";
  visits_included = 4;
  parts_coverage = Contracts.no_parts;
  scope_of_services = none;
  exclusions = none;
  renewal_status = Contracts.RenewalStatus.active;
  renewal_alert30_sent_at = none;
  renewal_alert15_sent_at = none;
  renewal_alert7_sent_at = none;
  owning_asm_id = none;
  previous_contract_id = none;
  signed_agreement_url = none;
  terms_and_conditions = none;
}

abbrev covered_db : Db
covered_db = record (db_with (ticket working (some 2) 0)) {
  contracts = (1, contract) ∷ [];
  covered = (1, 1) ∷ [];
}

announced_at_most_once_example : announcements alert7 (1000 ∷ 2000 ∷ 3000 ∷ []) contract ≤ 1
announced_at_most_once_example = announced_at_most_once alert7 (1000 ∷ 2000 ∷ 3000 ∷ []) contract

run_refines_daily_example :
    (db' : Db) × (run (at_time 2000) covered_db ≡ (ok tt, db'))
    × ((k : ℕ) → lookup k db'.contracts ≡ Option.map (daily 2000) (lookup k covered_db.contracts))
run_refines_daily_example =
    run_refines_daily (at_time 2000) covered_db 4 refl (tt, tt) ((_, refl), tt)

ended_contract_lapses_example :
    (db' : Db) × (c' : AmcContract) × (run (at_time 6000) covered_db ≡ (ok tt, db'))
    × (lookup 1 db'.contracts ≡ some c')
    × HasEnded contract c'
ended_contract_lapses_example =
    ended_contract_lapses (at_time 6000) covered_db 4 1 contract refl (tt, tt) ((_, refl), tt) refl
      (omega arith)

planned_visits_spread_evenly_example :
    (length (scheduled (at_time 0) 1 4 0 5000 (1 ∷ 2 ∷ []) none) ≡ 4)
    × All (IsSpaced 1 0 5000 4 (1 ∷ 2 ∷ [])) (scheduled (at_time 0) 1 4 0 5000 (1 ∷ 2 ∷ []) none)
planned_visits_spread_evenly_example =
    planned_visits_spread_evenly (at_time 0) 1 4 0 5000 (1 ∷ 2 ∷ []) (omega arith) (omega arith)
      (omega arith)

abbrev warned : Overlap
warned = record { equipment_id = 1; equipment_serial_no = "S1"; other_contract_ref_no = "AMC-1" }

warnings_are_the_overlaps_example :
    In warned (overlaps_among covered_db 2 (1 ∷ []) 4000 9000 covered_db.contracts)
    ↔ IsOverlap covered_db 2 (1 ∷ []) 4000 9000 covered_db.contracts warned
warnings_are_the_overlaps_example =
    warnings_are_the_overlaps covered_db 2 (1 ∷ []) 4000 9000 covered_db.contracts warned

pm_dates_are_complete_example :
    (ds : List ℕ) × (pm_dates (λ t n. t + n * 30) 367 0 365 3 1 ≡ some ds)
    × IsSchedule (λ t n. t + n * 30) 0 365 3 1 ds
pm_dates_are_complete_example =
    pm_dates_are_complete (λ t n. t + n * 30) 0 365 3 (λ n. omega arith) (omega arith)

-- 1700 hours, in thousandths, with an interval of 500
abbrev every_500 : PredictiveRule
every_500 = record {
  equipment_category = Contracts.EquipCategory.crusher;
  months_since_service = 6;
  operating_hours_interval = 500;
  breakdown_frequency_threshold = 3;
  breakdown_frequency_window_months = 6;
  warranty_pm_interval_months = 3;
}

abbrev every_ticket : Filters
every_ticket = record {
  status = none;
  exclude_closed = false;
  priority = none;
  region = none;
  service_type = none;
  assigned = none;
  sla_breached = false;
  rejected = false;
  search = none;
  page = whole 1;
  page_size = whole 25;
  sort_by = none;
  ascending = false;
}

page_stays_in_scope_example :
    (page : Page) × (list (λ order db rows. rows) the_asm every_ticket (at_time 2000) covered_db
      ≡ (ok page, covered_db))
    × All
        (λ r.
          IsInRegions
            (map (λ u. u.1) (keep (λ u. u.0 == 1) covered_db.user_regions))
            (region_of covered_db r.1))
        page.rows
page_stays_in_scope_example =
    page_stays_in_scope (λ order db rows. rows) the_asm every_ticket (at_time 2000) covered_db
      (λ P order db rows all. all) (inl refl)

abbrev crypto : Crypto
crypto = record {
  compare = λ password hash. password == hash;
  hash = λ password. password;
  sign = λ now payload. "token";
  verify = λ now token. none;
  policy = λ password. true;
}

administrators_stay_example :
    administrators
      (serve (Users.handle crypto) ((at_time 2000, Users.resetting 2 "new") ∷ []) covered_db).users
    ≡ administrators covered_db.users
administrators_stay_example =
    administrators_stay crypto ((at_time 2000, Users.resetting 2 "new") ∷ []) covered_db
