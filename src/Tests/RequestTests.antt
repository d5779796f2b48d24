-- ===== src/Tests/RequestTests.antt =====
-- The theorems on requests, each at a concrete input.
use proman_edge_ace.Prelude.{
  ◌+◌, ◌≡◌, refl, ◌⊎◌, inl, inr, ℕ, false, none, some, [], ◌∷◌, arith, nat_eq, length,
}
use proman_edge_ace.Prelude.Dict.{lookup}
use proman_edge_ace.Domain.Ticketing.{«open», working, closed, ticket_status_eq, api_partner}
use proman_edge_ace.Domain.People.{admin, role_eq}
use proman_edge_ace.Domain.Masters
use proman_edge_ace.Domain.Logs.{NotifChannel}
use proman_edge_ace.Schema.{Db, Ticket}
use proman_edge_ace.Action.{ok, err, Error, forbidden}
use proman_edge_ace.Store.{append_audit}
use proman_edge_ace.Notifications.{fire_notification}
use proman_edge_ace.Notifications.Failsafe.{Quiet, Keeps, fire_notification-Quiet}
use proman_edge_ace.Workflow.{transition}
use proman_edge_ace.Workflow.Rules.{Succeeds}
use proman_edge_ace.Tickets.Creation.{CreateTicketDto, create, refusal, system_note, merge_text}
use proman_edge_ace.Tickets.Creation.Duplicates.{IsLatest}
use proman_edge_ace.Tickets.Creation.Outcomes.{
  PassesGuards, IsRepeat, blocked_customer_is_refused, repeated_report_is_merged,
}
use proman_edge_ace.Tickets.Progress.{engineer_resolve, resolve_params, reopen}
use proman_edge_ace.Tickets.Progress.Resolution.{MayResolve, resolution_outcome}
use proman_edge_ace.Tickets.Progress.Reopening.{Restarted, reopen_outcome}
use proman_edge_ace.Tickets.Intake.{Row, ImportReport, bulk_import_rows}
use proman_edge_ace.Tickets.Intake.Reports.{created_count, Numbered, import_reports_every_row}
use proman_edge_ace.Tests.Fixtures.{
  at_time, customer, machine, ticket, db_of, db_with, the_engineer, the_manager, the_admin,
}

abbrev report : CreateTicketDto
report = record {
  source = api_partner;
  service_type = none;
  priority = none;
  customer_category = none;
  subject = none;
  description = "vibration";
  customer_id = 1;
  equipment_id = some 1;
  sla_target_date = none;
  override_blacklist_approval = false;
  override_reason = none;
}

abbrev blocked_db : Db
blocked_db = db_of Masters.blacklisted (ticket «open» none 0)

blocked_customer_is_refused_example :
    (db' : Db) × (create report the_manager (at_time 2000) blocked_db
      ≡ (err (forbidden (refusal (customer Masters.blacklisted))), db'))
    × Keeps blocked_db db'
blocked_customer_is_refused_example =
    blocked_customer_is_refused report the_manager (at_time 2000) blocked_db
      (customer Masters.blacklisted) refl (inr refl) (inr refl)

abbrev open_db : Db
open_db = db_with (ticket «open» none 0)

report_PassesGuards : PassesGuards report the_admin open_db
report_PassesGuards = record {
  customer = customer Masters.AccountStatus.active;
  customer_found = refl;
  admitted = λ h. ground (arith, h);
  equipment_id = 1;
  equipment_given = refl;
  equipment = machine;
  equipment_found = refl;
  in_use = ((λ h. ground arith), (λ h. ground arith));
  no_service_type = refl;
}

open_IsRepeat : IsRepeat 2000 report 1 (ticket «open» none 0)
open_IsRepeat = record {
  same_customer = refl;
  same_machine = refl;
  not_closed = λ h. ground arith;
  recent = omega arith;
}

repeated_report_is_merged_example :
    (id : ℕ) × (t : Ticket) × IsLatest (IsRepeat 2000 report 1) open_db.tickets (id, t)
    × (create report the_admin (at_time 2000) open_db
        ≡ (ok t, append_audit (system_note id "duplicate_merge" (merge_text report) 4) open_db))
unfolding report_PassesGuards
repeated_report_is_merged_example =
    repeated_report_is_merged report the_admin (at_time 2000) open_db report_PassesGuards
      (7, ticket «open» none 0) refl (inl refl) open_IsRepeat

abbrev at_work : Ticket
at_work = ticket working (some 2) 0

resolution_outcome_example :
    (MayResolve at_work 7 "Replaced the main bearing." the_engineer (db_with at_work)
      × (engineer_resolve 7 "Replaced the main bearing." the_engineer
            (at_time 5000)
            (db_with at_work)
          ≡ transition
              (resolve_params 7 "Replaced the main bearing." the_engineer)
              (at_time 5000)
              (db_with at_work))
      × Succeeds
          (resolve_params 7 "Replaced the main bearing." the_engineer)
          (at_time 5000)
          (db_with at_work)
          at_work)
    ⊎ ((¬ MayResolve at_work 7 "Replaced the main bearing." the_engineer (db_with at_work))
        × ((e : Error) × (engineer_resolve 7 "Replaced the main bearing." the_engineer
                (at_time 5000)
                (db_with at_work)
              ≡ (err e, db_with at_work))))
resolution_outcome_example =
    resolution_outcome 7 "Replaced the main bearing." the_engineer (at_time 5000) (db_with at_work)
      at_work refl

abbrev done : Ticket
done = ticket closed (some 2) 0

reopen_outcome_example :
    ((closed ≡ closed)
      × (admin ≡ admin)
      × ((u : Ticket) × (lookup 7 (reopen 7 the_admin (at_time 9000) (db_with done)).1.tickets
            ≡ some u)
          × Restarted done u))
    ⊎ ((¬ ((closed ≡ closed) × (admin ≡ admin)))
        × ((e : Error) × (reopen 7 the_admin (at_time 9000) (db_with done)
              ≡ (err e, db_with done))))
reopen_outcome_example = reopen_outcome 7 the_admin (at_time 9000) (db_with done) done refl

abbrev bad_row : Row
bad_row = record {
  source = some "PHONE";
  description = some "noise";
  customer_id = none;
  customer_erp_id = some "C-1";
  equipment_id = none;
  equipment_serial_no = some "S1";
  service_type = none;
  priority = none;
  subject = none;
}

import_reports_every_row_example :
    (r : ImportReport) × (db' : Db) × (bulk_import_rows
        (inr (bad_row ∷ bad_row ∷ []))
        the_admin
        (at_time 2000)
        open_db
      ≡ (ok r, db'))
    × Numbered 2 (bad_row ∷ bad_row ∷ []) r.results
    × (r.total ≡ length (bad_row ∷ bad_row ∷ []))
    × (r.succeeded ≡ created_count r.results)
    × (r.succeeded + r.failed ≡ r.total)
import_reports_every_row_example =
    import_reports_every_row bad_row (bad_row ∷ []) the_admin (at_time 2000) open_db

fire_notification-Quiet_example : Quiet (
    fire_notification "N-03" NotifChannel.push "eshan"
      (("ticket_no", "ACE2627:00001") ∷ [])
      (some 7)
      none)
fire_notification-Quiet_example =
    fire_notification-Quiet "N-03" NotifChannel.push "eshan" (("ticket_no", "ACE2627:00001") ∷ [])
      (some 7) none
