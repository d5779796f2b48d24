-- ===== src/Contracts/Removal.antt =====
-- Which planned visits can be removed: backend/src/ticketing/amc/amc-contract.service.ts.
use proman_edge_ace.Prelude.{ℕ, ◌≡◌, String, Option, some, arith}
use proman_edge_ace.Prelude.Dict.{lookup, modify, remove, lookup-modify_self}
use proman_edge_ace.Schema.{Db, ScheduledVisit}
use proman_edge_ace.Env.{Env}
use proman_edge_ace.Action.{ok}
use proman_edge_ace.Store.Tables.{scheduled_visit_table, change}
use proman_edge_ace.Contracts.{reschedule_visit, remove_visit, rescheduled_row, is_under_way}

-- Any visit on file, one that has raised a ticket included, is deleted by a removal that follows its
-- rescheduling, at any time: `rescheduleVisit` gives it the status RESCHEDULED, and `removeVisit` looks at
-- the status alone.
pub rescheduled_visit_is_removed :
    (id : ℕ) (v : ScheduledVisit) (date : String) (notes : Option String) (env later : Env)
    (db : Db)
    → lookup id db.scheduled_visits ≡ some v
    → let f = rescheduled_row (env.parse_date date) notes in
      let db' = change scheduled_visit_table (modify id f) db in
      (reschedule_visit id date notes env db ≡ (ok (f v), db'))
      × (remove_visit id later db' ≡ (ok (f v), change scheduled_visit_table (remove id) db'))
unfolding reschedule_visit remove_visit is_under_way
rescheduled_visit_is_removed id v date notes env later db found = (
  ground (arith, found),
  ground (
    arith,
    lookup-modify_self id (rescheduled_row (env.parse_date date) notes) db.scheduled_visits v found,
  ),
)
