-- ===== src/Store.antt =====
-- Prisma's reads and writes of the ticket table and of its masters, as the services call them.
pub mod Rows
pub mod Tables
use proman_edge_ace.Prelude.{ℕ, push}
use proman_edge_ace.Prelude.Dict.{lookup, modify}
use proman_edge_ace.Schema.{Db, Ticket, User, Customer, Equipment, AuditEntry}
use proman_edge_ace.Action.{Action, ◌>>=◌, ◌>>◌, pure, gets, or_throw, modify_db, record_not_found}

-- `ticket.findUniqueOrThrow`
abbrev pub find_ticket : ℕ → Action Ticket
find_ticket id = do rows ← gets (λ db. db.tickets); or_throw (lookup id rows) record_not_found

abbrev pub put_tickets : ℕ → (Ticket → Ticket) → Db → Db
put_tickets id f db = record db { tickets = modify id f db.tickets }

-- `ticket.update`, which returns the new row and throws where there is none.
abbrev pub update_ticket : ℕ → (Ticket → Ticket) → Action Ticket
update_ticket id f = do t ← find_ticket id; modify_db (put_tickets id f); pure (f t)

abbrev pub find_user : ℕ → Action User
find_user id = do rows ← gets (λ db. db.users); or_throw (lookup id rows) record_not_found

abbrev pub find_customer : ℕ → Action Customer
find_customer id = do rows ← gets (λ db. db.customers); or_throw (lookup id rows) record_not_found

abbrev pub find_equipment : ℕ → Action Equipment
find_equipment id = do rows ← gets (λ db. db.equipment); or_throw (lookup id rows) record_not_found

abbrev pub append_audit : AuditEntry → Db → Db
append_audit entry db = record db { audit_log = push db.audit_log entry }

-- `auditLog.create`
abbrev pub audit : AuditEntry → Action (Unit {0})
audit entry = modify_db (append_audit entry)
