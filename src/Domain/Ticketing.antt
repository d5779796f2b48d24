-- ===== src/Domain/Ticketing.antt =====
-- The enumerations of a ticket: backend/prisma/schema.prisma, with the names that its code prints.
use proman_edge_ace.Prelude.{ℕ, zero, suc, String, ◌≡◌, refl, Eq, enum_eq}

pub data TicketStatus : Type 0 where
  «open» assigned engineer_assigned accepted reached_site working pending engineer_resolved
        asm_resolved closed :
      TicketStatus

abbrev pub ticket_status_index : TicketStatus → ℕ
ticket_status_index TicketStatus.«open» = 0
ticket_status_index TicketStatus.assigned = 1
ticket_status_index TicketStatus.engineer_assigned = 2
ticket_status_index TicketStatus.accepted = 3
ticket_status_index TicketStatus.reached_site = 4
ticket_status_index TicketStatus.working = 5
ticket_status_index TicketStatus.pending = 6
ticket_status_index TicketStatus.engineer_resolved = 7
ticket_status_index TicketStatus.asm_resolved = 8
ticket_status_index TicketStatus.closed = 9

abbrev ticket_status_of_index : ℕ → TicketStatus
ticket_status_of_index zero = TicketStatus.«open»
ticket_status_of_index (suc zero) = TicketStatus.assigned
ticket_status_of_index (suc (suc zero)) = TicketStatus.engineer_assigned
ticket_status_of_index (suc (suc (suc zero))) = TicketStatus.accepted
ticket_status_of_index (suc (suc (suc (suc zero)))) = TicketStatus.reached_site
ticket_status_of_index (suc (suc (suc (suc (suc zero))))) = TicketStatus.working
ticket_status_of_index (suc (suc (suc (suc (suc (suc zero)))))) = TicketStatus.pending
ticket_status_of_index (suc (suc (suc (suc (suc (suc (suc zero))))))) =
    TicketStatus.engineer_resolved
ticket_status_of_index (suc (suc (suc (suc (suc (suc (suc (suc zero)))))))) =
    TicketStatus.asm_resolved
ticket_status_of_index _ = TicketStatus.closed

pub ticket_status_of_index-ticket_status_index :
    (x : TicketStatus) → ticket_status_of_index (ticket_status_index x) ≡ x
ticket_status_of_index-ticket_status_index TicketStatus.«open» = refl
ticket_status_of_index-ticket_status_index _ = refl

instance abbrev pub ticket_status_eq : Eq TicketStatus
ticket_status_eq =
    enum_eq ticket_status_index ticket_status_of_index ticket_status_of_index-ticket_status_index

unfoldable pub ticket_status_name : TicketStatus → String
ticket_status_name TicketStatus.«open» = "OPEN"
ticket_status_name TicketStatus.assigned = "ASSIGNED"
ticket_status_name TicketStatus.engineer_assigned = "ENGINEER_ASSIGNED"
ticket_status_name TicketStatus.accepted = "ACCEPTED"
ticket_status_name TicketStatus.reached_site = "REACHED_SITE"
ticket_status_name TicketStatus.working = "WORKING"
ticket_status_name TicketStatus.pending = "PENDING"
ticket_status_name TicketStatus.engineer_resolved = "ENGINEER_RESOLVED"
ticket_status_name TicketStatus.asm_resolved = "ASM_RESOLVED"
ticket_status_name TicketStatus.closed = "CLOSED"

pub data Priority : Type 0 where
  critical high medium low : Priority

abbrev pub priority_index : Priority → ℕ
priority_index Priority.critical = 0
priority_index Priority.high = 1
priority_index Priority.medium = 2
priority_index Priority.low = 3

abbrev priority_of_index : ℕ → Priority
priority_of_index zero = Priority.critical
priority_of_index (suc zero) = Priority.high
priority_of_index (suc (suc zero)) = Priority.medium
priority_of_index _ = Priority.low

pub priority_of_index-priority_index : (x : Priority) → priority_of_index (priority_index x) ≡ x
priority_of_index-priority_index Priority.critical = refl
priority_of_index-priority_index _ = refl

instance abbrev pub priority_eq : Eq Priority
priority_eq = enum_eq priority_index priority_of_index priority_of_index-priority_index

unfoldable pub priority_name : Priority → String
priority_name Priority.critical = "CRITICAL"
priority_name Priority.high = "HIGH"
priority_name Priority.medium = "MEDIUM"
priority_name Priority.low = "LOW"

pub data Source : Type 0 where
  customer_call customer_whatsapp customer_portal customer_email amc_scheduled warranty_triggered
        predictive internal bulk_import api_partner :
      Source

abbrev pub source_index : Source → ℕ
source_index Source.customer_call = 0
source_index Source.customer_whatsapp = 1
source_index Source.customer_portal = 2
source_index Source.customer_email = 3
source_index Source.amc_scheduled = 4
source_index Source.warranty_triggered = 5
source_index Source.predictive = 6
source_index Source.internal = 7
source_index Source.bulk_import = 8
source_index Source.api_partner = 9

abbrev source_of_index : ℕ → Source
source_of_index zero = Source.customer_call
source_of_index (suc zero) = Source.customer_whatsapp
source_of_index (suc (suc zero)) = Source.customer_portal
source_of_index (suc (suc (suc zero))) = Source.customer_email
source_of_index (suc (suc (suc (suc zero)))) = Source.amc_scheduled
source_of_index (suc (suc (suc (suc (suc zero))))) = Source.warranty_triggered
source_of_index (suc (suc (suc (suc (suc (suc zero)))))) = Source.predictive
source_of_index (suc (suc (suc (suc (suc (suc (suc zero))))))) = Source.internal
source_of_index (suc (suc (suc (suc (suc (suc (suc (suc zero)))))))) = Source.bulk_import
source_of_index _ = Source.api_partner

pub source_of_index-source_index : (x : Source) → source_of_index (source_index x) ≡ x
source_of_index-source_index Source.customer_call = refl
source_of_index-source_index _ = refl

instance abbrev pub source_eq : Eq Source
source_eq = enum_eq source_index source_of_index source_of_index-source_index

unfoldable pub source_name : Source → String
source_name Source.customer_call = "CUSTOMER_CALL"
source_name Source.customer_whatsapp = "CUSTOMER_WHATSAPP"
source_name Source.customer_portal = "CUSTOMER_PORTAL"
source_name Source.customer_email = "CUSTOMER_EMAIL"
source_name Source.amc_scheduled = "AMC_SCHEDULED"
source_name Source.warranty_triggered = "WARRANTY_TRIGGERED"
source_name Source.predictive = "PREDICTIVE"
source_name Source.internal = "INTERNAL"
source_name Source.bulk_import = "BULK_IMPORT"
source_name Source.api_partner = "API_PARTNER"

pub data PendingReason : Type 0 where
  awaiting_parts awaiting_customer awaiting_approval other : PendingReason

unfoldable pub pending_reason_name : PendingReason → String
pending_reason_name PendingReason.awaiting_parts = "AWAITING_PARTS"
pending_reason_name PendingReason.awaiting_customer = "AWAITING_CUSTOMER"
pending_reason_name PendingReason.awaiting_approval = "AWAITING_APPROVAL"
pending_reason_name PendingReason.other = "OTHER"

pub data SlaClockStatus : Type 0 where
  on_track warning_90 breached : SlaClockStatus

abbrev pub sla_clock_status_index : SlaClockStatus → ℕ
sla_clock_status_index SlaClockStatus.on_track = 0
sla_clock_status_index SlaClockStatus.warning_90 = 1
sla_clock_status_index SlaClockStatus.breached = 2

abbrev sla_clock_status_of_index : ℕ → SlaClockStatus
sla_clock_status_of_index zero = SlaClockStatus.on_track
sla_clock_status_of_index (suc zero) = SlaClockStatus.warning_90
sla_clock_status_of_index _ = SlaClockStatus.breached

pub sla_clock_status_of_index-sla_clock_status_index :
    (x : SlaClockStatus) → sla_clock_status_of_index (sla_clock_status_index x) ≡ x
sla_clock_status_of_index-sla_clock_status_index SlaClockStatus.on_track = refl
sla_clock_status_of_index-sla_clock_status_index _ = refl

instance abbrev pub sla_clock_status_eq : Eq SlaClockStatus
sla_clock_status_eq =
    enum_eq sla_clock_status_index sla_clock_status_of_index
      sla_clock_status_of_index-sla_clock_status_index

unfoldable pub sla_clock_status_name : SlaClockStatus → String
sla_clock_status_name SlaClockStatus.on_track = "ON_TRACK"
sla_clock_status_name SlaClockStatus.warning_90 = "WARNING_90"
sla_clock_status_name SlaClockStatus.breached = "BREACHED"
