-- ===== src/Schema/TicketRow.antt =====
-- The ticket's row: `model Ticket` of backend/prisma/schema.prisma.
use proman_edge_ace.Prelude.{ℕ, String, Bool, Option, List}
use proman_edge_ace.Domain.Ticketing.{TicketStatus, Priority, Source, PendingReason, SlaClockStatus}
use proman_edge_ace.Domain.Masters.{CustomerCategory, WarrantyStatus}

-- The columns `sla…`.
pub record Sla : Type 0 where
  pub target_date : Option ℕ
  pub response_due : Option ℕ
  pub resolution_due : Option ℕ
  pub response_met : Bool
  pub resolution_met : Bool
  pub response_status : SlaClockStatus
  pub resolution_status : SlaClockStatus
  pub response_breached_at : Option ℕ
  pub resolution_breached_at : Option ℕ
  pub response_escalation_level : ℕ
  pub resolution_escalation_level : ℕ
  pub paused_at : Option ℕ
  pub paused_minutes : ℕ
  pub policy_id : Option ℕ

pub record RejectionReason : Type 0 where
  pub engineer_id : Option ℕ
  pub reason : String
  pub timestamp : ℕ

-- The columns `rejection…` and `escalat…`.
pub record Rejections : Type 0 where
  pub rejection_count : ℕ
  pub rejection_reasons : List RejectionReason
  pub escalated_multiple_rejections : Bool
  pub escalation_acknowledged_at : Option ℕ
  pub escalation_acknowledged_by_user_id : Option ℕ

-- The columns `csat…`.
pub record Csat : Type 0 where
  pub survey_sent : Bool
  pub score : Option ℕ
  pub response_text : Option String

pub record Ticket : Type 0 where
  pub ticket_no : String
  pub source : Source
  pub service_type : Option String
  pub customer_category : Option CustomerCategory
  pub priority : Priority
  pub status : TicketStatus
  pub subject : String
  pub description : String
  pub customer_id : ℕ
  pub equipment_id : Option ℕ
  pub site_id : Option ℕ
  pub warranty_status_at_creation : Option WarrantyStatus
  pub warranty_eligible : Bool
  pub override_reason : Option String
  pub reached_site_gps : Option (String × String)  -- latitude and longitude as printed
  pub sla : Sla
  pub rejections : Rejections
  pub csat : Csat
  pub created_by_user_id : ℕ
  pub assigned_asm_id : Option ℕ
  pub assigned_engineer_id : Option ℕ
  pub re_open_count : ℕ
  pub pending_reason : Option PendingReason
  pub pending_notes : Option String
  pub resolution_summary : Option String
  pub possible_duplicate_of_id : Option ℕ
  pub duplicate_flag_resolved : Bool
  pub tags : List String
  pub created_at : ℕ
  pub closed_at : Option ℕ
  pub erpnext_invoice_id : Option String
