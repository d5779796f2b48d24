-- ===== src/Schema/Contracts.antt =====
-- Maintenance contracts, the visits that they and warranties plan, and the rules of the predictive
-- engine: backend/prisma/schema.prisma.
use proman_edge_ace.Prelude.{ℕ, String, Option}
use proman_edge_ace.Domain.Contracts.{RenewalStatus, VisitStatus, PartsCoverage, EquipCategory}

pub record AmcContract : Type 0 where
  pub contract_reference_no : String
  pub customer_id : ℕ
  pub start_date : ℕ
  pub end_date : ℕ
  pub contract_value : String
  pub visits_included : ℕ
  pub parts_coverage : PartsCoverage
  pub scope_of_services : Option String
  pub exclusions : Option String
  pub renewal_status : RenewalStatus
  pub renewal_alert30_sent_at : Option ℕ
  pub renewal_alert15_sent_at : Option ℕ
  pub renewal_alert7_sent_at : Option ℕ
  pub owning_asm_id : Option ℕ
  pub previous_contract_id : Option ℕ
  pub signed_agreement_url : Option String
  pub terms_and_conditions : Option String

-- `AmcScheduledVisit`
pub record ScheduledVisit : Type 0 where
  pub contract_id : ℕ
  pub visit_seq_no : ℕ
  pub planned_date : ℕ
  pub equipment_id : ℕ
  pub notes : Option String
  pub status : VisitStatus
  pub linked_ticket_id : Option ℕ

-- `WarrantyPmVisit`
pub record PmVisit : Type 0 where
  pub equipment_id : ℕ
  pub visit_seq_no : ℕ
  pub planned_date : ℕ
  pub status : VisitStatus
  pub linked_ticket_id : Option ℕ

-- `PredictiveRuleConfig`
pub record PredictiveRule : Type 0 where
  pub equipment_category : EquipCategory
  pub months_since_service : ℕ
  pub operating_hours_interval : ℕ
  pub breakdown_frequency_threshold : ℕ
  pub breakdown_frequency_window_months : ℕ
  pub warranty_pm_interval_months : ℕ
