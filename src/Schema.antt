-- ===== src/Schema.antt =====
-- The database: backend/prisma/schema.prisma. Rows stand under their primary keys, whose UUIDs are
-- numbers here (the program only compares them); times are milliseconds since the epoch. A record
-- has the columns that the modelled code reads or writes.
pub mod TicketRow
pub mod Masters
pub mod FieldWork
pub mod Sales
pub mod Contracts
use proman_edge_ace.Prelude.{ℕ, String, Bool, Option, List, none, some}
use proman_edge_ace.Prelude.Dict.{Dict}
use proman_edge_ace.Domain.Ticketing.{TicketStatus}
use proman_edge_ace.Domain.People.{Role, Region}
use proman_edge_ace.Domain.Logs.{NotifChannel, NotifStatus, ChangeSource, SlaBreachType}
pub use TicketRow.*
pub use Masters.*
pub use FieldWork.*
pub use Sales.*
pub use Contracts.*

pub record AuditEntry : Type 0 where
  pub entity_type : String
  pub entity_id : ℕ
  pub field_name : String
  pub old_value : Option String
  pub new_value : Option String
  pub changed_by_user_id : ℕ
  pub change_source : ChangeSource

-- `SendNotificationParams`
pub record Message : Type 0 where
  pub channel : NotifChannel
  pub recipient : String
  pub template_name : String
  pub subject : Option String
  pub body : String
  pub ticket_id : Option ℕ
  pub user_id : Option ℕ

pub record NotificationLog : Type 0 where
  pub ticket_id : Option ℕ
  pub channel : NotifChannel
  pub recipient : String
  pub template_name : String
  pub delivery_status : NotifStatus

pub record NotificationTemplate : Type 0 where
  pub trigger_code : String
  pub channel : NotifChannel
  pub subject : Option String
  pub body : String

pub record NotificationRule : Type 0 where
  pub breach_type : SlaBreachType
  pub role : Role
  pub enabled : Bool

pub record Db : Type 0 where
  pub tickets : Dict Ticket
  pub audit_log : List AuditEntry
  pub notification_log : List NotificationLog
  pub templates : List NotificationTemplate
  pub users : Dict User
  pub user_regions : List (ℕ × Region)
  pub user_companies : List (ℕ × ℕ)
  pub push_tokens : List (String × ℕ)  -- the tokens with their users
  pub skill_tags : List String
  pub billing_levels : List String
  pub erp_employees : List String
  pub customers : Dict Customer
  pub equipment : Dict Equipment
  pub sites : Dict String
  pub visits : Dict Visit
  pub parts : Dict Part
  pub photos : Dict Photo
  pub price_lists : Dict PriceList
  pub quotations : Dict Quotation
  pub quotation_items : Dict QuotationItem
  pub deliveries : Dict Delivery
  pub contracts : Dict AmcContract
  pub covered : List (ℕ × ℕ)  -- contracts with their equipment
  pub scheduled_visits : Dict ScheduledVisit
  pub pm_visits : Dict PmVisit
  pub predictive_rules : List PredictiveRule
  pub amc_look_ahead : Option ℕ  -- the row of the settings, in days
  pub pm_look_ahead : Option ℕ
  pub service_types : List (String × Bool)
  pub pause_states : List TicketStatus
  pub sla_policies : Dict SlaPolicy
  pub holidays : List ℕ  -- local days
  pub notification_rules : List NotificationRule
