-- ===== src/Env.antt =====
-- What a call reads that is no part of the repository: the clock (one reading serves a whole call),
-- the process environment, JavaScript's `Date`, and the mail, push and WhatsApp gateways.
use proman_edge_ace.Prelude.{ℕ, String, Bool, Option, List, ◌⊎◌}
use proman_edge_ace.Schema.{Message}

-- `ErpDocStatus`
pub record DocStatus : Type 0 where
  pub status : String
  pub docstatus : ℕ
  pub per_billed : Option ℕ

pub record ErpLine : Type 0 where
  pub item_code : String
  pub qty : ℕ
  pub rate : ℕ
  pub uom : String

-- ERPNext, as backend/src/ticketing/erp-writeback/erp-writeback.service.ts speaks to it: each call
-- answers with the message of its exception, or with its result.
pub record Erp : Type 0 where
  -- the ticket, the customer, the lines, the end of validity, the price list and the taxes
  pub quotation_draft :
      ℕ → String → List ErpLine → String → Option String → String → String ⊎ String
  pub sales_order_from_quotation : String → String → String → String ⊎ String
  pub find_sales_order_by_po_no : String → String ⊎ Option String
  pub update_quotation_remarks : String → ℕ → String → String → String ⊎ Unit {0}
  pub doc_status : String → String → String ⊎ DocStatus
  pub draft_sales_invoice : String → String ⊎ String
  pub draft_zero_rate_sales_invoice : String → String ⊎ String
  -- the ticket, the customer, the lines, the number and the date of the order, the delivery's date
  pub sales_order_direct : ℕ → String → List ErpLine → String → String → String → String ⊎ String
  pub find_delivery_note : String → String ⊎ Option String

-- Firebase's answer to a message for one token: its identifier, or the exception's message and code.
pub data PushAnswer : Type 0 where
  pushed : String → PushAnswer
  refused : String → String → PushAnswer

pub record Env : Type 0 where
  pub now : ℕ  -- milliseconds since the epoch
  pub utc_offset : ℕ  -- of the server's local time, in milliseconds
  pub iso_string : ℕ → String  -- `toISOString()`
  pub iso_date : ℕ → String  -- `toISOString().slice(0, 10)`
  pub parse_date : String → ℕ  -- `new Date(s)`
  pub local_year : ℕ  -- `now.getFullYear()`
  pub local_month : ℕ  -- `now.getMonth()`, from 0
  -- Whether the three gateways' variables are set, and their answers: the exception's message, if any.
  pub has_smtp : Bool
  pub has_firebase : Bool
  pub has_whatsapp : Bool
  pub mail : Message → Option String
  pub push_to : String → Message → PushAnswer
  pub whatsapp : Message → Option String
  pub partner_actor_user_id : Option ℕ
  pub frontend_url : Option String
  pub company_state : Option String  -- `ACE_COMPANY_STATE`, and the two names of tax templates
  pub sales_taxes_template : String
  pub sales_igst_template : String
  pub to_lower_case : String → String
  pub matches : String → String → Bool  -- `contains` in the mode `insensitive`
  pub tag_matches : String → String → Bool  -- `ILIKE '%' || q || '%'`
  pub add_months : ℕ → ℕ → ℕ  -- `d.setMonth(d.getMonth() + n)`
  pub sub_months : ℕ → ℕ → ℕ
  -- `+` and `*` on numbers under their bits, where 0 is 0, and `toString`
  pub plus : ℕ → ℕ → ℕ
  pub times : ℕ → ℕ → ℕ
  pub number_text : ℕ → String
  pub erp : Erp
