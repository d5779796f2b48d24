-- ===== src/Tickets/Numbering.antt =====
-- backend/src/ticketing/tickets/ticket-number.util.ts
use Prim.Native.String.{◌++◌}
use text.Mathlib.Text.{starts_with}
use proman_edge_ace.Prelude.{ℕ, ◌+◌, ◌-◌, ◌%◌, String, if◌then◌else◌, leb, keep, length}
use proman_edge_ace.Prelude.Text.{show, pad_zeros}
use proman_edge_ace.Schema.{Db}
use proman_edge_ace.Env.{Env}

-- `String(n).slice(-2)`, for a number of at least two digits
last_two : ℕ → String
last_two n = pad_zeros 2 (show (n % 100))

-- The year in which the fiscal year starts; April is month 3.
unfoldable pub start_year : ℕ → ℕ → ℕ
start_year year month = if leb 3 month then year else year - 1

unfoldable pub fiscal_year_code : ℕ → ℕ → String
unfolding last_two start_year
fiscal_year_code year month =
    last_two (start_year year month) ++ last_two (start_year year month + 1)

unfoldable pub next_ticket_no : Env → Db → String
unfolding fiscal_year_code
next_ticket_no env db =
    let prefix = "ACE" ++ fiscal_year_code env.local_year env.local_month ++ ":" in
    let count = length (keep (λ r. starts_with r.1.ticket_no prefix) db.tickets) in
    prefix ++ pad_zeros 5 (show (count + 1))
