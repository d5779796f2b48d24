-- ===== src/Store/Rows.antt =====
-- A ticket's row under writes to the ticket table.
use native.Mathlib.Decide.{ℕ_discrete}
use proman_edge_ace.Prelude.{ℕ, ◌≡◌, sym, ap, ◌∙◌, some, arith}
use proman_edge_ace.Prelude.Dict.{lookup, modify, lookup-modify_self, lookup-modify_ne}
use proman_edge_ace.Schema.{Db, Ticket}
use proman_edge_ace.Env.{Env}
use proman_edge_ace.Action.{ok}
use proman_edge_ace.Store.{update_ticket, put_tickets}

-- The ticket is on file, and `P` holds of its row.
abbrev pub Row : (Ticket → Type 0) → ℕ → Db → Type 0
Row P id db = (t : Ticket) × (lookup id db.tickets ≡ some t) × P t

pub Row-put :
    (P : Ticket → Type 0) (id j : ℕ) (f : Ticket → Ticket) (db : Db)
    → ((t : Ticket) → P t → P (f t))
    → Row P id db
    → Row P id (put_tickets j f db)
Row-put P id j f db keeps (t, found, p) = elim (ℕ_discrete id j) [
  | yes e ↦ (
    f t,
    ap (λ k. lookup id (modify k f db.tickets)) (sym e)
        ∙ lookup-modify_self id f db.tickets t found,
    keeps t p,
  )
  | no ne ↦ (t, lookup-modify_ne id j f db.tickets ne ∙ found, p)
]

pub update_ticket-found :
    (id : ℕ) (f : Ticket → Ticket) (env : Env) (db : Db) (t : Ticket)
    → lookup id db.tickets ≡ some t
    → update_ticket id f env db ≡ (ok (f t), put_tickets id f db)
update_ticket-found id f env db t found = ground arith
