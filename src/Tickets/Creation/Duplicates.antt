-- ===== src/Tickets/Creation/Duplicates.antt =====
-- Which earlier ticket `create` of backend/src/ticketing/tickets/tickets.service.ts takes a request for a
-- duplicate of.
use proman_edge_ace.Prelude.{
  ℕ, ◌↔◌, ◌≤◌, ◌<◌, ◌≡◌, refl, sym, ap, ◌∙◌, inl, inr, Bool, true, false, none, some, [], ◌∷◌, ◌++◌,
  arith, Bool-cases, Option-cases, All, All-append, All-weaken, ltb, ltb→lt, some_inj,
}
use mathlib.Core.Path.{subst}
use proman_edge_ace.Prelude.Dict.{Dict}
use proman_edge_ace.Prelude.Members.{In, All-In}
use proman_edge_ace.Schema.{Ticket}
use proman_edge_ace.Tickets.Creation.{latest_where, later}

-- Of the rows that `P` holds of, this one is the latest, and the first of those that are as late.
pub record IsLatest (P : Ticket → Type 0) (rows : Dict Ticket) (r : ℕ × Ticket) : Type 0 where
  pub before : Dict Ticket
  pub after : Dict Ticket
  pub splits : rows ≡ before ++ r ∷ after
  pub holds : P r.1
  pub earlier : All (λ s. P s.1 → s.1.created_at < r.1.created_at) before
  pub not_later : All (λ s. P s.1 → s.1.created_at ≤ r.1.created_at) after

module _ (p : Ticket → Bool) where
  latest_where-none :
      (rows : Dict Ticket) → latest_where p rows ≡ none → All (λ s. p s.1 ≡ false) rows
  unfolding latest_where
  latest_where-none [] e = tt
  latest_where-none (x ∷ rows) e = (ground arith, latest_where-none rows (ground arith))

  IsLatest-skip :
      (x : ℕ × Ticket) (rows : Dict Ticket) (r : ℕ × Ticket)
      → (p x.1 ≡ true → x.1.created_at < r.1.created_at)
      → IsLatest (λ t. p t ≡ true) rows r
      → IsLatest (λ t. p t ≡ true) (x ∷ rows) r
  IsLatest-skip x rows r h l = record {
    before = x ∷ l.before;
    after = l.after;
    splits = ap (λ zs. x ∷ zs) l.splits;
    holds = l.holds;
    earlier = (h, l.earlier);
    not_later = l.not_later;
  }

  IsLatest-head :
      (x : ℕ × Ticket) (rows : Dict Ticket)
      → p x.1 ≡ true
      → All (λ s. p s.1 ≡ true → s.1.created_at ≤ x.1.created_at) rows
      → IsLatest (λ t. p t ≡ true) (x ∷ rows) x
  IsLatest-head x rows h l = record {
    before = [];
    after = rows;
    splits = refl;
    holds = h;
    earlier = tt;
    not_later = l;
  }

  IsLatest-bounds :
      (rows : Dict Ticket) (r : ℕ × Ticket) (n : ℕ)
      → IsLatest (λ t. p t ≡ true) rows r
      → r.1.created_at ≤ n
      → All (λ s. p s.1 ≡ true → s.1.created_at ≤ n) rows
  IsLatest-bounds rows r n l h =
      subst (All (λ s. p s.1 ≡ true → s.1.created_at ≤ n)) (sym l.splits) (
        All-append (λ s. p s.1 ≡ true → s.1.created_at ≤ n) l.before (r ∷ l.after)
          (All-weaken l.before (λ s q e. let lt = q e in omega (arith, lt, h)) l.earlier)
          (
            (λ e. h),
            All-weaken l.after (λ s q e. let le = q e in omega (arith, le, h)) l.not_later,
          ))

  latest_where-cons :
      (x : ℕ × Ticket) (rows : Dict Ticket)
      → p x.1 ≡ true
      → latest_where p (x ∷ rows) ≡ some (later x (latest_where p rows))
  unfolding latest_where
  latest_where-cons x rows h = ground arith

  latest_where-miss :
      (x : ℕ × Ticket) (rows : Dict Ticket)
      → p x.1 ≡ false
      → latest_where p (x ∷ rows) ≡ latest_where p rows
  unfolding latest_where
  latest_where-miss x rows h = ground arith

  later-IsLatest :
      (x s : ℕ × Ticket) (rows : Dict Ticket)
      → p x.1 ≡ true
      → IsLatest (λ t. p t ≡ true) rows s
      → IsLatest (λ t. p t ≡ true) (x ∷ rows) (later x (some s))
  unfolding later
  later-IsLatest x s rows h l = elim (Bool-cases (ltb x.1.created_at s.1.created_at)) [
    | inl e ↦ rw (e) (IsLatest-skip x rows s (λ _. ltb→lt x.1.created_at s.1.created_at e) l)
    | inr e ↦
        rw (e) (IsLatest-head x rows h (IsLatest-bounds rows s x.1.created_at l (ground arith)))
  ]

  pub latest_where-IsLatest :
      (rows : Dict Ticket) (r : ℕ × Ticket)
      → latest_where p rows ≡ some r
      → IsLatest (λ t. p t ≡ true) rows r
  unfolding latest_where later
  latest_where-IsLatest [] r e = cc
  latest_where-IsLatest (x ∷ rows) r e = elim (Bool-cases (p x.1)) [
    | inr h ↦
        IsLatest-skip x rows r (λ h'. ground arith)
          (latest_where-IsLatest rows r (sym (latest_where-miss x rows h) ∙ e))
    | inl h ↦ elim (Option-cases (latest_where p rows)) [
      | inl n ↦
          subst (IsLatest (λ t. p t ≡ true) (x ∷ rows))
            (some_inj (sym (ap (λ o. some (later x o)) n) ∙ sym (latest_where-cons x rows h) ∙ e))
            (IsLatest-head x rows h
              (All-weaken rows (λ s f t. absurd (clash (p s.1) f t)) (latest_where-none rows n)))
      | inr (s, n) ↦
          subst (IsLatest (λ t. p t ≡ true) (x ∷ rows))
            (some_inj (sym (ap (λ o. some (later x o)) n) ∙ sym (latest_where-cons x rows h) ∙ e))
            (later-IsLatest x s rows h (latest_where-IsLatest rows s n))
    ]
  ]
    where
      clash : (b : Bool) → b ≡ false → b ≡ true → ⊥
      clash b f t = cc

pub IsLatest-weaken :
    (P Q : Ticket → Type 0) (rows : Dict Ticket) (r : ℕ × Ticket)
    → ((t : Ticket) → P t ↔ Q t)
    → IsLatest P rows r
    → IsLatest Q rows r
IsLatest-weaken P Q rows r same l = record {
  before = l.before;
  after = l.after;
  splits = l.splits;
  holds = (same r.1).0 l.holds;
  earlier = All-weaken l.before (λ s h q. h ((same s.1).1 q)) l.earlier;
  not_later = All-weaken l.after (λ s h q. h ((same s.1).1 q)) l.not_later;
}

-- Where a row qualifies, one is found.
pub latest_where-finds :
    (p : Ticket → Bool) (rows : Dict Ticket) (s : ℕ × Ticket)
    → In s rows
    → p s.1 ≡ true
    → (r : ℕ × Ticket) × (latest_where p rows ≡ some r)
latest_where-finds p rows s i h = elim (Option-cases (latest_where p rows)) [
  | inr found ↦ found
  | inl missing ↦
      absurd
        (clash (p s.1) (All-In (λ r. p r.1 ≡ false) s rows i (latest_where-none p rows missing)) h)
]
  where
    clash : (b : Bool) → b ≡ false → b ≡ true → ⊥
    clash b f t = cc
