-- ===== src/Tickets/Routing/RoundRobin.antt =====
-- Whom `pickRoundRobinAsm` of backend/src/ticketing/tickets/tickets.service.ts picks.
use proman_edge_ace.Prelude.{
  ℕ, ◌≤◌, ◌<◌, ◌≡◌, refl, inl, inr, List, [], ◌∷◌, ◌++◌, arith, All, All-append, All-weaken, ltb,
  ltb→lt, if◌then◌else◌, ap, sym, ◌∙◌, Bool-cases,
}
use mathlib.Core.Path.{subst}
use mathlib.Core.List.{append-nil, append_assoc}
use proman_edge_ace.Schema.{Db}
use proman_edge_ace.Tickets.Routing.{longest_waiting, pick_round_robin_asm, last_assigned_at}

-- The first of the candidates whose last ticket is the oldest: those before it have a later one, and
-- those after it none that is older.
pub record IsNext (time : ℕ → ℕ) (candidates : List ℕ) (chosen : ℕ) : Type 0 where
  pub before : List ℕ
  pub after : List ℕ
  pub splits : candidates ≡ before ++ chosen ∷ after
  pub later : All (λ id. time chosen < time id) before
  pub not_earlier : All (λ id. time chosen ≤ time id) after

module _ (time : ℕ → ℕ) where
  IsNext-later :
      (xs : List ℕ) (c y : ℕ) → IsNext time xs c → time y < time c → IsNext time (xs ++ y ∷ []) y
  IsNext-later xs c y n h = record {
    before = xs;
    after = [];
    splits = refl;
    later = subst (All (λ id. time y < time id)) (sym n.splits) (
        All-append (λ id. time y < time id) n.before (c ∷ n.after)
          (All-weaken n.before (λ x l. omega (arith, l, h)) n.later)
          (h, All-weaken n.after (λ x l. omega (arith, l, h)) n.not_earlier));
    not_earlier = tt;
  }

  IsNext-earlier :
      (xs : List ℕ) (c y : ℕ) → IsNext time xs c → time c ≤ time y → IsNext time (xs ++ y ∷ []) c
  IsNext-earlier xs c y n h = record {
    before = n.before;
    after = n.after ++ y ∷ [];
    splits = ap (λ zs. zs ++ y ∷ []) n.splits ∙ append_assoc n.before (c ∷ n.after) (y ∷ []);
    later = n.later;
    not_earlier = All-append (λ id. time c ≤ time id) n.after (y ∷ []) n.not_earlier (h, tt);
  }

  IsNext-step :
      (xs : List ℕ) (c y : ℕ)
      → IsNext time xs c
      → IsNext time (xs ++ y ∷ []) (if ltb (time y) (time c) then y else c)
  IsNext-step xs c y n = elim (Bool-cases (ltb (time y) (time c))) [
    | inl e ↦ rw (e) (IsNext-later xs c y n (ltb→lt (time y) (time c) e))
    | inr e ↦ rw (e) (IsNext-earlier xs c y n (ground arith))
  ]

  longest_waiting-IsNext :
      (xs : List ℕ) (c : ℕ) (ys : List ℕ)
      → IsNext time xs c
      → IsNext time (xs ++ ys) (longest_waiting time c ys)
  unfolding longest_waiting
  longest_waiting-IsNext xs c [] n = subst (λ zs. IsNext time zs c) (sym (append-nil xs)) n
  longest_waiting-IsNext xs c (y ∷ ys) n =
      subst (λ zs. IsNext time zs (longest_waiting time c (y ∷ ys))) (append_assoc xs (y ∷ []) ys)
        (longest_waiting-IsNext (xs ++ y ∷ []) (if ltb (time y) (time c) then y else c) ys
          (IsNext-step xs c y n))

-- The pick is fair: it is one of the candidates, nobody among them has waited longer since the last
-- ticket, and of those who have waited as long it is the first.
pub round_robin_is_fair :
    (first : ℕ) (rest : List ℕ) (db : Db)
    → IsNext (last_assigned_at db.tickets) (first ∷ rest) (pick_round_robin_asm first rest db)
unfolding pick_round_robin_asm
round_robin_is_fair first rest db =
    longest_waiting-IsNext (last_assigned_at db.tickets) (first ∷ []) first rest
      (record { before = []; after = []; splits = refl; later = tt; not_earlier = tt })
