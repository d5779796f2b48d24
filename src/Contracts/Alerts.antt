-- ===== src/Contracts/Alerts.antt =====
-- One contract over the days: backend/src/ticketing/amc/amc-renewal.cron.ts.
use proman_edge_ace.Prelude.{
  ℕ, ◌+◌, ◌≤◌, ◌<◌, ◌≡◌, refl, true, Option, none, some, List, [], ◌∷◌, if◌then◌else◌, arith,
  is_some, ◌*◌, inl, inr, nat_beq, ◌⊎◌, ap, ◌∙◌,
}
use proman_edge_ace.Domain.Contracts
use proman_edge_ace.Domain.Contracts.{renewal_status_eq}
use proman_edge_ace.Schema.{AmcContract}
use proman_edge_ace.Contracts.Renewal.{
  Due, lapse, alert7, alert15, alert30, due_for, marked, is_running, day,
}

-- What a run at the time `now` makes of a contract.
unfoldable pub daily : ℕ → AmcContract → AmcContract
daily now c =
    if is_running c then (elim (due_for now c) [ none ↦ c | some d ↦ marked now d c ]) else c

abbrev due_today : ℕ → AmcContract → Option Due
due_today now c = if is_running c then due_for now c else none

abbrev due_index : Due → ℕ
due_index lapse = 0
due_index alert7 = 1
due_index alert15 = 2
due_index alert30 = 3

abbrev counted : Due → Option Due → ℕ
counted d none = 0
counted d (some e) = if nat_beq (due_index e) (due_index d) then 1 else 0

-- How often runs at the given times announce `d`.
abbrev pub announcements : Due → List ℕ → AmcContract → ℕ
announcements d [] c = 0
announcements d (now ∷ days) c = counted d (due_today now c) + announcements d days (daily now c)

-- `d` has been announced.
abbrev IsMarked : Due → AmcContract → Type 0
IsMarked lapse c = c.renewal_status ≡ Contracts.lapsed
IsMarked alert7 c = is_some c.renewal_alert7_sent_at ≡ true
IsMarked alert15 c = is_some c.renewal_alert15_sent_at ≡ true
IsMarked alert30 c = is_some c.renewal_alert30_sent_at ≡ true

not_again : (now : ℕ) (d : Due) (c : AmcContract) → IsMarked d c → counted d (due_today now c) ≡ 0
unfolding due_for is_running
not_again now lapse c m = ground (arith, m)
not_again now alert7 c m = ground (arith, m)
not_again now alert15 c m = ground (arith, m)
not_again now alert30 c m = ground (arith, m)

daily-IsMarked : (now : ℕ) (d : Due) (c : AmcContract) → IsMarked d c → IsMarked d (daily now c)
unfolding daily due_for marked is_running
daily-IsMarked now lapse c m = ground (arith, m)
daily-IsMarked now alert7 c m = ground (arith, m)
daily-IsMarked now alert15 c m = ground (arith, m)
daily-IsMarked now alert30 c m = ground (arith, m)

announced_today :
    (now : ℕ) (d : Due) (c : AmcContract)
    → (counted d (due_today now c) ≡ 0)
      ⊎ ((counted d (due_today now c) ≡ 1) × IsMarked d (daily now c))
unfolding daily due_for marked is_running
announced_today now lapse c = ground arith
announced_today now alert7 c = ground arith
announced_today now alert15 c = ground arith
announced_today now alert30 c = ground arith

silent_once_marked :
    (d : Due) (days : List ℕ) (c : AmcContract) → IsMarked d c → announcements d days c ≡ 0
silent_once_marked d [] c m = refl
silent_once_marked d (now ∷ days) c m =
    omega (
      arith,
      not_again now d c m,
      silent_once_marked d days (daily now c) (daily-IsMarked now d c m),
    )

-- However often the cron runs, at whatever times: it announces each of the three alerts, and the lapse of
-- a contract, at most once.
pub announced_at_most_once :
    (d : Due) (days : List ℕ) (c : AmcContract) → announcements d days c ≤ 1
announced_at_most_once d [] c = omega arith
announced_at_most_once d (now ∷ days) c = elim (announced_today now d c) [
  | inl none_today ↦ omega (arith, none_today, announced_at_most_once d days (daily now c))
  | inr (one, m) ↦ omega (arith, one, silent_once_marked d days (daily now c) m)
]

-- Each alert in its turn.
daily-alert7 :
    (now : ℕ) (c : AmcContract)
    → is_running c ≡ true
    → c.renewal_alert7_sent_at ≡ none
    → now < c.end_date
    → c.end_date ≤ now + 7 * day
    → daily now c ≡ marked now alert7 c
unfolding daily due_for
daily-alert7 now c runs unsent before soon = ground (arith, runs, unsent, before, soon)

daily-alert15 :
    (now earlier : ℕ) (c : AmcContract)
    → is_running c ≡ true
    → c.renewal_alert15_sent_at ≡ none
    → c.renewal_alert7_sent_at ≡ some earlier
    → now < c.end_date
    → c.end_date ≤ now + 15 * day
    → daily now c ≡ marked now alert15 c
unfolding daily due_for
daily-alert15 now earlier c runs unsent sent before soon =
    ground (arith, runs, unsent, sent, before, soon)

daily-alert30 :
    (now earlier later : ℕ) (c : AmcContract)
    → is_running c ≡ true
    → c.renewal_alert30_sent_at ≡ none
    → c.renewal_alert15_sent_at ≡ some later
    → c.renewal_alert7_sent_at ≡ some earlier
    → now < c.end_date
    → c.end_date ≤ now + 30 * day
    → daily now c ≡ marked now alert30 c
unfolding daily due_for
daily-alert30 now earlier later c runs unsent sent15 sent7 before soon =
    ground (arith, runs, unsent, sent15, sent7, before, soon)

-- A running contract that the cron first sees within seven days of its end, no alert sent: three runs
-- before the end give it FINAL_NOTICE by the second and put it back to RENEWAL_DUE by the third.
pub late_contract_steps_back :
    (first second third : ℕ) (c : AmcContract)
    → is_running c ≡ true
    → c.renewal_alert30_sent_at ≡ none
    → c.renewal_alert15_sent_at ≡ none
    → c.renewal_alert7_sent_at ≡ none
    → c.end_date ≤ first + 7 * day
    → first ≤ second
    → second ≤ third
    → third < c.end_date
    → ((daily second (daily first c)).renewal_status ≡ Contracts.final_notice)
      × ((daily third (daily second (daily first c))).renewal_status ≡ Contracts.renewal_due)
unfolding marked is_running
late_contract_steps_back first second third c runs none30 none15 none7 soon a b before =
    let c7 : AmcContract = marked first alert7 c in
    let c15 : AmcContract = marked second alert15 c7 in
    let e7 = daily-alert7 first c runs none7 (omega arith) soon in
    let e15 =
      ap (daily second) e7
      ∙ daily-alert15 second first c7 runs none15 refl (omega arith) (omega arith) in
    let e30 =
      ap (daily third) e15
      ∙ daily-alert30 third first second c15 refl none30 refl refl before (omega arith) in
    (ap (λ (x : AmcContract). x.renewal_status) e15, ap (λ (x : AmcContract). x.renewal_status) e30)
