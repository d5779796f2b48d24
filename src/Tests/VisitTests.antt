-- ===== src/Tests/VisitTests.antt =====
-- The theorems on visits and price lists, each at a concrete input.
use proman_edge_ace.Prelude.{
  ◌*◌, ◌≤◌, ◌≡◌, refl, ◌⊎◌, inr, none, some, List, [], ◌∷◌, arith, nat_eq, true,
}
use proman_edge_ace.Prelude.Dict.{lookup}
use proman_edge_ace.Prelude.Text.{trim, utf16_length}
use proman_edge_ace.Domain.Ticketing.{working, ticket_status_eq}
use proman_edge_ace.Domain.Masters.{draft, submitted}
use proman_edge_ace.Domain.Masters
use proman_edge_ace.Schema.{Db, Part, PriceList}
use proman_edge_ace.Env.{Env}
use proman_edge_ace.Action.{ok, err, Error}
use proman_edge_ace.Action.Requests.{serve}
use proman_edge_ace.Store.Tables.Every.{Every}
use proman_edge_ace.Notifications.Failsafe.{Keeps}
use proman_edge_ace.Workflow.{transition}
use proman_edge_ace.Workflow.Rules.{Succeeds}
use proman_edge_ace.Tickets.Progress.{engineer_resolve, resolve_params}
use proman_edge_ace.Visits.{submit, submitted_row, removing_part, adding_part}
use proman_edge_ace.Visits
use proman_edge_ace.Visits.Outcomes.{MaySubmit, OnFile, locked_db, submission_outcome}
use proman_edge_ace.Visits.Locked.{submitted_visit_is_locked}
use proman_edge_ace.Visits.Amounts.{IsReckoned, part_amounts_stay_right}
use proman_edge_ace.Visits.Resolving.{submission_opens_resolution}
use proman_edge_ace.PriceLists
use proman_edge_ace.PriceLists.Defaults.{defaults, one_default_list}
use proman_edge_ace.Tests.Fixtures.{at_time, customer, ticket, visit, db_with, the_engineer}

-- A part of visit 1.
abbrev bearing : Part
bearing = record {
  visit_id = 1;
  item_code = "B1";
  item_name = "Bearing";
  qty = 2;
  uom = "Nos";
  warehouse = "Stores";
  rate = 40;
  selling_rate = 50;
  amount = 100;
}

-- A draft with a part and a photo, of the engineer at work.
abbrev site : Db
site = record (db_with (ticket working (some 2) 0)) {
  visits = (1, visit draft) ∷ [];
  parts = (1, bearing) ∷ [];
  photos = (1, record { visit_id = 1; url = "photo.jpg"; caption = none }) ∷ [];
}

site_OnFile :
    OnFile 1 (visit draft) (ticket working (some 2) 0) (customer Masters.AccountStatus.active) site
site_OnFile = record { visit = refl; ticket = refl; customer = refl }

long_enough : 20 ≤ utf16_length (trim "Replaced the main bearing")
unfolding utf16_length trim
long_enough = omega arith

site_MaySubmit : MaySubmit 1 (visit draft) the_engineer site
unfolding trim
site_MaySubmit = record {
  open_yet = refl;
  is_theirs = refl;
  described = long_enough;
  accounted = inr refl;
  represented = refl;
  signed_off = refl;
  photographed = omega arith;
  attached = refl;
}

submission_outcome_example :
    (MaySubmit 1 (visit draft) the_engineer site
      × ((db' : Db) × (submit 1 the_engineer (at_time 2000) site
            ≡ (ok (submitted_row (at_time 2000) the_engineer (visit draft)), db'))
          × Keeps (locked_db 1 the_engineer (at_time 2000) site) db'))
    ⊎ ((¬ MaySubmit 1 (visit draft) the_engineer site)
        × ((e : Error) × (submit 1 the_engineer (at_time 2000) site ≡ (err e, site))))
submission_outcome_example =
    submission_outcome 1 (visit draft) (ticket working (some 2) 0)
      (customer Masters.AccountStatus.active) the_engineer (at_time 2000) site site_OnFile

submission_opens_resolution_example :
    (db' : Db) × (submit 1 the_engineer (at_time 2000) site
      ≡ (ok (submitted_row (at_time 2000) the_engineer (visit draft)), db'))
    × (engineer_resolve 7 "Replaced the main bearing" the_engineer (at_time 3000) db'
        ≡ transition (resolve_params 7 "Replaced the main bearing" the_engineer) (at_time 3000) db')
    × Succeeds
        (resolve_params 7 "Replaced the main bearing" the_engineer)
        (at_time 3000)
        db'
        (ticket working (some 2) 0)
submission_opens_resolution_example =
    submission_opens_resolution 1 (visit draft) (ticket working (some 2) 0)
      (customer Masters.AccountStatus.active) the_engineer "Replaced the main bearing"
      (at_time 2000) (at_time 3000) site site_OnFile site_MaySubmit refl refl refl long_enough

abbrev more : Visits.AddPart
more = record {
  item_code = "B2";
  item_name = "Belt";
  qty = 3;
  uom = "Nos";
  warehouse = "Stores";
  rate = 5;
  selling_rate = 7;
}

-- A part is taken, and another one put in its place.
abbrev changes : List (Env × Visits.Request)
changes = (at_time 2000, removing_part 1 1) ∷ (at_time 3000, adding_part 1 more) ∷ []

abbrev closed_site : Db
closed_site = record site { visits = (1, visit submitted) ∷ [] }

submitted_visit_is_locked_example :
    lookup 1 (serve Visits.handle changes closed_site).visits ≡ some (visit submitted)
submitted_visit_is_locked_example =
    submitted_visit_is_locked 1 (visit submitted) changes closed_site refl refl

part_amounts_stay_right_example :
    Every (IsReckoned (λ a b. a * b)) (serve Visits.handle changes site).parts
part_amounts_stay_right_example =
    part_amounts_stay_right (λ a b. a * b) changes site (refl, (refl, tt)) (refl, tt)

abbrev standard : PriceList
standard = record { name = "Standard Selling"; is_default = true; is_active = true }

abbrev priced : Db
priced = record site { price_lists = (1, standard) ∷ [] }

one_default_list_example :
    defaults
      (serve PriceLists.handle
        ((at_time 2000, PriceLists.creating "Export" (some true)) ∷ [])
        priced).price_lists
    ≤ 1
one_default_list_example =
    one_default_list ((at_time 2000, PriceLists.creating "Export" (some true)) ∷ []) priced
      (omega arith)
