-- ===== src/Machines/Expiry.antt =====
-- The status of a warranty: backend/src/ticketing/equipment/equipment.service.ts.
use proman_edge_ace.Prelude.{ℕ, ◌+◌, ◌≤◌, ◌<◌, ◌≡◌, ◌↔◌, arith}
use proman_edge_ace.Domain.Masters.{under_warranty, out_of_warranty, warranty_status_index}
use proman_edge_ace.Machines.Warranty.{compute_warranty_status, soon}

-- The status of a warranty never goes back while its end stays where it is: at a later time it is at least as
-- near to OUT_OF_WARRANTY, and it is OUT_OF_WARRANTY exactly after the end, and UNDER_WARRANTY exactly
-- more than 45 days before it.
pub warranty_runs_out :
    (now later end' : ℕ)
    → now ≤ later
    → (warranty_status_index (compute_warranty_status now end')
        ≤ warranty_status_index (compute_warranty_status later end'))
      × ((compute_warranty_status now end' ≡ out_of_warranty) ↔ (end' < now))
      × ((compute_warranty_status now end' ≡ under_warranty) ↔ (now + soon < end'))
unfolding compute_warranty_status
warranty_runs_out now later end' h = (
  ground (arith, h),
  (λ e. ground (arith, e), λ lt. ground (arith, lt)),
  (λ e. ground (arith, e), λ lt. ground (arith, lt)),
)
