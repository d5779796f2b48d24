-- ===== src/Visits.antt =====
-- Field service visits: backend/src/ticketing/fsv/fsv.service.ts.
pub mod Editing
pub mod Items
pub mod Submitting
pub mod Outcomes
pub mod Locked
pub mod Amounts
pub mod Resolving
use proman_edge_ace.Prelude.{ℕ, String, Option}
use proman_edge_ace.Action.{Action, ◌>>=◌, ◌>>◌, pure}
use proman_edge_ace.Tickets.Labels.{RequestUser}
unfoldable pub use Editing.*
unfoldable pub use Items.*
unfoldable pub use Submitting.*

-- What the application asks for.
pub data Request : Type 0 where
  creating : ℕ → CreateVisit → RequestUser → Request
  updating : ℕ → UpdateVisit → Request
  signing : ℕ → String → Request
  reporting : ℕ → String → Request
  adding_part : ℕ → AddPart → Request
  updating_part : ℕ → ℕ → UpdatePart → Request
  removing_part : ℕ → ℕ → Request
  adding_photo : ℕ → String → Option String → Request
  removing_photo : ℕ → ℕ → Request
  submitting : ℕ → RequestUser → Request

abbrev pub handle : Request → Action (Unit {0})
handle (creating ticket_id dto actor) = do create_draft ticket_id dto actor; pure tt
handle (updating id dto) = update id dto
handle (signing id url) = set_signature id url
handle (reporting id url) = set_report id url
handle (adding_part id dto) = add_part id dto
handle (updating_part id part_id dto) = update_part id part_id dto
handle (removing_part id part_id) = remove_part id part_id
handle (adding_photo id url caption) = add_photo id url caption
handle (removing_photo id photo_id) = remove_photo id photo_id
handle (submitting id actor) = do submit id actor; pure tt
