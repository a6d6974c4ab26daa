-- ===== src/Partners.antt =====
-- services/cmd/partners/main.go: the life cycle of a partner and the tables of the service.
pub mod Company
pub mod Slug
pub mod Archive
pub mod Handlers
pub mod Create
pub mod Diagram
pub mod Serve
pub mod Checked
pub mod Archived
pub mod Written
pub mod Served
pub mod Refines
pub mod Secured
pub mod Gated
mod Tests
use himate_system.Base.{
  ℕ, ◌==◌, Bool, true, false, not, ◌&&◌, ◌||◌, Option, none, some, List, [], ◌∷◌, if◌then◌else◌,
  Text, codes, text_eq,
}
use himate_system.Partners.Company.{Details}

pub data Lifecycle : Type 0 where
  prospect license_pending ready_to_provision provisioning configuration : Lifecycle
  testing ready_for_launch live suspended archived : Lifecycle

-- The values of the column, from lifecycleValues.
abbrev pub lifecycle_text : Lifecycle → Text
lifecycle_text prospect = codes "PROSPECT"
lifecycle_text license_pending = codes "LICENSE_PENDING"
lifecycle_text ready_to_provision = codes "READY_TO_PROVISION"
lifecycle_text provisioning = codes "PROVISIONING"
lifecycle_text configuration = codes "CONFIGURATION"
lifecycle_text testing = codes "TESTING"
lifecycle_text ready_for_launch = codes "READY_FOR_LAUNCH"
lifecycle_text live = codes "LIVE"
lifecycle_text suspended = codes "SUSPENDED"
lifecycle_text archived = codes "ARCHIVED"

abbrev pub all_lifecycles : List Lifecycle
all_lifecycles =
    prospect ∷ license_pending ∷ ready_to_provision ∷ provisioning ∷ configuration ∷ testing
    ∷ ready_for_launch ∷ live ∷ suspended ∷ archived ∷ []

abbrev pub lifecycle_among : Text → List Lifecycle → Option Lifecycle
lifecycle_among t [] = none
lifecycle_among t (l ∷ ls) = if text_eq t (lifecycle_text l) then some l else lifecycle_among t ls

-- `lifecycleValues[t]`
unfoldable pub read_lifecycle : Text → Option Lifecycle
read_lifecycle t = lifecycle_among t all_lifecycles

-- lifecycleTransitions
abbrev pub transitions : Lifecycle → List Lifecycle
transitions prospect = license_pending ∷ suspended ∷ archived ∷ []
transitions license_pending = prospect ∷ ready_to_provision ∷ suspended ∷ archived ∷ []
transitions ready_to_provision = license_pending ∷ provisioning ∷ suspended ∷ archived ∷ []
transitions provisioning = ready_to_provision ∷ configuration ∷ suspended ∷ []
transitions configuration = provisioning ∷ testing ∷ suspended ∷ []
transitions testing = configuration ∷ ready_for_launch ∷ suspended ∷ []
transitions ready_for_launch = testing ∷ live ∷ suspended ∷ []
transitions live = suspended ∷ archived ∷ []
transitions suspended =
    prospect ∷ license_pending ∷ ready_to_provision ∷ provisioning ∷ configuration ∷ testing
    ∷ ready_for_launch ∷ live ∷ archived ∷ []
transitions archived = []

-- A number for each value, to compare them by.
abbrev pub number : Lifecycle → ℕ
number prospect = 0
number license_pending = 1
number ready_to_provision = 2
number provisioning = 3
number configuration = 4
number testing = 5
number ready_for_launch = 6
number live = 7
number suspended = 8
number archived = 9

abbrev pub same_lifecycle : Lifecycle → Lifecycle → Bool
same_lifecycle a b = number a == number b

abbrev pub lifecycle_in : Lifecycle → List Lifecycle → Bool
lifecycle_in l [] = false
lifecycle_in l (x ∷ xs) = same_lifecycle l x || lifecycle_in l xs

unfoldable pub can_transition : Lifecycle → Lifecycle → Bool
can_transition from to = same_lifecycle from to || lifecycle_in to (transitions from)

abbrev pub requires_provisioning_gate : Lifecycle → Lifecycle → Bool
requires_provisioning_gate from to = not (same_lifecycle from to) && same_lifecycle to provisioning

pub record Partner : Type 0 where
  pub id : Text
  pub slug : Text
  pub details : Details
  pub lifecycle : Lifecycle
  pub system_health : Text
  pub onboarding_request_id : Text
  pub test_partner : Bool

-- A row of lifecycle_history.
pub record Change : Type 0 where
  pub partner_id : Text
  pub from_state : Lifecycle
  pub to_state : Lifecycle
  pub changed_by : Text
  pub reason : Text

pub record ComplianceArchive : Type 0 where
  pub partner_id : Text
  pub display_name : Text
  pub legal_name : Text
  pub archive_reason : Text
  pub created_by : Text
  pub archived_at : ℕ
  pub payload : Text
  pub payload_sha256 : Text

-- `partner_users` has the partner of each login, if the table is there; `next` is the sequence.
pub record Registry : Type 0 where
  pub partners : List Partner
  pub history : List Change
  pub archives : List ComplianceArchive
  pub partner_users : Option (List Text)
  pub next : ℕ

pub data PartnerError : Type 0 where
  bad_json validation not_found golden_immutable invalid_transition gate_unavailable
        license_required :
      PartnerError
  conflict database compliance_archive domain_exists not_suspended method_not_allowed : PartnerError

abbrev pub has_partner_id : Text → Partner → Bool
has_partner_id id p = text_eq p.id id

abbrev pub changes_of : Text → Change → Bool
changes_of id c = text_eq c.partner_id id

abbrev pub archive_of : Text → ComplianceArchive → Bool
archive_of id a = text_eq a.partner_id id
