-- ===== src/Billing/Onboarding.antt =====
-- services/cmd/billing/central6.go: the onboarding of a partner. What a request reads of invoices is a
-- list of those of positive total; the tables of licenses and of modes have the columns that it writes.
pub mod Rules
pub mod Modes
pub mod Handler
pub mod Writes
pub mod Advance
pub mod Portal
pub mod Invoices
mod Tests
use himate_system.Base.{
  ℕ, ◌==◌, Bool, true, false, not, ◌&&◌, ◌||◌, Option, none, some, List, [], ◌∷◌, ◌++◌,
  if◌then◌else◌, find, count, update_where, Result, ok, err, ◌>>=◌, ◌>>◌, reject_if, Text, codes,
  is_empty, text_eq, Unicode, to_upper, trim_space,
}

pub data OnboardingStatus : Type 0 where
  registered pending_review classified invoice_pending payment_pending admin_approval active :
      OnboardingStatus

pub data Classification : Type 0 where
  unclassified paid charity sponsored complimentary : Classification

pub data BillingMode : Type 0 where
  paid_mode complimentary_mode charity_mode : BillingMode

pub data CharityStatus : Type 0 where
  not_requested pending approved rejected : CharityStatus

pub record OnboardingState : Type 0 where
  pub partner_id : Text
  pub state : OnboardingStatus
  pub classification : Classification
  pub portal_enabled : Bool
  pub reviewed_at : Option ℕ
  pub reviewed_by : Text
  pub approved_at : Option ℕ
  pub approved_by : Text
  pub reason : Text

pub record OnboardingChange : Type 0 where
  pub partner_id : Text
  pub old_state : OnboardingStatus
  pub new_state : OnboardingStatus
  pub old_classification : Classification
  pub new_classification : Classification
  pub actor : Text
  pub reason : Text

pub record CommercialMode : Type 0 where
  pub partner_id : Text
  pub billing_mode : BillingMode
  pub charity_status : CharityStatus
  pub charity_reviewed_at : Option ℕ
  pub charity_reviewed_by : Text
  pub reason : Text

pub record ModeChange : Type 0 where
  pub partner_id : Text
  pub old_billing_mode : BillingMode
  pub new_billing_mode : BillingMode
  pub old_charity_status : CharityStatus
  pub new_charity_status : CharityStatus
  pub actor : Text
  pub reason : Text

-- A row of partner_support_waivers; the nominal value is left out.
pub record SupportWaiver : Type 0 where
  pub partner_id : Text
  pub classification : Classification
  pub currency : Text
  pub reason : Text
  pub evidence_reference : Text
  pub approved_by : Text

-- The activation license that a waiver writes.
pub record WaivedLicense : Type 0 where
  pub partner_id : Text
  pub currency : Text
  pub waiver_reason : Text

-- The partner and the workflow status of an invoice of positive total.
pub record DueInvoice : Type 0 where
  pub partner_id : Text
  pub workflow_status : Text

-- A row of the partners: whether it came by a registration.
pub record Registration : Type 0 where
  pub id : Text
  pub onboarding_request_id : Text

pub record OnboardingStore : Type 0 where
  pub partners : List Registration
  pub due_invoices : List DueInvoice
  pub onboarding : List OnboardingState
  pub onboarding_history : List OnboardingChange
  pub modes : List CommercialMode
  pub mode_history : List ModeChange
  pub waivers : List SupportWaiver
  pub waived_licenses : List WaivedLicense

pub data OnboardingError : Type 0 where
  database bad_json validation invalid_transition waiver_reason_required : OnboardingError
  prerequisite : OnboardingError

pub record OnboardingInput : Type 0 where
  pub state : Text
  pub classification : Text
  pub reason : Text
  pub currency : Text
  pub evidence_reference : Text

abbrev pub status_number : OnboardingStatus → ℕ
status_number registered = 0
status_number pending_review = 1
status_number classified = 2
status_number invoice_pending = 3
status_number payment_pending = 4
status_number admin_approval = 5
status_number active = 6

abbrev pub same_status : OnboardingStatus → OnboardingStatus → Bool
same_status a b = status_number a == status_number b

abbrev pub status_name : OnboardingStatus → Text
status_name registered = codes "REGISTERED"
status_name pending_review = codes "PENDING_REVIEW"
status_name classified = codes "CLASSIFIED"
status_name invoice_pending = codes "INVOICE_PENDING"
status_name payment_pending = codes "PAYMENT_PENDING"
status_name admin_approval = codes "ADMIN_APPROVAL"
status_name active = codes "ACTIVE"

abbrev pub status_among : Text → List OnboardingStatus → Option OnboardingStatus
status_among t [] = none
status_among t (x ∷ xs) = if text_eq t (status_name x) then some x else status_among t xs

-- `validStates`
abbrev pub all_statuses : List OnboardingStatus
all_statuses =
    registered ∷ pending_review ∷ classified ∷ invoice_pending ∷ payment_pending ∷ admin_approval
    ∷ active ∷ []

abbrev pub classification_name : Classification → Text
classification_name unclassified = codes "UNCLASSIFIED"
classification_name paid = codes "PAID"
classification_name charity = codes "CHARITY"
classification_name sponsored = codes "SPONSORED"
classification_name complimentary = codes "COMPLIMENTARY"

abbrev pub classification_among : Text → List Classification → Option Classification
classification_among t [] = none
classification_among t (x ∷ xs) =
    if text_eq t (classification_name x) then some x else classification_among t xs

-- `validClassifications`
abbrev pub all_classifications : List Classification
all_classifications = unclassified ∷ paid ∷ charity ∷ sponsored ∷ complimentary ∷ []

-- central6OnboardingTransitionAllowed
abbrev pub onboarding_transitions : OnboardingStatus → List OnboardingStatus
onboarding_transitions registered = pending_review ∷ []
onboarding_transitions pending_review = classified ∷ []
onboarding_transitions classified = invoice_pending ∷ admin_approval ∷ []
onboarding_transitions invoice_pending = payment_pending ∷ admin_approval ∷ []
onboarding_transitions payment_pending = admin_approval ∷ []
onboarding_transitions admin_approval = active ∷ pending_review ∷ []
onboarding_transitions active = pending_review ∷ []

abbrev pub status_in : OnboardingStatus → List OnboardingStatus → Bool
status_in a [] = false
status_in a (x ∷ xs) = same_status a x || status_in a xs

unfoldable pub transition_allowed : OnboardingStatus → OnboardingStatus → Bool
transition_allowed from to = same_status from to || status_in to (onboarding_transitions from)

-- zeroDollarClassification
abbrev pub zero_dollar : Classification → Bool
zero_dollar charity = true
zero_dollar sponsored = true
zero_dollar complimentary = true
zero_dollar _ = false

abbrev pub is_paid : Classification → Bool
is_paid paid = true
is_paid _ = false

abbrev pub is_unclassified : Classification → Bool
is_unclassified unclassified = true
is_unclassified _ = false
