-- ===== src/Billing/Onboarding/Tests.antt =====
-- Runs of the onboarding on concrete input.
use himate_system.Base.{
  ◌≡◌, ◌⊎◌, refl, Bool, true, false, some, find, List, [], ◌∷◌, Result, ok, err, Text, codes,
}
use himate_system.Base.Strings.Ascii.{ascii, evaluate_texts}
use himate_system.Billing.Onboarding.{
  OnboardingStatus, classified, admin_approval, active, Classification, paid, complimentary,
  payment_pending, OnboardingState, OnboardingStore, OnboardingError, prerequisite, OnboardingInput,
  transition_allowed,
}
use himate_system.Billing.Onboarding.Rules.{
  first_onboarding, onboarding_of, ensure_onboarding, prerequisite_fails,
}
use himate_system.Billing.Onboarding.Handler.{
  document_waiver, onboard_tx, check_onboarding, patch_onboarding,
}
use himate_system.Billing.Onboarding.Modes.{ensure_mode, sync_mode}
use himate_system.Billing.Onboarding.Invoices.{
  advance_tx, advance_onboarding_from_invoice, advance_onboarding_from_invoice-Advances,
}
use himate_system.Billing.Onboarding.Advance.{Advances, patch_onboarding-Advances}
use himate_system.Billing.Onboarding.Portal.{PortalsOnly, patch_onboarding-PortalsOnly}

unfoldable evaluate_onboarding : Unit {0}
unfolding evaluate_texts advance_tx advance_onboarding_from_invoice ensure_onboarding
    transition_allowed prerequisite_fails ensure_mode sync_mode document_waiver onboard_tx
    check_onboarding patch_onboarding
evaluate_onboarding = tt

abbrev start : OnboardingStore
start = record {
  partners = record { id = codes "p1"; onboarding_request_id = codes "r1" } ∷ [];
  due_invoices = [];
  onboarding = [];
  onboarding_history = [];
  modes = [];
  mode_history = [];
  waivers = [];
  waived_licenses = [];
}

abbrev to_state : Text → Text → OnboardingInput
to_state st c = record {
  state = st;
  classification = c;
  reason = codes "why";
  currency = [];
  evidence_reference = [];
}

abbrev change : Text → Text → OnboardingStore → Result OnboardingError (Unit {0}) × OnboardingStore
change st c s = patch_onboarding 7 (codes "p1") (codes "admin") (some (to_state st c)) s

abbrev steps : List (Text × Text) → OnboardingStore → OnboardingStore
steps [] s = s
steps ((st, c) ∷ rest) s = steps rest (change st c s).1

abbrev states : List OnboardingState → List (OnboardingStatus × Classification × Bool)
states [] = []
states (x ∷ xs) = (x.state, x.classification, x.portal_enabled) ∷ states xs

abbrev reviewed : OnboardingStore
reviewed = steps ((codes "pending_review", []) ∷ (codes "CLASSIFIED", codes "PAID") ∷ []) start

reviewed_state : states reviewed.onboarding ≡ (classified, paid, false) ∷ []
unfolding evaluate_onboarding
reviewed_state = refl

-- Without a paid invoice there is no approval of a partner that is to pay.
unpaid : (change (codes "ADMIN_APPROVAL") [] reviewed).0 ≡ err prerequisite
unfolding evaluate_onboarding
unpaid = refl

-- But the request may take the classification back in the same step: then nothing is asked for, and the partner
-- becomes active with neither a paid invoice nor a waiver.
abbrev unpaid_active : OnboardingStore
unpaid_active =
    steps ((codes "ADMIN_APPROVAL", codes "UNCLASSIFIED") ∷ (codes "ACTIVE", codes "PAID") ∷ [])
      reviewed

unpaid_active_state : states unpaid_active.onboarding ≡ (active, paid, true) ∷ []
unfolding evaluate_onboarding
unpaid_active_state = refl

abbrev waived : OnboardingStore
waived =
    steps ((codes "PENDING_REVIEW", []) ∷ (codes "CLASSIFIED", codes "complimentary") ∷ []) start

abbrev approved : OnboardingStore
approved = (change (codes "ADMIN_APPROVAL") [] waived).1

approved_run : change (codes "ADMIN_APPROVAL") [] waived ≡ (ok tt, approved)
unfolding evaluate_onboarding
approved_run = refl

approved_state : states approved.onboarding ≡ (admin_approval, complimentary, false) ∷ []
unfolding evaluate_onboarding
approved_state = refl

patch_onboarding-Advances_example :
    Advances (codes "p1") (ensure_onboarding 7 (codes "p1") waived).1 approved
patch_onboarding-Advances_example =
    patch_onboarding-Advances 7 (codes "p1") (codes "admin")
      (some (to_state (codes "ADMIN_APPROVAL") [])) waived approved approved_run

approved-PortalsOnly : PortalsOnly approved
unfolding evaluate_onboarding
approved-PortalsOnly = (refl, tt)

patch_onboarding-PortalsOnly_example : PortalsOnly (change (codes "ACTIVE") [] approved).1
patch_onboarding-PortalsOnly_example =
    patch_onboarding-PortalsOnly 7 (codes "p1") (codes "admin")
      (some (to_state (codes "ACTIVE") [])) approved approved-PortalsOnly

-- The invoice of a partner that is to pay is sent, and then it is paid.
abbrev invoiced : Text → OnboardingStore
invoiced status = record (steps ((codes "INVOICE_PENDING", []) ∷ []) reviewed) {
  due_invoices = record { partner_id = codes "p1"; workflow_status = status } ∷ [];
}

abbrev moved_to : OnboardingStatus → OnboardingStore → OnboardingStore
moved_to target s =
    advance_onboarding_from_invoice 9 (codes "p1") target (codes "billing") (codes "Invoice sent") s

sent_run :
    states (moved_to payment_pending (invoiced (codes "SENT"))).onboarding
    ≡ (payment_pending, paid, false) ∷ []
unfolding evaluate_onboarding
sent_run = refl

paid_run :
    states (moved_to admin_approval (invoiced (codes "PAID"))).onboarding
    ≡ (admin_approval, paid, false) ∷ []
unfolding evaluate_onboarding
paid_run = refl

-- An invoice that is not paid opens nothing.
unpaid_run : moved_to admin_approval (invoiced (codes "SENT")) ≡ invoiced (codes "SENT")
unfolding evaluate_onboarding
unpaid_run = refl

abbrev first_row : List OnboardingState → OnboardingState
first_row [] = first_onboarding 0 (record { id = []; onboarding_request_id = [] })
first_row (x ∷ _) = x

abbrev invoiced_row : OnboardingState
invoiced_row = first_row (invoiced (codes "PAID")).onboarding

has_row : find (onboarding_of (codes "p1")) (invoiced (codes "PAID")).onboarding ≡ some invoiced_row
unfolding evaluate_onboarding
has_row = refl

advance_onboarding_from_invoice-Advances_example :
    (moved_to admin_approval (invoiced (codes "PAID")) ≡ invoiced (codes "PAID"))
    ⊎ Advances
        (codes "p1")
        (invoiced (codes "PAID"))
        (moved_to admin_approval (invoiced (codes "PAID")))
advance_onboarding_from_invoice-Advances_example =
    advance_onboarding_from_invoice-Advances 9 (codes "p1") admin_approval (codes "billing")
      (codes "Invoice sent") (invoiced (codes "PAID")) invoiced_row has_row
