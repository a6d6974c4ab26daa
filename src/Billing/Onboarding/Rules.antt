-- ===== src/Billing/Onboarding/Rules.antt =====
-- services/cmd/billing/central6.go: ensureOnboarding and onboardingPrerequisite.
use himate_system.Base.{
  ℕ, ◌==◌, Bool, true, false, not, ◌&&◌, Option, none, some, [], ◌∷◌, ◌++◌, if◌then◌else◌, find,
  count, Result, ok, err, Text, codes, is_empty, text_eq,
}
use himate_system.Billing.Onboarding.{
  Classification, CommercialMode, DueInvoice, OnboardingError, OnboardingState, OnboardingStatus,
  OnboardingStore, Registration, SupportWaiver, WaivedLicense, active, admin_approval, classified,
  database, invoice_pending, is_paid, is_unclassified, paid, payment_pending, registered,
  same_status, unclassified,
}

abbrev pub onboarding_of : Text → OnboardingState → Bool
onboarding_of id x = text_eq x.partner_id id

abbrev pub mode_of : Text → CommercialMode → Bool
mode_of id x = text_eq x.partner_id id

abbrev pub waiver_of : Text → SupportWaiver → Bool
waiver_of id x = text_eq x.partner_id id

abbrev pub waived_license_of : Text → WaivedLicense → Bool
waived_license_of id x = text_eq x.partner_id id

abbrev pub registration_of : Text → Registration → Bool
registration_of id x = text_eq x.id id

-- The invoices of a partner in a state of the workflow.
abbrev pub due_in : Text → Text → DueInvoice → Bool
due_in id status x = text_eq x.partner_id id && text_eq x.workflow_status status

abbrev pub system_actor : Text
system_actor = codes "central-6-admin-default"

-- The row of a partner that has none yet.
abbrev pub first_onboarding : ℕ → Registration → OnboardingState
first_onboarding now p =
    if not (is_empty p.onboarding_request_id)
    then record {
      partner_id = p.id;
      state = registered;
      classification = unclassified;
      portal_enabled = false;
      reviewed_at = none;
      reviewed_by = [];
      approved_at = none;
      approved_by = [];
      reason = codes "Registration awaiting HIMATE review";
    }
    else record {
      partner_id = p.id;
      state = active;
      classification = paid;
      portal_enabled = true;
      reviewed_at = some now;
      reviewed_by = system_actor;
      approved_at = some now;
      approved_by = system_actor;
      reason = codes "HIMATE-admin-created partner";
    }

abbrev pub insert_onboarding :
    Option Registration
    → ℕ
    → OnboardingStore
    → Result OnboardingError OnboardingState × OnboardingStore
insert_onboarding none now s = (err database, s)
insert_onboarding (some p) now s = (
  ok (first_onboarding now p),
  record s { onboarding = s.onboarding ++ (first_onboarding now p ∷ []) },
)

abbrev pub onboarding_found :
    Option OnboardingState
    → ℕ
    → Text
    → OnboardingStore
    → Result OnboardingError OnboardingState × OnboardingStore
onboarding_found (some x) now id s = (ok x, s)
onboarding_found none now id s = insert_onboarding (find (registration_of id) s.partners) now s

unfoldable pub ensure_onboarding :
    ℕ → Text → OnboardingStore → Result OnboardingError OnboardingState × OnboardingStore
ensure_onboarding now id s = onboarding_found (find (onboarding_of id) s.onboarding) now id s

-- What ADMIN_APPROVAL asks for: a paid invoice, or a documented waiver.
abbrev pub approval_blocked : Text → Classification → OnboardingStore → Bool
approval_blocked id paid s = count (due_in id (codes "PAID")) s.due_invoices == 0
approval_blocked id unclassified s = false
approval_blocked id _ s = count (waiver_of id) s.waivers == 0

abbrev pub state_is : OnboardingStatus → Option OnboardingState → Bool
state_is st none = false
state_is st (some x) = same_status x.state st

-- onboardingPrerequisite: whether the next state is refused.
unfoldable pub prerequisite_fails :
    Text → OnboardingStatus → Classification → OnboardingStore → Bool
prerequisite_fails id classified c s = is_unclassified c
prerequisite_fails id invoice_pending c s = not (is_paid c)
prerequisite_fails id payment_pending c s = count (due_in id (codes "SENT")) s.due_invoices == 0
prerequisite_fails id admin_approval c s = approval_blocked id c s
prerequisite_fails id active c s =
    not (state_is admin_approval (find (onboarding_of id) s.onboarding))
prerequisite_fails id _ c s = false
