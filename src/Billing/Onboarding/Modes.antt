-- ===== src/Billing/Onboarding/Modes.antt =====
-- services/cmd/billing/central6.go and commercial_modes.go: the commercial mode that follows a classification.
use himate_system.Base.{
  ℕ, Bool, true, false, ◌&&◌, Option, none, some, [], ◌∷◌, ◌++◌, if◌then◌else◌, find, update_where,
  Text, is_empty,
}
use himate_system.Billing.Onboarding.{
  Classification, charity, sponsored, complimentary, BillingMode, paid_mode, complimentary_mode,
  charity_mode, CharityStatus, not_requested, approved, pending, rejected, CommercialMode,
  ModeChange, OnboardingStore,
}
use himate_system.Billing.Onboarding.Rules.{mode_of}

abbrev pub is_approved : CharityStatus → Bool
is_approved approved = true
is_approved _ = false

abbrev pub next_mode : Classification → BillingMode
next_mode charity = charity_mode
next_mode sponsored = complimentary_mode
next_mode complimentary = complimentary_mode
next_mode _ = paid_mode

abbrev pub next_charity : Classification → CharityStatus
next_charity charity = approved
next_charity _ = not_requested

abbrev pub same_mode : BillingMode → BillingMode → Bool
same_mode paid_mode paid_mode = true
same_mode complimentary_mode complimentary_mode = true
same_mode charity_mode charity_mode = true
same_mode _ _ = false

abbrev pub same_charity : CharityStatus → CharityStatus → Bool
same_charity not_requested not_requested = true
same_charity pending pending = true
same_charity approved approved = true
same_charity rejected rejected = true
same_charity _ _ = false

-- The defaults of the table.
abbrev pub new_mode : Text → CommercialMode
new_mode id = record {
  partner_id = id;
  billing_mode = paid_mode;
  charity_status = not_requested;
  charity_reviewed_at = none;
  charity_reviewed_by = [];
  reason = [];
}

abbrev pub mode_found :
    Option CommercialMode → Text → OnboardingStore → CommercialMode × OnboardingStore
mode_found (some x) id s = (x, s)
mode_found none id s = (new_mode id, record s { modes = s.modes ++ (new_mode id ∷ []) })

-- ensureCommercialMode
unfoldable pub ensure_mode : Text → OnboardingStore → CommercialMode × OnboardingStore
ensure_mode id s = mode_found (find (mode_of id) s.modes) id s

abbrev pub or_now : Option ℕ → ℕ → Option ℕ
or_now none now = some now
or_now (some t) now = some t

abbrev pub write_mode : ℕ → Classification → Text → Text → CommercialMode → CommercialMode
write_mode now c actor reason x = record x {
  billing_mode = next_mode c;
  charity_status = next_charity c;
  charity_reviewed_at =
      if is_approved (next_charity c)
      then or_now x.charity_reviewed_at now
      else x.charity_reviewed_at;
  charity_reviewed_by =
      if is_approved (next_charity c) && is_empty x.charity_reviewed_by
      then actor
      else x.charity_reviewed_by;
  reason = reason;
}

-- The history row of a mode that differs.
abbrev pub record_mode : Bool → ModeChange → OnboardingStore → OnboardingStore
record_mode true change s = s
record_mode false change s = record s { mode_history = s.mode_history ++ (change ∷ []) }

abbrev pub mode_synced :
    ℕ → Text → Classification → Text → Text → CommercialMode × OnboardingStore → OnboardingStore
mode_synced now id c actor reason (mode, s1) =
    record_mode
      (same_mode mode.billing_mode (next_mode c)
        && same_charity mode.charity_status (next_charity c))
      (record {
        partner_id = id;
        old_billing_mode = mode.billing_mode;
        new_billing_mode = next_mode c;
        old_charity_status = mode.charity_status;
        new_charity_status = next_charity c;
        actor = actor;
        reason = reason;
      })
      (record s1 { modes = update_where (mode_of id) (write_mode now c actor reason) s1.modes })

-- The commercial mode follows the classification, and its history says so if it differs.
unfoldable pub sync_mode :
    ℕ → Text → Classification → Text → Text → OnboardingStore → OnboardingStore
sync_mode now id c actor reason s = mode_synced now id c actor reason (ensure_mode id s)
