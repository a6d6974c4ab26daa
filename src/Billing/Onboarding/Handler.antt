-- ===== src/Billing/Onboarding/Handler.antt =====
-- services/cmd/billing/central6.go, partnerOnboarding: the `PATCH` of an onboarding, as one step, and
-- portalGate.
use himate_system.Base.{
  ℕ, Bool, not, ◌&&◌, Option, none, some, List, [], ◌∷◌, ◌++◌, if◌then◌else◌, find, update_where,
  Result, ok, err, ◌>>=◌, ◌>>◌, reject_if, Text, codes, is_empty, Unicode, to_upper, trim_space,
}
use himate_system.Billing.Onboarding.{
  OnboardingStatus, pending_review, classified, active, Classification, OnboardingState,
  SupportWaiver, WaivedLicense, OnboardingStore, OnboardingError, bad_json, validation,
  invalid_transition, waiver_reason_required, prerequisite, OnboardingInput, same_status,
  status_among, all_statuses, classification_among, all_classifications, transition_allowed,
  zero_dollar,
}
use himate_system.Billing.Onboarding.Rules.{
  onboarding_of, waiver_of, waived_license_of, ensure_onboarding, prerequisite_fails,
}
use himate_system.Billing.Onboarding.Modes.{sync_mode}

abbrev pub word_or : Text → Text → Text
word_or word given = if is_empty (trim_space given) then word else trim_space given

-- `INSERT ... ON CONFLICT(partner_id) DO UPDATE`
abbrev pub upsert_waiver :
    Option SupportWaiver → SupportWaiver → List SupportWaiver → List SupportWaiver
upsert_waiver none w ws = ws ++ (w ∷ [])
upsert_waiver (some x) w ws = update_where (waiver_of w.partner_id) (λ _. w) ws

abbrev pub upsert_license :
    Option WaivedLicense → WaivedLicense → List WaivedLicense → List WaivedLicense
upsert_license none w ws = ws ++ (w ∷ [])
upsert_license (some x) w ws = update_where (waived_license_of w.partner_id) (λ _. w) ws

unfoldable pub document_waiver :
    ⦃u : Unicode⦄
    → Text
    → Classification
    → Text
    → Text
    → OnboardingInput
    → OnboardingStore
    → OnboardingStore
document_waiver id c actor reason input s =
    let given = to_upper (trim_space input.currency) in
    let currency = if is_empty given then codes "USD" else given in
    let w : SupportWaiver = record {
      partner_id = id;
      classification = c;
      currency = currency;
      reason = reason;
      evidence_reference = trim_space input.evidence_reference;
      approved_by = actor;
    } in
    let l : WaivedLicense = record {
      partner_id = id;
      currency = currency;
      waiver_reason = reason;
    } in
    record s {
      waivers = upsert_waiver (find (waiver_of id) s.waivers) w s.waivers;
      waived_licenses =
          upsert_license (find (waived_license_of id) s.waived_licenses) l s.waived_licenses;
    }

abbrev pub write_onboarding :
    ℕ
    → OnboardingState
    → OnboardingStatus
    → Classification
    → Text
    → Text
    → OnboardingState
    → OnboardingState
write_onboarding now current next c actor reason x =
    let reviewed =
      same_status next pending_review && not (same_status current.state pending_review) in
    record x {
      state = next;
      classification = c;
      portal_enabled = same_status next active;
      reviewed_at = if reviewed then some now else current.reviewed_at;
      reviewed_by = if reviewed then actor else current.reviewed_by;
      approved_at = if same_status next active then some now else current.approved_at;
      approved_by = if same_status next active then actor else current.approved_by;
      reason = reason;
    }

-- The writes that a change to CLASSIFIED makes first.
abbrev pub classify :
    ⦃u : Unicode⦄
    → ℕ
    → Text
    → OnboardingStatus
    → Classification
    → Text
    → Text
    → OnboardingInput
    → OnboardingStore
    → OnboardingStore
classify now id next c actor reason input s =
    if not (same_status next classified)
    then s
    else if zero_dollar c
    then document_waiver id c actor reason input (sync_mode now id c actor reason s)
    else sync_mode now id c actor reason s

-- The transaction.
unfoldable pub onboard_tx :
    ⦃u : Unicode⦄
    → ℕ
    → Text
    → OnboardingState
    → OnboardingStatus
    → Classification
    → Text
    → OnboardingInput
    → OnboardingStore
    → OnboardingStore
onboard_tx now id current next c actor input s =
    let reason = word_or (codes "Central-6 onboarding update") input.reason in
    let s1 = classify now id next c actor reason input s in
    record s1 {
      onboarding =
          update_where (onboarding_of id) (write_onboarding now current next c actor reason)
            s1.onboarding;
      onboarding_history =
          s1.onboarding_history
          ++ (record {
            partner_id = id;
            old_state = current.state;
            new_state = next;
            old_classification = current.classification;
            new_classification = c;
            actor = actor;
            reason = reason;
          }
              ∷ []);
    }

module _ ⦃u : Unicode⦄ where
  abbrev pub asked_state : Text → OnboardingStatus → Option OnboardingStatus
  asked_state raw current =
      let t = to_upper (trim_space raw) in
      if is_empty t then some current else status_among t all_statuses

  abbrev pub asked_classification : Text → Classification → Option Classification
  asked_classification raw current =
      let t = to_upper (trim_space raw) in
      if is_empty t then some current else classification_among t all_classifications

  abbrev pub expect_valid : {A : Type 0} → Option A → Result OnboardingError A
  expect_valid none = err validation
  expect_valid (some a) = ok a

  -- The tests of a change; the answer is the next state and the next classification.
  unfoldable pub check_onboarding :
      Text
      → OnboardingInput
      → OnboardingState
      → OnboardingStore
      → Result OnboardingError (OnboardingStatus × Classification)
  check_onboarding id input current s = do
    next ← expect_valid (asked_state input.state current.state)
    c ← expect_valid (asked_classification input.classification current.classification)
    reject_if (not (transition_allowed current.state next)) invalid_transition
    reject_if (same_status next classified && zero_dollar c && is_empty (trim_space input.reason))
        waiver_reason_required
    reject_if (prerequisite_fails id next c s) prerequisite
    ok (next, c)

  abbrev pub onboard_checked :
      ℕ
      → Text
      → OnboardingState
      → Text
      → OnboardingInput
      → OnboardingStore
      → Result OnboardingError (OnboardingStatus × Classification)
      → Result OnboardingError (Unit {0}) × OnboardingStore
  onboard_checked now id current actor input s (err e) = (err e, s)
  onboard_checked now id current actor input s (ok (next, c)) =
      (ok tt, onboard_tx now id current next c (word_or (codes "system") actor) input s)

  abbrev pub onboard_loaded :
      ℕ
      → Text
      → Text
      → Option OnboardingInput
      → Result OnboardingError OnboardingState × OnboardingStore
      → Result OnboardingError (Unit {0}) × OnboardingStore
  onboard_loaded now id actor body (err e, s) = (err e, s)
  onboard_loaded now id actor none (ok current, s) = (err bad_json, s)
  onboard_loaded now id actor (some input) (ok current, s) =
      onboard_checked now id current actor input s (check_onboarding id input current s)

  -- The row that is made for a partner without one stays, whatever the tests say.
  unfoldable pub patch_onboarding :
      ℕ
      → Text
      → Text
      → Option OnboardingInput
      → OnboardingStore
      → Result OnboardingError (Unit {0}) × OnboardingStore
  patch_onboarding now id actor body s =
      onboard_loaded now id actor body (ensure_onboarding now id s)

-- portalGate
abbrev pub portal_allowed : OnboardingState → Bool
portal_allowed x = same_status x.state active && x.portal_enabled
