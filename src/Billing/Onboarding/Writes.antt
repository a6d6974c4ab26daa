-- ===== src/Billing/Onboarding/Writes.antt =====
-- What is written for a classification leaves the table of onboardings.
use himate_system.Base.{
  ℕ, ◌≡◌, refl, ◌∙◌, inl, inr, Bool, true, false, Bool-cases, Option, none, some, find, Text,
  Unicode,
}
use himate_system.Billing.Onboarding.{
  OnboardingStatus, classified, Classification, CommercialMode, ModeChange, OnboardingStore,
  OnboardingInput, same_status, zero_dollar,
}
use himate_system.Billing.Onboarding.Rules.{mode_of}
use himate_system.Billing.Onboarding.Handler.{document_waiver, classify}
use himate_system.Billing.Onboarding.Modes.{
  record_mode, mode_synced, mode_found, ensure_mode, sync_mode,
}

record_mode-onboarding :
    (same : Bool) (change : ModeChange) (s : OnboardingStore)
    → (record_mode same change s).onboarding ≡ s.onboarding
record_mode-onboarding true change s = refl
record_mode-onboarding false change s = refl

mode_found-onboarding :
    (o : Option CommercialMode) (id : Text) (s : OnboardingStore)
    → (mode_found o id s).1.onboarding ≡ s.onboarding
mode_found-onboarding none id s = refl
mode_found-onboarding (some x) id s = refl

mode_synced-onboarding :
    (now : ℕ) (id : Text) (c : Classification) (actor reason : Text)
    (x : CommercialMode × OnboardingStore)
    → (mode_synced now id c actor reason x).onboarding ≡ x.1.onboarding
mode_synced-onboarding now id c actor reason (mode, s1) = record_mode-onboarding _ _ _

sync_mode-onboarding :
    (now : ℕ) (id : Text) (c : Classification) (actor reason : Text) (s : OnboardingStore)
    → (sync_mode now id c actor reason s).onboarding ≡ s.onboarding
unfolding sync_mode ensure_mode
sync_mode-onboarding now id c actor reason s =
    mode_synced-onboarding now id c actor reason (ensure_mode id s)
    ∙ mode_found-onboarding (find (mode_of id) s.modes) id s

pub classify-onboarding :
    ⦃u : Unicode⦄ (now : ℕ) (id : Text) (next : OnboardingStatus) (c : Classification)
    (actor reason : Text) (input : OnboardingInput) (s : OnboardingStore)
    → (classify now id next c actor reason input s).onboarding ≡ s.onboarding
unfolding document_waiver
classify-onboarding now id next c actor reason input s =
    elim (Bool-cases (same_status next classified)) [
      | inr other ↦ rw other refl
      | inl now_classified ↦ elim (Bool-cases (zero_dollar c)) [
        | inl free ↦ rw (now_classified, free) (sync_mode-onboarding now id c actor reason s)
        | inr paying ↦ rw (now_classified, paying) (sync_mode-onboarding now id c actor reason s)
      ]
    ]
