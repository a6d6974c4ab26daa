-- ===== src/Billing/Onboarding/Invoices.antt =====
-- services/cmd/billing/central6.go, advanceOnboardingFromInvoice: an invoice that is sent or paid moves the onboarding
-- of its partner.
use himate_system.Base.{
  ℕ, ◌≡◌, refl, ap, ◌∙◌, ◌⊎◌, inl, inr, true, false, not, Bool-cases, some, [], ◌∷◌, ◌++◌,
  if◌then◌else◌, find, find-update_where, update_where, Result, ok, err, Text,
}
use himate_system.Billing.Onboarding.{
  OnboardingStatus, OnboardingState, OnboardingStore, OnboardingError, is_paid, transition_allowed,
}
use himate_system.Billing.Onboarding.Rules.{onboarding_of, ensure_onboarding, prerequisite_fails}
use himate_system.Billing.Onboarding.Advance.{Advances, prerequisite-active, prerequisite-approval}

abbrev advance_row : OnboardingStatus → Text → OnboardingState → OnboardingState
advance_row target reason x = record x { state = target; reason = reason }

unfoldable pub advance_tx :
    Text → OnboardingStatus → Text → Text → OnboardingState → OnboardingStore → OnboardingStore
advance_tx id target actor reason x s = record s {
  onboarding = update_where (onboarding_of id) (advance_row target reason) s.onboarding;
  onboarding_history =
      s.onboarding_history
      ++ (record {
        partner_id = id;
        old_state = x.state;
        new_state = target;
        old_classification = x.classification;
        new_classification = x.classification;
        actor = actor;
        reason = reason;
      }
          ∷ []);
}

abbrev advance_found :
    Text
    → OnboardingStatus
    → Text
    → Text
    → Result OnboardingError OnboardingState × OnboardingStore
    → OnboardingStore
advance_found id target actor reason (err e, s) = s
advance_found id target actor reason (ok x, s) =
    if not (is_paid x.classification)
    then s
    else if not (transition_allowed x.state target)
    then s
    else if prerequisite_fails id target x.classification s
    then s
    else advance_tx id target actor reason x s

-- advanceOnboardingFromInvoice
unfoldable pub advance_onboarding_from_invoice :
    ℕ → Text → OnboardingStatus → Text → Text → OnboardingStore → OnboardingStore
advance_onboarding_from_invoice now id target actor reason s =
    advance_found id target actor reason (ensure_onboarding now id s)

advance_tx-Advances :
    (id : Text) (target : OnboardingStatus) (actor reason : Text) (x : OnboardingState)
    (s : OnboardingStore)
    → find (onboarding_of id) s.onboarding ≡ some x
    → transition_allowed x.state target ≡ true
    → prerequisite_fails id target x.classification s ≡ false
    → Advances id s (advance_tx id target actor reason x s)
unfolding advance_tx
advance_tx-Advances id target actor reason x s found allowed met = (
  x,
  target,
  x.classification,
  found,
  (
    allowed,
    (λ now. prerequisite-active id target x.classification s x now found met),
    λ now. prerequisite-approval id target x.classification s now met,
  ),
  (
    advance_row target reason x,
    find-update_where (onboarding_of id) (advance_row target reason) s.onboarding x (λ _. refl)
        found,
    refl,
    refl,
  ),
)

advance_found-Advances :
    (id : Text) (target : OnboardingStatus) (actor reason : Text)
    (r : Result OnboardingError OnboardingState) (s : OnboardingStore)
    → ((x : OnboardingState) → r ≡ ok x → find (onboarding_of id) s.onboarding ≡ some x)
    → (advance_found id target actor reason (r, s) ≡ s)
      ⊎ Advances id s (advance_found id target actor reason (r, s))
advance_found-Advances id target actor reason (err e) s found = inl refl
advance_found-Advances id target actor reason (ok x) s found =
    elim (Bool-cases (is_paid x.classification)) [
      | inr free ↦ rw free (inl refl)
      | inl pays ↦ rw pays (elim (Bool-cases (transition_allowed x.state target)) [
        | inr refused ↦ rw refused (inl refl)
        | inl allowed ↦
            rw allowed (elim (Bool-cases (prerequisite_fails id target x.classification s)) [
              | inl missing ↦ rw missing (inl refl)
              | inr met ↦
                  rw met (
                    inr (advance_tx-Advances id target actor reason x s (found x refl) allowed met))
            ])
      ])
    ]

abbrev result_or : {E A : Type 0} → A → Result E A → A
result_or x (err e) = x
result_or x (ok a) = a

ensured_found :
    (now : ℕ) (id : Text) (s : OnboardingStore) (x : OnboardingState)
    → find (onboarding_of id) s.onboarding ≡ some x
    → ensure_onboarding now id s ≡ (ok x, s)
unfolding ensure_onboarding
ensured_found now id s x found = rw found refl

-- An invoice of a partner that has an onboarding, when it is sent or paid, moves that onboarding only to a state
-- that a change by hand could reach too: to ADMIN_APPROVAL only with a paid invoice if the partner is to
-- pay, and to ACTIVE only from there. Else it leaves the whole onboarding store as it was.
pub advance_onboarding_from_invoice-Advances :
    (now : ℕ) (id : Text) (target : OnboardingStatus) (actor reason : Text) (s : OnboardingStore)
    (x : OnboardingState)
    → find (onboarding_of id) s.onboarding ≡ some x
    → (advance_onboarding_from_invoice now id target actor reason s ≡ s)
      ⊎ Advances id s (advance_onboarding_from_invoice now id target actor reason s)
unfolding advance_onboarding_from_invoice
advance_onboarding_from_invoice-Advances now id target actor reason s x found =
    rw (ensured_found now id s x found) (
      advance_found-Advances id target actor reason (ok x) s
        (λ y e. found ∙ ap some (ap (result_or x) e)))
