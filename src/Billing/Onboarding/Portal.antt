-- ===== src/Billing/Onboarding/Portal.antt =====
-- The portal is open to active partners only.
use himate_system.Base.{
  ℕ, ◌≡◌, refl, inl, inr, Bool, Bool-cases, Option, none, some, List, [], ◌∷◌, ◌++◌, All, find,
  update_where, Result, ok, err, Text, codes, is_empty, Unicode,
}
use himate_system.Billing.Onboarding.{
  Registration, OnboardingStatus, active, Classification, OnboardingState, OnboardingStore,
  OnboardingError, OnboardingInput, same_status,
}
use himate_system.Billing.Onboarding.Rules.{
  registration_of, insert_onboarding, onboarding_found, onboarding_of, ensure_onboarding,
  first_onboarding,
}
use himate_system.Billing.Onboarding.Handler.{
  write_onboarding, onboard_tx, check_onboarding, onboard_checked, onboard_loaded, patch_onboarding,
  word_or,
}
use himate_system.Billing.Onboarding.Writes.{classify-onboarding}

abbrev pub PortalOnly : OnboardingState → Type 0
PortalOnly x = x.portal_enabled ≡ same_status x.state active

abbrev pub PortalsOnly : OnboardingStore → Type 0
PortalsOnly s = All PortalOnly s.onboarding

All-last :
    (xs : List OnboardingState) (x : OnboardingState)
    → All PortalOnly xs
    → PortalOnly x
    → All PortalOnly (xs ++ x ∷ [])
All-last [] x h p = (p, tt)
All-last (y ∷ ys) x (q, h) p = (q, All-last ys x h p)

All-update_where :
    (q : OnboardingState → Bool) (f : OnboardingState → OnboardingState) (xs : List OnboardingState)
    → ((x : OnboardingState) → PortalOnly (f x))
    → All PortalOnly xs
    → All PortalOnly (update_where q f xs)
All-update_where q f [] g h = tt
All-update_where q f (x ∷ xs) g (p, h) = elim (Bool-cases (q x)) [
  | inl hit ↦ rw hit (g x, All-update_where q f xs g h)
  | inr miss ↦ rw miss (p, All-update_where q f xs g h)
]

first_onboarding-PortalOnly : (now : ℕ) (p : Registration) → PortalOnly (first_onboarding now p)
first_onboarding-PortalOnly now p = elim (Bool-cases (is_empty p.onboarding_request_id)) [
  | inl admin ↦ rw admin refl
  | inr online ↦ rw online refl
]

insert_onboarding-PortalsOnly :
    (o : Option Registration) (now : ℕ) (s : OnboardingStore)
    → PortalsOnly s
    → PortalsOnly (insert_onboarding o now s).1
insert_onboarding-PortalsOnly none now s h = h
insert_onboarding-PortalsOnly (some p) now s h =
    All-last s.onboarding (first_onboarding now p) h (first_onboarding-PortalOnly now p)

onboarding_found-PortalsOnly :
    (o : Option OnboardingState) (now : ℕ) (id : Text) (s : OnboardingStore)
    → PortalsOnly s
    → PortalsOnly (onboarding_found o now id s).1
onboarding_found-PortalsOnly (some x) now id s h = h
onboarding_found-PortalsOnly none now id s h =
    insert_onboarding-PortalsOnly (find (registration_of id) s.partners) now s h

module _ ⦃u : Unicode⦄ where
  onboard_tx-PortalsOnly :
      (now : ℕ) (id : Text) (x : OnboardingState) (next : OnboardingStatus) (c : Classification)
      (actor : Text) (input : OnboardingInput) (s : OnboardingStore)
      → PortalsOnly s
      → PortalsOnly (onboard_tx now id x next c actor input s)
  unfolding onboard_tx
  onboard_tx-PortalsOnly now id x next c actor input s h =
      let reason = word_or (codes "Central-6 onboarding update") input.reason in
      rw (classify-onboarding now id next c actor reason input s) (
        All-update_where (onboarding_of id) (write_onboarding now x next c actor reason)
          s.onboarding (λ _. refl) h)

  onboard_checked-PortalsOnly :
      (now : ℕ) (id : Text) (x : OnboardingState) (actor : Text) (input : OnboardingInput)
      (s : OnboardingStore) (r : Result OnboardingError (OnboardingStatus × Classification))
      → PortalsOnly s
      → PortalsOnly (onboard_checked now id x actor input s r).1
  onboard_checked-PortalsOnly now id x actor input s (err e) h = h
  onboard_checked-PortalsOnly now id x actor input s (ok (next, c)) h =
      onboard_tx-PortalsOnly now id x next c (word_or (codes "system") actor) input s h

  onboard_loaded-PortalsOnly :
      (now : ℕ) (id actor : Text) (body : Option OnboardingInput)
      (r : Result OnboardingError OnboardingState) (s : OnboardingStore)
      → PortalsOnly s
      → PortalsOnly (onboard_loaded now id actor body (r, s)).1
  onboard_loaded-PortalsOnly now id actor body (err e) s h = h
  onboard_loaded-PortalsOnly now id actor none (ok x) s h = h
  onboard_loaded-PortalsOnly now id actor (some input) (ok x) s h =
      onboard_checked-PortalsOnly now id x actor input s (check_onboarding id input x s) h

  -- If the portal is enabled for exactly the partners in ACTIVE, it still is after a change of any onboarding,
  -- whether the change is accepted or refused.
  pub patch_onboarding-PortalsOnly :
      (now : ℕ) (id actor : Text) (body : Option OnboardingInput) (s : OnboardingStore)
      → PortalsOnly s
      → PortalsOnly (patch_onboarding now id actor body s).1
  unfolding patch_onboarding ensure_onboarding
  patch_onboarding-PortalsOnly now id actor body s h =
      let (r, s0) = ensure_onboarding now id s in
      onboard_loaded-PortalsOnly now id actor body r s0
        (onboarding_found-PortalsOnly (find (onboarding_of id) s.onboarding) now id s h)
