-- ===== src/Billing/Onboarding/Advance.antt =====
-- How a partner comes through the onboarding.
use mathlib.Core.Path.{subst}
use himate_system.Base.{
  ℕ, ◌==◌, ◌≡◌, refl, ap, ◌∙◌, inl, inr, true, false, not, ◌&&◌, Bool-cases, Option, none, some, [],
  ◌∷◌, ◌++◌, arith, find, find-passes, find-concat_self, find-update_where, count, Result, ok, err,
  >>=-eq-ok, reject_if-eq-ok, Text, codes, is_empty, text_eq, Unicode, trim_space,
}
use himate_system.Billing.Onboarding.{
  Registration, OnboardingStatus, classified, admin_approval, active, Classification, unclassified,
  paid, charity, sponsored, complimentary, OnboardingState, OnboardingStore, OnboardingError,
  invalid_transition, waiver_reason_required, prerequisite, OnboardingInput, same_status,
  transition_allowed, zero_dollar,
}
use himate_system.Billing.Onboarding.Rules.{
  registration_of, insert_onboarding, onboarding_found, onboarding_of, due_in, waiver_of,
  approval_blocked, state_is, ensure_onboarding, prerequisite_fails, first_onboarding,
}
use himate_system.Billing.Onboarding.Handler.{
  write_onboarding, onboard_tx, asked_state, asked_classification, expect_valid, check_onboarding,
  onboard_checked, onboard_loaded, patch_onboarding, word_or,
}
use himate_system.Billing.Onboarding.Writes.{classify-onboarding}

-- What stands behind an approval: a paid invoice, or a waiver. A partner that is not classified needs nothing.
pub data Documented (id : Text) (s : OnboardingStore) : Classification → Type 0 where
  pays : (count (due_in id (codes "PAID")) s.due_invoices == 0) ≡ false → Documented id s paid
  supported :
      {c : Classification}
      → zero_dollar c ≡ true
      → (count (waiver_of id) s.waivers == 0) ≡ false
      → Documented id s c
  nothing_asked : Documented id s unclassified

approval-Documented :
    (id : Text) (c : Classification) (s : OnboardingStore)
    → approval_blocked id c s ≡ false
    → Documented id s c
approval-Documented id unclassified s h = nothing_asked
approval-Documented id paid s h = pays h
approval-Documented id charity s h = supported refl h
approval-Documented id sponsored s h = supported refl h
approval-Documented id complimentary s h = supported refl h

pub prerequisite-active :
    (id : Text) (n : OnboardingStatus) (c : Classification) (s : OnboardingStore)
    (x : OnboardingState)
    → n ≡ active
    → find (onboarding_of id) s.onboarding ≡ some x
    → prerequisite_fails id n c s ≡ false
    → same_status x.state admin_approval ≡ true
unfolding prerequisite_fails
prerequisite-active id n c s x now found met =
    let at_approval : not (state_is admin_approval (some x)) ≡ false = (rw (now, found) at met) in
    ground (arith, at_approval)

pub prerequisite-approval :
    (id : Text) (n : OnboardingStatus) (c : Classification) (s : OnboardingStore)
    → n ≡ admin_approval
    → prerequisite_fails id n c s ≡ false
    → Documented id s c
unfolding prerequisite_fails
prerequisite-approval id n c s now met = approval-Documented id c s (rw now at met)

-- A permitted change of the state of `x`, for what the store says.
abbrev pub Permitted :
    Text → OnboardingStore → OnboardingState → OnboardingStatus → Classification → Type 0
Permitted id s x next c =
    (transition_allowed x.state next ≡ true)
    × (next ≡ active → same_status x.state admin_approval ≡ true)
    × (next ≡ admin_approval → Documented id s c)

module _ ⦃u : Unicode⦄ where
  check_onboarding-Permitted :
      (id : Text) (input : OnboardingInput) (x : OnboardingState) (s : OnboardingStore)
      (next : OnboardingStatus) (c : Classification)
      → find (onboarding_of id) s.onboarding ≡ some x
      → check_onboarding id input x s ≡ ok (next, c)
      → Permitted id s x next c
  unfolding check_onboarding
  check_onboarding-Permitted id input x s next c found h =
      let (n, _, h1) = >>=-eq-ok (expect_valid (asked_state input.state x.state)) _ h in
      let (k, _, h2) =
        >>=-eq-ok (expect_valid (asked_classification input.classification x.classification)) _
          h1 in
      let (allowed, h3) =
        reject_if-eq-ok (not (transition_allowed x.state n)) invalid_transition _ h2 in
      let (_, h4) =
        reject_if-eq-ok
          (same_status n classified && zero_dollar k && is_empty (trim_space input.reason))
          waiver_reason_required _ h3 in
      let (met, h5) = reject_if-eq-ok (prerequisite_fails id n k s) prerequisite _ h4 in
      let same_next : n ≡ next = cc in
      let same_class : k ≡ c = cc in
      subst (λ a. Permitted id s x a c) same_next
        (subst (λ b. Permitted id s x n b) same_class
          (
            ground (arith, allowed),
            λ now. prerequisite-active id n k s x now found met,
            λ now. prerequisite-approval id n k s now met,
          ))

first_onboarding-partner : (now : ℕ) (p : Registration) → (first_onboarding now p).partner_id ≡ p.id
first_onboarding-partner now p = elim (Bool-cases (is_empty p.onboarding_request_id)) [
  | inl admin ↦ rw admin refl
  | inr online ↦ rw online refl
]

-- The row of a partner, once it is made sure that there is one.
insert_onboarding-found :
    (o : Option Registration) (now : ℕ) (id : Text) (s s' : OnboardingStore) (x : OnboardingState)
    → find (registration_of id) s.partners ≡ o
    → find (onboarding_of id) s.onboarding ≡ none
    → insert_onboarding o now s ≡ (ok x, s')
    → find (onboarding_of id) s'.onboarding ≡ some x
insert_onboarding-found none now id s s' x f absent h =
    cc (ap (λ (r : Result OnboardingError OnboardingState × OnboardingStore). r.0) h)
insert_onboarding-found (some p) now id s s' x f absent h =
    let row : first_onboarding now p ≡ x =
      cc (ap (λ (r : Result OnboardingError OnboardingState × OnboardingStore). r.0) h) in
    let table : s.onboarding ++ (first_onboarding now p ∷ []) ≡ s'.onboarding =
      ap (λ (r : Result OnboardingError OnboardingState × OnboardingStore). r.1.onboarding) h in
    let named : text_eq (first_onboarding now p).partner_id id ≡ true =
      rw (first_onboarding-partner now p) (find-passes (registration_of id) s.partners p f) in
    rw (← table) (
      find-concat_self (onboarding_of id) s.onboarding (first_onboarding now p) absent named
      ∙ ap some row)

pub onboarding_found-found :
    (o : Option OnboardingState) (now : ℕ) (id : Text) (s s' : OnboardingStore)
    (x : OnboardingState)
    → find (onboarding_of id) s.onboarding ≡ o
    → onboarding_found o now id s ≡ (ok x, s')
    → find (onboarding_of id) s'.onboarding ≡ some x
onboarding_found-found (some y) now id s s' x f h =
    let row : y ≡ x =
      cc (ap (λ (r : Result OnboardingError OnboardingState × OnboardingStore). r.0) h) in
    let store : s ≡ s' =
      ap (λ (r : Result OnboardingError OnboardingState × OnboardingStore). r.1) h in
    subst (λ t. find (onboarding_of id) t.onboarding ≡ some x) store (f ∙ ap some row)
onboarding_found-found none now id s s' x f h =
    insert_onboarding-found (find (registration_of id) s.partners) now id s s' x refl f h

-- What is written for a classification leaves the table of onboardings.
-- The row of the partner after the transaction.
abbrev pub Moved : Text → OnboardingStatus → Classification → OnboardingStore → Type 0
Moved id next c s =
    (y : OnboardingState) × (find (onboarding_of id) s.onboarding ≡ some y)
    × (y.state ≡ next)
    × (y.classification ≡ c)

onboard_tx-Moved :
    ⦃u : Unicode⦄ (now : ℕ) (id : Text) (x : OnboardingState) (next : OnboardingStatus)
    (c : Classification) (actor : Text) (input : OnboardingInput) (s : OnboardingStore)
    → find (onboarding_of id) s.onboarding ≡ some x
    → Moved id next c (onboard_tx now id x next c actor input s)
unfolding onboard_tx
onboard_tx-Moved now id x next c actor input s found =
    let reason = word_or (codes "Central-6 onboarding update") input.reason in
    let f = write_onboarding now x next c actor reason in
    (
      f x,
      rw (classify-onboarding now id next c actor reason input s)
          (find-update_where (onboarding_of id) f s.onboarding x (λ _. refl) found),
      refl,
      refl,
    )

-- What an accepted change was, from the row of the partner that it found.
abbrev pub Advances : Text → OnboardingStore → OnboardingStore → Type 0
Advances id s s' =
    (x : OnboardingState) × (next : OnboardingStatus) × (c : Classification) × (find
        (onboarding_of id) s.onboarding
      ≡ some x)
    × Permitted id s x next c
    × Moved id next c s'

module _ ⦃u : Unicode⦄ where
  onboard_checked-Advances :
      (now : ℕ) (id : Text) (x : OnboardingState) (actor : Text) (input : OnboardingInput)
      (s s' : OnboardingStore) (r : Result OnboardingError (OnboardingStatus × Classification))
      → find (onboarding_of id) s.onboarding ≡ some x
      → check_onboarding id input x s ≡ r
      → onboard_checked now id x actor input s r ≡ (ok tt, s')
      → Advances id s s'
  onboard_checked-Advances now id x actor input s s' (err e) found checked h =
      cc (ap (λ (r : Result OnboardingError (Unit {0}) × OnboardingStore). r.0) h)
  onboard_checked-Advances now id x actor input s s' (ok (next, c)) found checked h =
      let store = ap (λ (r : Result OnboardingError (Unit {0}) × OnboardingStore). r.1) h in
      (
        x,
        next,
        c,
        found,
        check_onboarding-Permitted id input x s next c found checked,
        subst (Moved id next c) store
            (onboard_tx-Moved now id x next c (word_or (codes "system") actor) input s found),
      )

  onboard_loaded-Advances :
      (now : ℕ) (id actor : Text) (body : Option OnboardingInput) (s s0 s' : OnboardingStore)
      (r : Result OnboardingError OnboardingState)
      → ensure_onboarding now id s ≡ (r, s0)
      → onboard_loaded now id actor body (r, s0) ≡ (ok tt, s')
      → Advances id s0 s'
  unfolding ensure_onboarding
  onboard_loaded-Advances now id actor body s s0 s' (err e) loaded h =
      cc (ap (λ (r : Result OnboardingError (Unit {0}) × OnboardingStore). r.0) h)
  onboard_loaded-Advances now id actor none s s0 s' (ok x) loaded h =
      cc (ap (λ (r : Result OnboardingError (Unit {0}) × OnboardingStore). r.0) h)
  onboard_loaded-Advances now id actor (some input) s s0 s' (ok x) loaded h =
      let found =
        onboarding_found-found (find (onboarding_of id) s.onboarding) now id s s0 x refl loaded in
      onboard_checked-Advances now id x actor input s0 s' (check_onboarding id input x s0) found
        refl h

  -- An accepted change takes the partner's row to a permitted state: ACTIVE is entered only from ADMIN_APPROVAL, and
  -- ADMIN_APPROVAL only with a paid invoice if the partner is to pay, with a documented waiver if it is
  -- supported, and with neither if it is not classified.
  pub patch_onboarding-Advances :
      (now : ℕ) (id actor : Text) (body : Option OnboardingInput) (s s' : OnboardingStore)
      → patch_onboarding now id actor body s ≡ (ok tt, s')
      → Advances id (ensure_onboarding now id s).1 s'
  unfolding patch_onboarding
  patch_onboarding-Advances now id actor body s s' h =
      onboard_loaded-Advances now id actor body s (ensure_onboarding now id s).1 s'
        (ensure_onboarding now id s).0 refl h
