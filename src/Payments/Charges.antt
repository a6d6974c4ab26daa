-- ===== src/Payments/Charges.antt =====
-- A key of a charge belongs to one attempt.
use mathlib.Core.Path.{subst}
use himate_system.Base.{
  ℕ, ◌≤◌, ◌≡◌, refl, ◌==◌, Bool, true, false, not, ◌&&◌, Option, none, some, List, [], ◌∷◌, ◌++◌,
  arith, inl, inr, Bool-cases, find, find-none-count, count, count-append, count-update_where,
  Result, ok, err, Text, text_eq, text_eq_iff, Unicode,
}
use himate_system.Payments.{
  Money, PaymentProfile, Attempt, PaymentStore, PaymentError, ChargeRequest, Charge,
}
use himate_system.Payments.Requests.{
  is_ready, is_retryable, is_invoice, of_partner, has_id, has_key, profile_found, ensure_profile,
  new_attempt, begin_attempt, begun, prepare_charge, finish_charge, charged, charge_known,
  charge_valid, validate_charge, create_charge, provider_charge, retry_later, answered, attempt_id,
}

-- One attempt at most has the key.
abbrev pub KeyOnce : {m : Money} → Text → PaymentStore m → Type 0
KeyOnce key s = count (has_key key) s.attempts ≤ 1

module _ ⦃u : Unicode⦄ {m : Money} where
  profile_found-attempts :
      (o : Option PaymentProfile) (provider partner_id : Text) (s : PaymentStore m)
      → (profile_found o provider partner_id s).1.attempts ≡ s.attempts
  profile_found-attempts none provider partner_id s = refl
  profile_found-attempts (some p) provider partner_id s = refl

  ensure_profile-attempts :
      (provider partner_id : Text) (s : PaymentStore m)
      → (ensure_profile provider partner_id s).1.attempts ≡ s.attempts
  unfolding ensure_profile
  ensure_profile-attempts provider partner_id s =
      profile_found-attempts (find (of_partner partner_id) s.profiles) provider partner_id s

  count-new_attempt :
      (key provider id : Text) (c : Charge m) (xs : List (Attempt m))
      → find (has_key c.idempotency_key) xs ≡ none
      → count (has_key key) xs ≤ 1
      → count (has_key key) (xs ++ (new_attempt provider id c ∷ [])) ≤ 1
  count-new_attempt key provider id c xs f h = elim (Bool-cases (text_eq c.idempotency_key key)) [
    | inl same ↦
        let fresh : count (has_key key) xs ≡ 0 =
          subst (λ k. count (has_key k) xs ≡ 0) ((text_eq_iff c.idempotency_key key).0 same)
            (find-none-count (has_key c.idempotency_key) xs f) in
        ground (arith, count-append (has_key key) xs (new_attempt provider id c ∷ []), fresh)
    | inr other ↦ ground (arith, count-append (has_key key) xs (new_attempt provider id c ∷ []))
  ]

  begun-KeyOnce :
      (key : Text) (o : Option (Attempt m)) (provider id : Text) (c : Charge m) (p : PaymentProfile)
      (s : PaymentStore m)
      → find (has_key c.idempotency_key) s.attempts ≡ o
      → KeyOnce key s
      → KeyOnce key (begun p s (begin_attempt o provider id c s)).1
  begun-KeyOnce key (some x) provider id c p s f h = h
  begun-KeyOnce key none provider id c p s f h =
      elim (Bool-cases (count (has_id id) s.attempts == 0)) [
        | inl free ↦ rw free (count-new_attempt key provider id c s.attempts f h)
        | inr taken ↦ rw taken h
      ]

  prepare_charge-KeyOnce :
      (key : Text) (o : Option (Attempt m)) (provider id : Text) (c : Charge m) (s : PaymentStore m)
      → find (has_key c.idempotency_key) s.attempts ≡ o
      → KeyOnce key s
      → KeyOnce key (prepare_charge o provider id c s).1
  prepare_charge-KeyOnce key o provider id c s f h =
      let (p, s1) = ensure_profile provider c.partner_id s in
      let same = ensure_profile-attempts provider c.partner_id s in
      let h1 : KeyOnce key s1 = rw same h in
      elim (Bool-cases (is_ready p.status)) [
        | inr unready ↦ rw unready h1
        | inl is_set ↦ elim (Bool-cases (is_invoice c.purpose && not p.autopay_enabled)) [
          | inl manual ↦ rw (is_set, manual) h1
          | inr automatic ↦
              rw (is_set, automatic) (begun-KeyOnce key o provider id c p s1 (rw same f) h1)
        ]
      ]

  finish_charge-KeyOnce :
      (key id : Text) (r : Result (List ℕ) (Text × Text)) (s : PaymentStore m)
      → KeyOnce key s
      → KeyOnce key (finish_charge id r s).1
  unfolding finish_charge
  finish_charge-KeyOnce key id (err message) s h =
      rw (count-update_where (has_key key) (has_id id) (retry_later message) s.attempts (λ _. refl))
        h
  finish_charge-KeyOnce key id (ok (provider_id, provider_status)) s h =
      rw
        (count-update_where (has_key key) (has_id id) (answered provider_id provider_status)
          s.attempts (λ _. refl))
        h

module _ ⦃u : Unicode⦄ {m : Money} (provider : Text) (sha10 : Text → Text)
    (ask : Text → Charge m → PaymentProfile → Result (List ℕ) (Text × Text)) where
  charged-KeyOnce :
      (key : Text) (c : Charge m) (a : Result PaymentError (Text × PaymentProfile) × PaymentStore m)
      → KeyOnce key a.1
      → KeyOnce key (charged provider sha10 ask c a).1
  charged-KeyOnce key c (err e, s) h = h
  charged-KeyOnce key c (ok (id, p), s) h =
      finish_charge-KeyOnce key id (provider_charge provider sha10 ask id c p) s h

  charge_known-KeyOnce :
      (key : Text) (o : Option (Attempt m)) (c : Charge m) (s : PaymentStore m)
      → find (has_key c.idempotency_key) s.attempts ≡ o
      → KeyOnce key s
      → KeyOnce key (charge_known provider sha10 ask o c s).1
  charge_known-KeyOnce key none c s f h =
      charged-KeyOnce key c (prepare_charge none provider (attempt_id sha10 c.idempotency_key) c s)
        (prepare_charge-KeyOnce key none provider (attempt_id sha10 c.idempotency_key) c s f h)
  charge_known-KeyOnce key (some x) c s f h = elim (Bool-cases (is_retryable x.status)) [
    | inr settled ↦ rw settled h
    | inl again ↦ rw again (
        charged-KeyOnce key c
          (prepare_charge (some x) provider (attempt_id sha10 c.idempotency_key) c s)
          (prepare_charge-KeyOnce key (some x) provider (attempt_id sha10 c.idempotency_key) c s f
            h))
  ]

  charge_valid-KeyOnce :
      (key : Text) (r : Result PaymentError (Charge m)) (s : PaymentStore m)
      → KeyOnce key s
      → KeyOnce key (charge_valid provider sha10 ask r s).1
  charge_valid-KeyOnce key (err e) s h = h
  charge_valid-KeyOnce key (ok c) s h =
      charge_known-KeyOnce key (find (has_key c.idempotency_key) s.attempts) c s refl h

  -- No request for a charge, accepted, refused or retried, gives an idempotency key a second attempt.
  pub create_charge-KeyOnce :
      (key : Text) (post configured : Bool) (body : Option (ChargeRequest m)) (s : PaymentStore m)
      → KeyOnce key s
      → KeyOnce key (create_charge provider sha10 ask post configured body s).1
  unfolding create_charge
  create_charge-KeyOnce key false configured body s h = h
  create_charge-KeyOnce key true false body s h = h
  create_charge-KeyOnce key true true none s h = h
  create_charge-KeyOnce key true true (some r) s h =
      charge_valid-KeyOnce key (validate_charge r) s h
