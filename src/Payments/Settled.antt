-- ===== src/Payments/Settled.antt =====
-- Which settlements a webhook may send, and what a refused webhook leaves behind.
use mathlib.Core.Path.{subst, sym}
use himate_system.Base.{
  ◌≡◌, refl, Bool, true, false, not, ◌&&◌, Option, none, some, List, [], ◌∷◌, ◌++◌, inl, inr, ◌⊎◌,
  Bool-cases, arith, ℕ, codes, if◌then◌else◌, text_eq_iff, equal_fold, Pointwise, update_where,
  update_where-Pointwise, update_where-Pointwise_cases, All-every, find, ℤ, pos, Result, ok, err,
  Text, is_empty, text_eq, Unicode, trim_space,
}
use himate_system.Payments.{
  Money, Attempt, AttemptStatus, failed, succeeded, PaymentProfile, ready, WebhookEvent, Settlement,
  PaymentStore, PaymentError, settlement_failed,
}
use himate_system.Payments.Requests.{has_id, of_partner}
use himate_system.Payments.Signature.{SignatureError, verify_stripe_signature}
use himate_system.Payments.Webhook.{
  StripeEvent, Reply, outcome, failure, error_code, error_message, payment_of, settle_attempt,
  saves_method, save_method, mark_processed, is_processed, has_event, is_success, is_failure,
  wrong_payment, wrong_amount, settlement_of, settled, apply_event, apply_found, process_event,
  receive_event, read_event, verified, stripe_webhook,
}

-- What an event of the given type, cents and currency says of an attempt: that it succeeded, with its amount and its
-- currency, or that it failed.
pub data Reports {m : Money} (event_type : Text) (cents : ℤ) (currency : Text) (x : Attempt m)
    ⦃u : Unicode⦄ : AttemptStatus → Type 0 where
  reports_success :
      event_type ≡ codes "payment_intent.succeeded"
      → m.matches_cents cents x.amount ≡ true
      → equal_fold currency x.currency ≡ true
      → Reports event_type cents currency x succeeded
  reports_failure :
      event_type ≡ codes "payment_intent.payment_failed"
      → Reports event_type cents currency x failed

-- A row of the attempts, when the attempt `id` is settled: another row stays, and that one has the payment and the
-- status.
pub data AttemptChange {m : Money} (id payment : Text) (status : AttemptStatus) (code : Text)
    (message : List ℕ) (r s : Attempt m) : Type 0 where
  another : text_eq r.id id ≡ false → s ≡ r → AttemptChange id payment status code message r s
  written :
      r.id ≡ id
      → s ≡ record r {
        provider_payment_id = payment;
        status = status;
        failure_code = code;
        failure_message = message;
      }
      → AttemptChange id payment status code message r s

-- A row of the profiles: it stays, or it is the partner's and has saved the customer and the method of a payment
-- that succeeded.
pub data ProfileChange (partner_id customer method : Text) (status : AttemptStatus)
    (r s : PaymentProfile) : Type 0 where
  kept : s ≡ r → ProfileChange partner_id customer method status r s
  saved :
      r.partner_id ≡ partner_id
      → status ≡ succeeded
      → s ≡ record r { provider_customer_id = customer; payment_method_id = method; status = ready }
      → ProfileChange partner_id customer method status r s

-- The change of the store: nothing that concerns money, or one settlement of the attempt that the event names, which is
-- there and has no other payment, with the writes that go with it.
pub data MoneyStep ⦃u : Unicode⦄ (m : Money) (event : Option StripeEvent) (s s' : PaymentStore m)
    : Type 0 where
  untouched :
      s'.attempts ≡ s.attempts
      → s'.profiles ≡ s.profiles
      → s'.settlements ≡ s.settlements
      → MoneyStep m event s s'
  settles :
      (e : StripeEvent) (x : Attempt m) (payment : Text) (status : AttemptStatus) (code : Text)
      (message : List ℕ)
      → event ≡ some e
      → find (λ (a : Attempt m). text_eq a.id (trim_space e.attempt_id)) s.attempts ≡ some x
      → Reports e.event_type e.amount_received e.currency x status
      → (is_empty e.object_id ≡ true)
        ⊎ (is_empty x.provider_payment_id ≡ true)
        ⊎ (e.object_id ≡ x.provider_payment_id)
      → payment ≡ (
          if is_empty (trim_space e.object_id)
          then x.provider_payment_id
          else trim_space e.object_id)
      → Pointwise (AttemptChange x.id payment status code message) s.attempts s'.attempts
      → Pointwise
          (ProfileChange x.partner_id e.customer e.payment_method status)
          s.profiles
          s'.profiles
      → s'.settlements
        ≡ s.settlements
          ++ (record {
            attempt = x;
            status = status;
            provider_payment_id = payment;
            provider_event_id = e.id;
            failure_code = code;
            failure_message = message;
          }
              ∷ [])
      → MoneyStep m event s s'

abbrev Answer : Money → Type 0
Answer m = Result PaymentError Reply × PaymentStore m

-- Only an event that cannot be settled with billing is refused after a change.
abbrev Blameless : (m : Money) → PaymentStore m → Answer m → Type 0
Blameless m s (ok r, s') = Unit
Blameless m s (err e, s') =
    (e ≡ settlement_failed)
    ⊎ ((s'.attempts ≡ s.attempts) × (s'.profiles ≡ s.profiles) × (s'.settlements ≡ s.settlements))

module _ ⦃u : Unicode⦄ {m : Money} (billing_accepts : Settlement m → Bool) where
  -- The store of a settlement that billing took.
  abbrev processed_store : StripeEvent → Attempt m → PaymentStore m → PaymentStore m
  processed_store e x s = record (settled e x s) {
    webhook_events = update_where (has_event e.id) mark_processed s.webhook_events;
  }

  -- Both facts of an answer, for the walk through the handler.
  abbrev Safe : StripeEvent → PaymentStore m → Answer m → Type 0
  Safe e s a = MoneyStep m (some e) s a.1 × Blameless m s a

  event-Reports :
      (e : StripeEvent) (x : Attempt m)
      → (not (is_success e) && not (is_failure e)) ≡ false
      → wrong_amount e x ≡ false
      → Reports e.event_type e.amount_received e.currency x (outcome e)
  event-Reports e x known right = elim (Bool-cases (is_failure e)) [
    | inl lost ↦ rw lost (
        reports_failure ((text_eq_iff e.event_type (codes "payment_intent.payment_failed")).0 lost))
    | inr other ↦ rw other (
        reports_success
          ((text_eq_iff e.event_type (codes "payment_intent.succeeded")).0 (ground arith))
          (ground arith) (ground arith))
  ]

  right_payment :
      (e : StripeEvent) (x : Attempt m)
      → wrong_payment e x ≡ false
      → (is_empty e.object_id ≡ true)
        ⊎ (is_empty x.provider_payment_id ≡ true)
        ⊎ (e.object_id ≡ x.provider_payment_id)
  right_payment e x h = ground (arith, text_eq_iff e.object_id x.provider_payment_id)

  attempts-AttemptChange :
      (e : StripeEvent) (x : Attempt m) (xs : List (Attempt m))
      → Pointwise
          (AttemptChange x.id
            (payment_of e x)
            (outcome e)
            (error_code (failure e))
            (error_message (failure e)))
          xs
          (update_where (has_id x.id) (settle_attempt e x) xs)
  attempts-AttemptChange e x xs =
      update_where-Pointwise_cases
        (AttemptChange x.id (payment_of e x) (outcome e) (error_code (failure e))
          (error_message (failure e)))
        (has_id x.id) (settle_attempt e x) xs
        (All-every _ xs (λ r hit. written ((text_eq_iff r.id x.id).0 hit) refl))
        (λ r miss. another miss refl)

  all_kept :
      (partner_id customer method : Text) (status : AttemptStatus) (ps : List PaymentProfile)
      → Pointwise (ProfileChange partner_id customer method status) ps ps
  all_kept partner_id customer method status [] = tt
  all_kept partner_id customer method status (p ∷ ps) =
      (kept refl, all_kept partner_id customer method status ps)

  profiles-ProfileChange :
      (e : StripeEvent) (x : Attempt m) (s : PaymentStore m)
      → Pointwise
          (ProfileChange x.partner_id e.customer e.payment_method (outcome e))
          s.profiles
          (settled e x s).profiles
  profiles-ProfileChange e x s = elim (Bool-cases (saves_method e)) [
    | inr none_saved ↦
        rw none_saved (all_kept x.partner_id e.customer e.payment_method (outcome e) s.profiles)
    | inl saving ↦
        let won : outcome e ≡ succeeded = ground arith in
        rw saving (
          update_where-Pointwise
            (ProfileChange x.partner_id e.customer e.payment_method (outcome e))
            (of_partner x.partner_id) (save_method e) s.profiles (λ r. kept refl)
            (All-every _ s.profiles
              (λ r hit. saved ((text_eq_iff r.partner_id x.partner_id).0 hit) won refl)))
  ]

  settled-MoneyStep :
      (e : StripeEvent) (x : Attempt m) (s s' : PaymentStore m)
      → find (has_id (trim_space e.attempt_id)) s.attempts ≡ some x
      → (not (is_success e) && not (is_failure e)) ≡ false
      → wrong_payment e x ≡ false
      → wrong_amount e x ≡ false
      → (settled e x s).attempts ≡ s'.attempts
      → (settled e x s).profiles ≡ s'.profiles
      → (settled e x s).settlements ≡ s'.settlements
      → MoneyStep m (some e) s s'
  settled-MoneyStep e x s s' f known right equal a b c =
      settles e x (payment_of e x) (outcome e) (error_code (failure e)) (error_message (failure e))
        refl f (event-Reports e x known equal) (right_payment e x right) refl
        (rw (← a) (attempts-AttemptChange e x s.attempts))
        (subst
          (Pointwise (ProfileChange x.partner_id e.customer e.payment_method (outcome e))
            s.profiles)
          b (profiles-ProfileChange e x s))
        (sym c)

  apply_event-Safe :
      (e : StripeEvent) (x : Attempt m) (s : PaymentStore m)
      → (not (is_success e) && not (is_failure e)) ≡ false
      → find (has_id (trim_space e.attempt_id)) s.attempts ≡ some x
      → Safe e s (apply_event billing_accepts e x s)
  unfolding apply_event
  apply_event-Safe e x s known f = elim (Bool-cases (wrong_payment e x)) [
    | inl wrong ↦ rw wrong (untouched refl refl refl, inr (refl, refl, refl))
    | inr right ↦ elim (Bool-cases (wrong_amount e x)) [
      | inl wrong ↦ rw (right, wrong) (untouched refl refl refl, inr (refl, refl, refl))
      | inr equal ↦
          let step = settled-MoneyStep e x s (settled e x s) f known right equal refl refl refl in
          elim (Bool-cases (billing_accepts (settlement_of e x))) [
            | inr refused ↦ rw (right, equal, refused) (step, inl refl)
            | inl accepted ↦
                rw (right, equal, accepted)
                  (
                    settled-MoneyStep e x s (processed_store e x s) f known right equal refl refl
                        refl,
                    tt,
                  )
          ]
    ]
  ]

  apply_found-Safe :
      (o : Option (Attempt m)) (e : StripeEvent) (s : PaymentStore m)
      → (not (is_success e) && not (is_failure e)) ≡ false
      → find (has_id (trim_space e.attempt_id)) s.attempts ≡ o
      → Safe e s (apply_found billing_accepts o e s)
  apply_found-Safe none e s known f = (untouched refl refl refl, inr (refl, refl, refl))
  apply_found-Safe (some x) e s known f = apply_event-Safe e x s known f

  process_event-Safe :
      (e : StripeEvent) (s : PaymentStore m) → Safe e s (process_event billing_accepts e s)
  unfolding process_event
  process_event-Safe e s = elim (Bool-cases (not (is_success e) && not (is_failure e))) [
    | inl other ↦ rw other (untouched refl refl refl, tt)
    | inr known ↦
        rw known
          (apply_found-Safe (find (has_id (trim_space e.attempt_id)) s.attempts) e s known refl)
  ]

  -- Recording the event first changes none of the three tables.
  Safe-recorded :
      (e : StripeEvent) (s : PaymentStore m) (events : List WebhookEvent) (a : Answer m)
      → Safe e (record s { webhook_events = events }) a
      → Safe e s a
  Safe-recorded e s events (ok r, s') (untouched a b c, ok_part) = (untouched a b c, tt)
  Safe-recorded e s events (ok r, s') (settles e' x p st c d f g h i j a b k, ok_part) =
      (settles e' x p st c d f g h i j a b k, tt)
  Safe-recorded e s events (err r, s') (untouched a b c, blame) = (untouched a b c, blame)
  Safe-recorded e s events (err r, s') (settles e' x p st c d f g h i j a b k, blame) =
      (settles e' x p st c d f g h i j a b k, blame)

  receive_event-Safe :
      (o : Option WebhookEvent) (payload_sha256 : Text) (e : StripeEvent) (s : PaymentStore m)
      → Safe e s (receive_event billing_accepts o payload_sha256 e s)
  receive_event-Safe none payload_sha256 e s = Safe-recorded e s _ _ (process_event-Safe e _)
  receive_event-Safe (some old) payload_sha256 e s =
      elim (Bool-cases (text_eq old.payload_sha256 payload_sha256)) [
        | inr other ↦ rw other (untouched refl refl refl, inr (refl, refl, refl))
        | inl same ↦ elim (Bool-cases (is_processed old.status)) [
          | inl before ↦ rw (same, before) (untouched refl refl refl, tt)
          | inr open_event ↦ rw (same, open_event) (process_event-Safe e s)
        ]
      ]

  read_event-Safe :
      (event : Option StripeEvent) (payload_sha256 : Text) (s : PaymentStore m)
      → let a = read_event billing_accepts event payload_sha256 s in
        MoneyStep m event s a.1 × Blameless m s a
  read_event-Safe none payload_sha256 s = (untouched refl refl refl, inr (refl, refl, refl))
  read_event-Safe (some e) payload_sha256 s = elim (Bool-cases (is_empty (trim_space e.id))) [
    | inl blank ↦ rw blank (untouched refl refl refl, inr (refl, refl, refl))
    | inr named ↦
        rw named (receive_event-Safe (find (has_event e.id) s.webhook_events) payload_sha256 e s)
  ]

  module _ (hmac : Text → Text → Text) (decode_hex : Text → Option Text) (format : ℤ → Text)
      (parse : Text → ℤ) (decode : Text → Option StripeEvent) (sha : Text → Text) where
    abbrev signature_test : Text → Text → Text → ℤ → Result SignatureError (Unit {0})
    signature_test secret body header now =
        verify_stripe_signature hmac decode_hex format parse body header secret now
          (pos 300_000_000_000)

    verified-Safe :
        (v : Result SignatureError (Unit {0})) (event : Option StripeEvent) (payload_sha256 : Text)
        (s : PaymentStore m)
        → let a = verified billing_accepts v event payload_sha256 s in
          (((v ≡ ok tt) × MoneyStep m event s a.1) ⊎ (a.1 ≡ s)) × Blameless m s a
    verified-Safe (err e) event payload_sha256 s = (inr refl, inr (refl, refl, refl))
    verified-Safe (ok tt) event payload_sha256 s =
        let (step, blame) = read_event-Safe event payload_sha256 s in (inl (refl, step), blame)

    -- Whatever is posted: the store stays as it is, or the signature is valid and the event does nothing to
    -- attempts, profiles and settlements, or it settles the one attempt that it names: the event reports a
    -- failure, or a success with the amount and the currency of the attempt, and no other payment than the
    -- attempt's; that attempt alone gets the payment and the status, only its partner's profile may change, and one
    -- settlement of it is sent.
    pub stripe_webhook-MoneyStep :
        (secret body header : Text) (now : ℤ) (s : PaymentStore m)
        → let s' =
            (stripe_webhook billing_accepts hmac decode_hex format parse decode sha true true secret
              body header now s).1 in
          ((signature_test secret body header now ≡ ok tt) × MoneyStep m (decode body) s s')
          ⊎ (s' ≡ s)
    unfolding stripe_webhook
    stripe_webhook-MoneyStep secret body header now s =
        (verified-Safe (signature_test secret body header now) (decode body) (sha body) s).0

    -- A refused webhook has changed no attempt and no profile and has sent no settlement, unless it was refused
    -- because billing did not take its settlement.
    pub stripe_webhook-Blameless :
        (secret body header : Text) (now : ℤ) (s s' : PaymentStore m) (e : PaymentError)
        → stripe_webhook billing_accepts hmac decode_hex format parse decode sha true true secret
            body header now s
          ≡ (err e, s')
        → (e ≡ settlement_failed)
          ⊎ ((s'.attempts ≡ s.attempts)
              × (s'.profiles ≡ s.profiles)
              × (s'.settlements ≡ s.settlements))
    unfolding stripe_webhook
    stripe_webhook-Blameless secret body header now s s' e h =
        subst (λ a. Blameless m s a) h
          (verified-Safe (signature_test secret body header now) (decode body) (sha body) s).1
