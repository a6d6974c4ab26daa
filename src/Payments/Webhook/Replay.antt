-- ===== src/Payments/Webhook/Replay.antt =====
-- A webhook that is sent again.
use himate_system.Base.{
  ◌≡◌, refl, ap, Bool, true, not, ◌&&◌, Option, none, some, [], ◌∷◌, ◌++◌, inl, inr, Bool-cases,
  find, find-concat_self, find-update_where, update_where, ℤ, pos, Result, ok, err, Text, is_empty,
  text_eq, text_eq_refl, Unicode, trim_space,
}
use himate_system.Payments.{
  Money, Attempt, AttemptStatus, received, WebhookEvent, Settlement, PaymentStore, PaymentError,
}
use himate_system.Payments.Requests.{has_id}
use himate_system.Payments.Signature.{SignatureError, verify_stripe_signature}
use himate_system.Payments.Webhook.{
  StripeEvent, Reply, duplicate, done, is_processed, has_event, is_success, is_failure,
  mark_processed, wrong_payment, wrong_amount, settlement_of, apply_event, apply_found,
  process_event, receive_event, read_event, verified, stripe_webhook,
}

-- The event's row is there with this hash of the payload.
abbrev Held : (m : Money) → Text → Text → PaymentStore m → Type 0
Held m id payload_sha256 s =
    (old : WebhookEvent) × (find (has_event id) s.webhook_events ≡ some old)
    × (text_eq old.payload_sha256 payload_sha256 ≡ true)

-- And it has been processed.
abbrev Finished : (m : Money) → Text → Text → PaymentStore m → Type 0
Finished m id payload_sha256 s =
    (old : WebhookEvent) × (find (has_event id) s.webhook_events ≡ some old)
    × (text_eq old.payload_sha256 payload_sha256 ≡ true)
    × (is_processed old.status ≡ true)

module _ ⦃u : Unicode⦄ {m : Money} (billing_accepts : Settlement m → Bool) where
  apply_event-Finished :
      (e : StripeEvent) (x : Attempt m) (s s' : PaymentStore m) (payload_sha256 id : Text)
      (st : AttemptStatus)
      → Held m e.id payload_sha256 s
      → apply_event billing_accepts e x s ≡ (ok (done id st), s')
      → Finished m e.id payload_sha256 s'
  unfolding apply_event
  apply_event-Finished e x s s' payload_sha256 id st (old, found, same) h =
      elim (Bool-cases (wrong_payment e x)) [
        | inl wrong ↦ cc (rw wrong at h)
        | inr right ↦ elim (Bool-cases (wrong_amount e x)) [
          | inl wrong ↦ cc (rw (right, wrong) at h)
          | inr paid ↦ elim (Bool-cases (billing_accepts (settlement_of e x))) [
            | inr refused ↦ cc (rw (right, paid, refused) at h)
            | inl accepted ↦
                let h' = (rw (right, paid, accepted) at h) in
                let table : update_where (has_event e.id) mark_processed s.webhook_events
                    ≡ s'.webhook_events =
                  ap (λ (r : Result PaymentError Reply × PaymentStore m). r.1.webhook_events) h' in
                (
                  mark_processed old,
                  rw (← table) (
                      find-update_where (has_event e.id) mark_processed s.webhook_events old
                        (λ _. refl) found),
                  same,
                  refl,
                )
          ]
        ]
      ]

  apply_found-Finished :
      (o : Option (Attempt m)) (e : StripeEvent) (s s' : PaymentStore m) (payload_sha256 id : Text)
      (st : AttemptStatus)
      → Held m e.id payload_sha256 s
      → apply_found billing_accepts o e s ≡ (ok (done id st), s')
      → Finished m e.id payload_sha256 s'
  apply_found-Finished none e s s' payload_sha256 id st held h =
      cc (ap (λ (r : Result PaymentError Reply × PaymentStore m). r.0) h)
  apply_found-Finished (some x) e s s' payload_sha256 id st held h =
      apply_event-Finished e x s s' payload_sha256 id st held h

  process_event-Finished :
      (e : StripeEvent) (s s' : PaymentStore m) (payload_sha256 id : Text) (st : AttemptStatus)
      → Held m e.id payload_sha256 s
      → process_event billing_accepts e s ≡ (ok (done id st), s')
      → Finished m e.id payload_sha256 s'
  unfolding process_event
  process_event-Finished e s s' payload_sha256 id st held h =
      elim (Bool-cases (not (is_success e) && not (is_failure e))) [
        | inl other ↦
            cc (ap (λ (r : Result PaymentError Reply × PaymentStore m). r.0) (rw other at h))
        | inr known ↦
            apply_found-Finished (find (has_id (trim_space e.attempt_id)) s.attempts) e s s'
              payload_sha256 id st held (rw known at h)
      ]

  receive_event-Finished :
      (o : Option WebhookEvent) (e : StripeEvent) (s s' : PaymentStore m) (payload_sha256 id : Text)
      (st : AttemptStatus)
      → find (has_event e.id) s.webhook_events ≡ o
      → receive_event billing_accepts o payload_sha256 e s ≡ (ok (done id st), s')
      → Finished m e.id payload_sha256 s'
  receive_event-Finished none e s s' payload_sha256 id st f h =
      let row : WebhookEvent = record {
        provider_event_id = e.id;
        event_type = e.event_type;
        payload_sha256 = payload_sha256;
        status = received;
      } in
      let mine : has_event e.id row ≡ true = text_eq_refl e.id in
      process_event-Finished e (record s { webhook_events = s.webhook_events ++ (row ∷ []) }) s'
        payload_sha256 id st
        (
          row,
          find-concat_self (has_event e.id) s.webhook_events row f mine,
          text_eq_refl payload_sha256,
        )
        h
  receive_event-Finished (some old) e s s' payload_sha256 id st f h =
      elim (Bool-cases (text_eq old.payload_sha256 payload_sha256)) [
        | inr other ↦
            cc (ap (λ (r : Result PaymentError Reply × PaymentStore m). r.0) (rw other at h))
        | inl same ↦ elim (Bool-cases (is_processed old.status)) [
          | inl before ↦ cc (
              ap (λ (r : Result PaymentError Reply × PaymentStore m). r.0) (rw (same, before) at h))
          | inr open_event ↦
              process_event-Finished e s s' payload_sha256 id st (old, f, same)
                (rw (same, open_event) at h)
        ]
      ]

  receive_event_again :
      (o : Option WebhookEvent) (e : StripeEvent) (s : PaymentStore m) (payload_sha256 : Text)
      (old : WebhookEvent)
      → o ≡ some old
      → text_eq old.payload_sha256 payload_sha256 ≡ true
      → is_processed old.status ≡ true
      → receive_event billing_accepts o payload_sha256 e s ≡ (ok duplicate, s)
  receive_event_again o e s payload_sha256 old f same before = rw (f, same, before) refl

  read_event_twice :
      (event : Option StripeEvent) (s s' : PaymentStore m) (payload_sha256 id : Text)
      (st : AttemptStatus)
      → read_event billing_accepts event payload_sha256 s ≡ (ok (done id st), s')
      → read_event billing_accepts event payload_sha256 s' ≡ (ok duplicate, s')
  read_event_twice none s s' payload_sha256 id st h =
      cc (ap (λ (r : Result PaymentError Reply × PaymentStore m). r.0) h)
  read_event_twice (some e) s s' payload_sha256 id st h =
      elim (Bool-cases (is_empty (trim_space e.id))) [
        | inl blank ↦
            cc (ap (λ (r : Result PaymentError Reply × PaymentStore m). r.0) (rw blank at h))
        | inr named ↦
            let (old, found, same, before) =
              receive_event-Finished (find (has_event e.id) s.webhook_events) e s s' payload_sha256
                id st refl (rw named at h) in
            rw named (
              receive_event_again (find (has_event e.id) s'.webhook_events) e s' payload_sha256 old
                found same before)
      ]

  module _ (hmac : Text → Text → Text) (decode_hex : Text → Option Text) (format : ℤ → Text)
      (parse : Text → ℤ) (decode : Text → Option StripeEvent) (sha : Text → Text) where
    verified-eq-done :
        (v : Result SignatureError (Unit {0})) (event : Option StripeEvent) (payload_sha256 : Text)
        (s s' : PaymentStore m) (r : Reply)
        → verified billing_accepts v event payload_sha256 s ≡ (ok r, s')
        → read_event billing_accepts event payload_sha256 s ≡ (ok r, s')
    verified-eq-done (err e) event payload_sha256 s s' r h =
        cc (ap (λ (r : Result PaymentError Reply × PaymentStore m). r.0) h)
    verified-eq-done (ok _) event payload_sha256 s s' r h = h

    -- A payment event that was settled once is not settled again: the same body with any later valid
    -- signature is answered as a duplicate and changes nothing.
    pub stripe_webhook_twice :
        (secret body header header' : Text) (now later : ℤ) (s s' : PaymentStore m) (id : Text)
        (st : AttemptStatus)
        → stripe_webhook billing_accepts hmac decode_hex format parse decode sha true true secret
            body header now s
          ≡ (ok (done id st), s')
        → verify_stripe_signature hmac decode_hex format parse body header' secret later
            (pos 300_000_000_000)
          ≡ ok tt
        → stripe_webhook billing_accepts hmac decode_hex format parse decode sha true true secret
            body header' later s'
          ≡ (ok duplicate, s')
    unfolding stripe_webhook
    stripe_webhook_twice secret body header header' now later s s' id st h valid = rw valid (
        read_event_twice (decode body) s s' (sha body) id st (
          verified-eq-done
            (verify_stripe_signature hmac decode_hex format parse body header secret now
              (pos 300_000_000_000))
            (decode body) (sha body) s s' (done id st) h))
