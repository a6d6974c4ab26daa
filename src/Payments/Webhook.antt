-- ===== src/Payments/Webhook.antt =====
-- services/cmd/payments/main.go, stripeWebhook and settleBilling. The JSON decoder, the hash of a body and the
-- answer of the billing service are parameters. The request is one step: it holds no transaction, but
-- nothing in between is modelled.
pub mod Replay
use himate_system.Base.{
  ℕ, ◌==◌, Bool, true, false, not, ◌&&◌, ◌||◌, Option, none, some, List, [], ◌∷◌, ◌++◌,
  if◌then◌else◌, find, update_where, ℤ, pos, Result, ok, err, Text, codes, is_empty, text_eq,
  Unicode, equal_fold, trim_space,
}
use himate_system.Payments.{
  Money, PaymentProfile, ready, Attempt, AttemptStatus, failed, succeeded, EventStatus, received,
  processed, WebhookEvent, Settlement, PaymentStore, PaymentError, method_not_allowed,
  provider_unconfigured, invalid_signature, bad_event, event_conflict, attempt_not_found,
  payment_id_mismatch, amount_mismatch, settlement_failed,
}
use himate_system.Payments.Requests.{of_partner, has_id}
use himate_system.Payments.Signature.{SignatureError, verify_stripe_signature}

pub record StripeEvent : Type 0 where
  pub id : Text
  pub event_type : Text
  pub object_id : Text
  pub amount_received : ℤ
  pub currency : Text
  pub customer : Text
  pub payment_method : Text
  -- The empty text if the metadata has none.
  pub attempt_id : Text
  pub last_error : Option (Text × List ℕ)

pub data Reply : Type 0 where
  duplicate ignored : Reply
  done : Text → AttemptStatus → Reply

abbrev pub is_processed : EventStatus → Bool
is_processed received = false
is_processed processed = true

abbrev pub has_event : Text → WebhookEvent → Bool
has_event id e = text_eq e.provider_event_id id

abbrev pub is_success : StripeEvent → Bool
is_success e = text_eq e.event_type (codes "payment_intent.succeeded")

abbrev pub is_failure : StripeEvent → Bool
is_failure e = text_eq e.event_type (codes "payment_intent.payment_failed")

abbrev pub outcome : StripeEvent → AttemptStatus
outcome e = if is_failure e then failed else succeeded

abbrev pub error_code : Option (Text × List ℕ) → Text
error_code none = []
error_code (some (code, message)) = code

abbrev pub error_message : Option (Text × List ℕ) → List ℕ
error_message none = []
error_message (some (code, message)) = message

abbrev pub failure : StripeEvent → Option (Text × List ℕ)
failure e = if is_failure e then e.last_error else none

abbrev pub mark_processed : WebhookEvent → WebhookEvent
mark_processed e = record e { status = processed }

abbrev pub saves_method : StripeEvent → Bool
saves_method e = not (is_failure e) && not (is_empty e.customer) && not (is_empty e.payment_method)

abbrev pub save_method : StripeEvent → PaymentProfile → PaymentProfile
save_method e p = record p {
  provider_customer_id = e.customer;
  payment_method_id = e.payment_method;
  status = ready;
}

module _ ⦃u : Unicode⦄ {m : Money} where
  abbrev pub wrong_payment : StripeEvent → Attempt m → Bool
  wrong_payment e x =
      not (is_empty e.object_id)
      && not (is_empty x.provider_payment_id)
      && not (text_eq e.object_id x.provider_payment_id)

  abbrev pub wrong_amount : StripeEvent → Attempt m → Bool
  wrong_amount e x =
      is_success e
      && (not (m.matches_cents e.amount_received x.amount)
          || not (equal_fold e.currency x.currency))

  abbrev pub payment_of : StripeEvent → Attempt m → Text
  payment_of e x =
      let id = trim_space e.object_id in if is_empty id then x.provider_payment_id else id

  abbrev pub settle_attempt : StripeEvent → Attempt m → Attempt m → Attempt m
  settle_attempt e x a = record a {
    provider_payment_id = payment_of e x;
    status = outcome e;
    failure_code = error_code (failure e);
    failure_message = error_message (failure e);
  }

  abbrev pub settlement_of : StripeEvent → Attempt m → Settlement m
  settlement_of e x = record {
    attempt = x;
    status = outcome e;
    provider_payment_id = payment_of e x;
    provider_event_id = e.id;
    failure_code = error_code (failure e);
    failure_message = error_message (failure e);
  }

  -- The writes before the call of the billing service, and that call.
  abbrev pub settled : StripeEvent → Attempt m → PaymentStore m → PaymentStore m
  settled e x s = record s {
    attempts = update_where (has_id x.id) (settle_attempt e x) s.attempts;
    profiles =
        if saves_method e
        then update_where (of_partner x.partner_id) (save_method e) s.profiles
        else s.profiles;
    settlements = s.settlements ++ (settlement_of e x ∷ []);
  }

  module _ (billing_accepts : Settlement m → Bool) where
    unfoldable pub apply_event :
        StripeEvent → Attempt m → PaymentStore m → Result PaymentError Reply × PaymentStore m
    apply_event e x s =
        if wrong_payment e x
        then (err payment_id_mismatch, s)
        else if wrong_amount e x
        then (err amount_mismatch, s)
        else if not (billing_accepts (settlement_of e x))
        then (err settlement_failed, settled e x s)
        else (
          ok (done x.id (outcome e)),
          record (settled e x s) {
            webhook_events = update_where (has_event e.id) mark_processed s.webhook_events;
          },
        )

    abbrev pub apply_found :
        Option (Attempt m)
        → StripeEvent
        → PaymentStore m
        → Result PaymentError Reply × PaymentStore m
    apply_found none e s = (err attempt_not_found, s)
    apply_found (some x) e s = apply_event e x s

    unfoldable pub process_event :
        StripeEvent → PaymentStore m → Result PaymentError Reply × PaymentStore m
    process_event e s =
        if not (is_success e) && not (is_failure e)
        then (ok ignored, s)
        else apply_found (find (has_id (trim_space e.attempt_id)) s.attempts) e s

    -- By the row that the event's identifier has.
    abbrev pub receive_event :
        Option WebhookEvent
        → Text
        → StripeEvent
        → PaymentStore m
        → Result PaymentError Reply × PaymentStore m
    receive_event none payload_sha256 e s =
        let row : WebhookEvent = record {
          provider_event_id = e.id;
          event_type = e.event_type;
          payload_sha256 = payload_sha256;
          status = received;
        } in
        process_event e (record s { webhook_events = s.webhook_events ++ (row ∷ []) })
    receive_event (some old) payload_sha256 e s =
        if not (text_eq old.payload_sha256 payload_sha256)
        then (err event_conflict, s)
        else if is_processed old.status
        then (ok duplicate, s)
        else process_event e s

    abbrev pub read_event :
        Option StripeEvent → Text → PaymentStore m → Result PaymentError Reply × PaymentStore m
    read_event none payload_sha256 s = (err bad_event, s)
    read_event (some e) payload_sha256 s =
        if is_empty (trim_space e.id)
        then (err bad_event, s)
        else receive_event (find (has_event e.id) s.webhook_events) payload_sha256 e s

    abbrev pub verified :
        Result SignatureError (Unit {0})
        → Option StripeEvent
        → Text
        → PaymentStore m
        → Result PaymentError Reply × PaymentStore m
    verified (err e) event payload_sha256 s = (err invalid_signature, s)
    verified (ok _) event payload_sha256 s = read_event event payload_sha256 s

    module _ (hmac : Text → Text → Text) (decode_hex : Text → Option Text) (format : ℤ → Text)
        (parse : Text → ℤ) (decode : Text → Option StripeEvent) (sha : Text → Text) where
      -- The tolerance is five minutes.
      unfoldable pub stripe_webhook :
          Bool
          → Bool
          → Text
          → Text
          → Text
          → ℤ
          → PaymentStore m
          → Result PaymentError Reply × PaymentStore m
      stripe_webhook false configured secret body header now s = (err method_not_allowed, s)
      stripe_webhook true false secret body header now s = (err provider_unconfigured, s)
      stripe_webhook true true secret body header now s =
          verified
            (verify_stripe_signature hmac decode_hex format parse body header secret now
              (pos 300_000_000_000))
            (decode body) (sha body) s
