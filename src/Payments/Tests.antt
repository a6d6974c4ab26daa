-- ===== src/Payments/Tests.antt =====
-- Runs of the payment service on concrete input, with amounts in cents and toy encodings.
use himate_system.Base.{
  ℕ, ◌≡◌, refl, ◌⊎◌, ◌==◌, true, false, ◌&&◌, Option, none, some, List, [], ◌∷◌, ◌++◌, arith,
  if◌then◌else◌, ℤ, pos, negsuc, leb_ℤ, ltb_ℤ, ◌-ℤ◌, ◌*ℤ◌, Result, ok, err, Text, codes, is_empty,
  trim_space, ltb,
}
use himate_system.Base.Strings.Ascii.{ascii, evaluate_texts}
use himate_system.Payments.{
  Money, PaymentProfile, ready, Attempt, processing, failed, succeeded, PaymentStore, PaymentError,
  amount_mismatch, ChargeRequest, Charge, activation_license, settlement_failed,
}
use himate_system.Payments.Requests.{
  ensure_profile, validate_charge, status_of, attempt_id, finish_charge, provider_charge,
  create_charge,
}
use himate_system.Payments.Signature.{
  Fields, split, key_value, read_fields, any_matches, nanoseconds, signed_text,
  verify_stripe_signature,
}
use himate_system.Payments.Signature.Sound.{Among, verify_stripe_signature-Signed}
use himate_system.Payments.Webhook.{
  StripeEvent, Reply, duplicate, done, apply_event, process_event, stripe_webhook,
}
use himate_system.Payments.Webhook.Replay.{stripe_webhook_twice}
use himate_system.Payments.Charges.{KeyOnce, create_charge-KeyOnce}
use himate_system.Payments.Settled.{MoneyStep, stripe_webhook-MoneyStep, stripe_webhook-Blameless}

abbrev cents : Money
cents = record {
  Amount = ℕ;
  is_positive = ltb 0;
  round_cents = λ a. a;
  matches_cents =
      λ received a. leb_ℤ (pos 1) received && leb_ℤ received (pos a) && leb_ℤ (pos a) received;
}

unfoldable evaluate_payments : Unit {0}
unfolding evaluate_texts ensure_profile validate_charge status_of attempt_id finish_charge
    provider_charge create_charge split key_value read_fields any_matches verify_stripe_signature
    apply_event process_event stripe_webhook ◌-ℤ◌ ◌*ℤ◌
evaluate_payments = tt

abbrev profile : PaymentProfile
profile = record {
  partner_id = codes "p1";
  provider = codes "stripe";
  provider_customer_id = codes "cus";
  payment_method_id = codes "pm";
  autopay_enabled = false;
  status = ready;
}

abbrev start : PaymentStore cents
start = record { profiles = profile ∷ []; attempts = []; webhook_events = []; settlements = [] }

abbrev license : ChargeRequest cents
license = record {
  partner_id = codes "p1";
  invoice_id = [];
  purpose = codes "activation_license";
  amount = 500;
  currency = codes "usd";
  idempotency_key = codes "k";
}

abbrev sha10 : Text → Text
sha10 key = key

abbrev ask : Text → Charge cents → PaymentProfile → Result (List ℕ) (Text × Text)
ask id c p = ok (codes "pi_1", codes "processing")

abbrev waiting : Attempt cents
waiting = record {
  id = codes "pay_k";
  partner_id = codes "p1";
  invoice_id = [];
  purpose = activation_license;
  amount = 500;
  currency = codes "USD";
  provider = codes "stripe";
  provider_payment_id = codes "pi_1";
  status = processing;
  failure_code = [];
  failure_message = [];
  idempotency_key = codes "k";
}

abbrev charged_store : PaymentStore cents
charged_store = record start { attempts = waiting ∷ [] }

charge_run :
    create_charge (codes "stripe") sha10 ask true true (some license) start
    ≡ (ok waiting, charged_store)
unfolding evaluate_payments
charge_run = refl

charge_again :
    create_charge (codes "stripe") sha10 ask true true (some license) charged_store
    ≡ (ok waiting, charged_store)
unfolding evaluate_payments
charge_again = refl

create_charge-KeyOnce_example :
    KeyOnce (codes "k") (create_charge (codes "stripe") sha10 ask true true (some license) start).1
create_charge-KeyOnce_example =
    create_charge-KeyOnce (codes "stripe") sha10 ask (codes "k") true true (some license) start
      (omega arith)

abbrev hmac : Text → Text → Text
hmac secret s = secret ++ s

abbrev decode_hex : Text → Option Text
decode_hex s = some s

abbrev format : ℤ → Text
format (pos n) = n ∷ []
format (negsuc n) = []

abbrev parse : Text → ℤ
parse [] = pos 0
parse (c ∷ s) = pos c

abbrev succeeds : StripeEvent
succeeds = record {
  id = codes "evt";
  event_type = codes "payment_intent.succeeded";
  object_id = codes "pi_1";
  amount_received = pos 500;
  currency = codes "usd";
  customer = [];
  payment_method = [];
  attempt_id = codes "pay_k";
  last_error = none;
}

abbrev fails : StripeEvent
fails = record succeeds { id = codes "evt2"; event_type = codes "payment_intent.payment_failed" }

abbrev decode : Text → Option StripeEvent
decode [] = none
decode (c ∷ s) = if c == b'{' then some succeeds else some fails

abbrev header : Text
header = codes "t=2, v1=bad, v1=s2.{}"

signature_run :
    verify_stripe_signature hmac decode_hex format parse
      (codes "{}")
      header
      (codes "s")
      (pos 100_000_000_000)
      (pos 300_000_000_000)
    ≡ ok tt
unfolding evaluate_payments
signature_run = refl

abbrev webhook : Text → Text → PaymentStore cents → Result PaymentError Reply × PaymentStore cents
webhook body signature s =
    stripe_webhook (λ _. true) hmac decode_hex format parse decode (λ b. b) true true (codes "s")
      body signature (pos 100_000_000_000) s

abbrev paid_store : PaymentStore cents
paid_store = (webhook (codes "{}") header charged_store).1

webhook_run :
    webhook (codes "{}") header charged_store ≡ (ok (done (codes "pay_k") succeeded), paid_store)
unfolding evaluate_payments
webhook_run = refl

-- A failure that is reported late turns a succeeded attempt into a failed one, and bills it so.
late_failure :
    (webhook (codes "!") (codes "t=2,v1=s2.!") paid_store).1.attempts
    ≡ record waiting { status = failed } ∷ []
unfolding evaluate_payments
late_failure = refl

-- A success that arrives before the provider's answer is stored is overwritten by that answer.
late_answer :
    (finish_charge (codes "pay_k") (ok (codes "pi_1", codes "processing")) paid_store).1.attempts
    ≡ waiting ∷ []
unfolding evaluate_payments
late_answer = refl

-- Billing does not answer: the attempt is settled, the event is not, and the provider sends it again.
unsettled :
    (stripe_webhook
      (λ _. false)
      hmac
      decode_hex
      format
      parse
      decode
      (λ b. b)
      true
      true
      (codes "s")
      (codes "{}")
      header
      (pos 100_000_000_000)
      charged_store).0
    ≡ err settlement_failed
unfolding evaluate_payments
unsettled = refl

abbrev refused_start : PaymentStore cents
refused_start = record start { attempts = record waiting { amount = 600 } ∷ [] }

abbrev refused_store : PaymentStore cents
refused_store = (webhook (codes "{}") header refused_start).1

-- The amount is not that of the attempt.
short_payment : webhook (codes "{}") header refused_start ≡ (err amount_mismatch, refused_store)
unfolding evaluate_payments
short_payment = refl

abbrev header_fields : Text → Fields
header_fields h = read_fields parse (split b',' h) (record { timestamp = pos 0; signatures = [] })

verify_stripe_signature-Signed_example :
    (is_empty (trim_space (codes "s")) ≡ false)
    × (leb_ℤ (header_fields header).timestamp (pos 0) ≡ false)
    × (ltb_ℤ
          (pos 300_000_000_000)
          (pos 100_000_000_000 -ℤ nanoseconds (header_fields header).timestamp)
        ≡ false)
    × (ltb_ℤ
          (pos 300_000_000_000)
          (nanoseconds (header_fields header).timestamp -ℤ pos 100_000_000_000)
        ≡ false)
    × ((s : Text) × Among s (header_fields header).signatures
        × (decode_hex s
            ≡ some (
                hmac
                  (codes "s")
                  (signed_text format (header_fields header).timestamp (codes "{}")))))
verify_stripe_signature-Signed_example =
    verify_stripe_signature-Signed hmac decode_hex format parse (codes "{}") header (codes "s")
      (pos 100_000_000_000) (pos 300_000_000_000) signature_run

stripe_webhook_twice_example : webhook (codes "{}") header paid_store ≡ (ok duplicate, paid_store)
stripe_webhook_twice_example =
    stripe_webhook_twice (λ _. true) hmac decode_hex format parse decode (λ b. b) (codes "s")
      (codes "{}") header header (pos 100_000_000_000) (pos 100_000_000_000) charged_store
      paid_store (codes "pay_k") succeeded webhook_run signature_run

stripe_webhook-MoneyStep_example :
    ((verify_stripe_signature hmac decode_hex format parse
          (codes "{}")
          header
          (codes "s")
          (pos 100_000_000_000)
          (pos 300_000_000_000)
        ≡ ok tt)
      × MoneyStep cents (decode (codes "{}")) charged_store paid_store)
    ⊎ (paid_store ≡ charged_store)
stripe_webhook-MoneyStep_example =
    stripe_webhook-MoneyStep (λ _. true) hmac decode_hex format parse decode (λ b. b) (codes "s")
      (codes "{}") header (pos 100_000_000_000) charged_store

stripe_webhook-Blameless_example :
    (amount_mismatch ≡ settlement_failed)
    ⊎ ((refused_store.attempts ≡ refused_start.attempts)
        × (refused_store.profiles ≡ refused_start.profiles)
        × (refused_store.settlements ≡ refused_start.settlements))
stripe_webhook-Blameless_example =
    stripe_webhook-Blameless (λ _. true) hmac decode_hex format parse decode (λ b. b) (codes "s")
      (codes "{}") header (pos 100_000_000_000) refused_start refused_store amount_mismatch
      short_payment
