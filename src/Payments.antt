-- ===== src/Payments.antt =====
-- services/cmd/payments/main.go: payment profiles and charge attempts. Amounts are floating-point numbers in the
-- source: their operations are an interface. The provider's answers are arguments, and messages are
-- bytes.
pub mod Signature
pub mod Webhook
pub mod Requests
pub mod Charges
pub mod Settled
mod Tests
use himate_system.Base.{ℕ, Bool, Option, List, ℤ, Text}

-- What the service does with an amount of money, a float64.
pub record Money : Type 1 where
  pub Amount : Type 0
  pub is_positive : Amount → Bool
  -- `math.Round(a*100)/100`
  pub round_cents : Amount → Amount
  -- The received cents are positive and, divided by 100, within 0.005 of the amount.
  pub matches_cents : ℤ → Amount → Bool

pub data ProfileStatus : Type 0 where
  unconfigured ready : ProfileStatus

pub record PaymentProfile : Type 0 where
  pub partner_id : Text
  pub provider : Text
  pub provider_customer_id : Text
  pub payment_method_id : Text
  pub autopay_enabled : Bool
  pub status : ProfileStatus

pub data Purpose : Type 0 where
  activation_license invoice : Purpose

pub data AttemptStatus : Type 0 where
  pending processing requires_action retryable failed succeeded : AttemptStatus

pub record Attempt (m : Money) : Type 0 where
  pub id : Text
  pub partner_id : Text
  pub invoice_id : Text
  pub purpose : Purpose
  pub amount : m.Amount
  pub currency : Text
  pub provider : Text
  pub provider_payment_id : Text
  pub status : AttemptStatus
  pub failure_code : Text
  pub failure_message : List ℕ
  pub idempotency_key : Text

pub data EventStatus : Type 0 where
  received processed : EventStatus

pub record WebhookEvent : Type 0 where
  pub provider_event_id : Text
  pub event_type : Text
  pub payload_sha256 : Text
  pub status : EventStatus

-- The body of a call that settles a payment with the billing service.
pub record Settlement (m : Money) : Type 0 where
  pub attempt : Attempt m
  pub status : AttemptStatus
  pub provider_payment_id : Text
  pub provider_event_id : Text
  pub failure_code : Text
  pub failure_message : List ℕ

-- The tables, and the settlements that were sent.
pub record PaymentStore (m : Money) : Type 0 where
  pub profiles : List PaymentProfile
  pub attempts : List (Attempt m)
  pub webhook_events : List WebhookEvent
  pub settlements : List (Settlement m)

pub data PaymentError : Type 0 where
  method_not_allowed provider_unconfigured bad_json validation database : PaymentError
  payment_method_required profile_not_ready autopay_disabled provider_failed : PaymentError
  invalid_signature bad_event event_conflict attempt_not_found payment_id_mismatch amount_mismatch :
      PaymentError
  settlement_failed : PaymentError

pub record ChargeRequest (m : Money) : Type 0 where
  pub partner_id : Text
  pub invoice_id : Text
  pub purpose : Text
  pub amount : m.Amount
  pub currency : Text
  pub idempotency_key : Text

-- A request that has passed the tests.
pub record Charge (m : Money) : Type 0 where
  pub partner_id : Text
  pub invoice_id : Text
  pub purpose : Purpose
  pub amount : m.Amount
  pub currency : Text
  pub idempotency_key : Text

pub record ProfileInput : Type 0 where
  pub provider_customer_id : Option Text
  pub payment_method_id : Option Text
  pub autopay_enabled : Option Bool
