-- ===== src/Billing.antt =====
-- services/cmd/billing: the tables that a settlement reads and writes. Of an invoice and of a transaction only the
-- columns that it uses are kept; amounts are float64, as in the payment service. A DATE
-- column is the number of its day, and a TIMESTAMPTZ column that is only compared with NULL is a day too.
pub mod Ledger
pub mod Settlement
pub mod Onboarding
pub mod Dunning
mod Tests
use himate_system.Base.{ℕ, Bool, Option, List, Text, text_eq}
use himate_system.Payments.{Money, Purpose}

pub record License (m : Money) : Type 0 where
  pub partner_id : Text
  pub currency : Text
  pub required_amount : m.Amount
  pub paid_amount : m.Amount
  pub status : Text
  pub waived : Bool
  pub payment_reference : Text
  pub verified_by : Text
  pub payment_attempt_id : Text
  pub provider : Text
  pub provider_payment_id : Text

pub record BillingInvoice (m : Money) : Type 0 where
  pub id : Text
  pub partner_id : Text
  pub total : m.Amount
  pub currency : Text
  pub status : Text
  pub workflow_status : Text
  pub provider_status : Text
  pub payment_attempt_id : Text
  pub provider : Text
  pub provider_payment_id : Text
  pub payment_failure_code : Text
  pub payment_failure_message : List ℕ
  pub billing_model : Text
  pub charge_type : Text
  pub collection_attempts : ℕ
  pub dunning_state : Text
  pub invoice_date : ℕ
  pub plan_key : Text
  pub dunning_suspended_at : Option ℕ
  pub purge_due_at : Option ℕ
  pub pre_suspend_partner_lifecycle : Text
  pub operational_purged_at : Option ℕ

pub record BillingEvent : Type 0 where
  pub event_key : Text
  pub partner_id : Text
  pub event_type : Text

pub record FinanceTransaction (m : Money) : Type 0 where
  pub partner_id : Text
  pub invoice_id : Text
  pub transaction_type : Text
  pub status : Text
  pub currency : Text
  pub gross_amount : m.Amount
  pub source : Text

-- A row of payment_settlements, which has the columns of a checked request.
pub record SettlementRow (m : Money) : Type 0 where
  pub attempt_id : Text
  pub partner_id : Text
  pub invoice_id : Text
  pub purpose : Purpose
  pub amount : m.Amount
  pub currency : Text
  pub is_success : Bool
  pub provider : Text
  pub provider_payment_id : Text
  pub provider_event_id : Text
  pub failure_code : Text
  pub failure_message : List ℕ

pub record BillingStore (m : Money) : Type 0 where
  pub licenses : List (License m)
  pub invoices : List (BillingInvoice m)
  pub settlements : List (SettlementRow m)
  pub billing_events : List BillingEvent
  pub finance_transactions : List (FinanceTransaction m)

abbrev pub license_of : {m : Money} → Text → License m → Bool
license_of id l = text_eq l.partner_id id

abbrev pub invoice_id_is : {m : Money} → Text → BillingInvoice m → Bool
invoice_id_is id i = text_eq i.id id

abbrev pub settles_event : {m : Money} → Text → SettlementRow m → Bool
settles_event id r = text_eq r.provider_event_id id
