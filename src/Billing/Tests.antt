-- ===== src/Billing/Tests.antt =====
-- Runs of the settlement on concrete input, with amounts in cents.
use himate_system.Base.{
  ℕ, ◌≡◌, refl, ◌==◌, ltb, Bool, true, none, some, List, [], ◌∷◌, Result, ok, err, Text, codes,
}
use himate_system.Base.Strings.Ascii.{ascii, evaluate_texts}
use himate_system.Payments.{Money, invoice}
use himate_system.Billing.{BillingInvoice, BillingStore}
use himate_system.Billing.Settlement.{
  SettlementInput, SettlementError, SettlementReply, settlement_mismatch, database, duplicate,
  settled, suspend, clear_dunning, dunning_eligible, check_settlement, settle_tx,
  payment_settlement,
}
use himate_system.Billing.Settlement.Once.{payment_settlement_twice}
use himate_system.Billing.Settlement.Paid.{Settles, payment_settlement-Settles}

abbrev cents : Money
cents = record {
  Amount = ℕ;
  is_positive = ltb 0;
  round_cents = λ a. a;
  matches_cents = λ received a. true;
}

unfoldable evaluate_billing : Unit {0}
unfolding evaluate_texts dunning_eligible check_settlement settle_tx payment_settlement
evaluate_billing = tt

abbrev same_amount : ℕ → ℕ → Bool
same_amount a b = a == b

abbrev open_invoice : BillingInvoice cents
open_invoice = record {
  id = codes "i1";
  partner_id = codes "p1";
  total = 500;
  currency = codes "USD";
  status = codes "SENT";
  workflow_status = codes "SENT";
  provider_status = codes "PROCESSING";
  payment_attempt_id = [];
  provider = [];
  provider_payment_id = [];
  payment_failure_code = [];
  payment_failure_message = [];
  billing_model = codes "PLAN";
  charge_type = codes "plan_monthly";
  collection_attempts = 1;
  dunning_state = codes "NONE";
  invoice_date = 100;
  plan_key = codes "STARTER";
  dunning_suspended_at = none;
  purge_due_at = none;
  pre_suspend_partner_lifecycle = [];
  operational_purged_at = none;
}

abbrev start : BillingStore cents
start = record {
  licenses = [];
  invoices = open_invoice ∷ [];
  settlements = [];
  billing_events = [];
  finance_transactions = [];
}

abbrev success : SettlementInput cents
success = record {
  attempt_id = codes "pay_k";
  partner_id = codes "p1";
  invoice_id = codes "i1";
  purpose = codes "INVOICE";
  amount = 500;
  currency = codes "usd";
  status = codes "SUCCEEDED";
  provider = codes "stripe";
  provider_payment_id = codes "pi_1";
  provider_event_id = codes "evt";
  failure_code = [];
  failure_message = [];
}

abbrev settle :
    SettlementInput cents
    → BillingStore cents
    → Result SettlementError SettlementReply × BillingStore cents
settle input s = payment_settlement same_amount true (some input) s

abbrev paid : BillingStore cents
paid = (settle success start).1

success_run : settle success start ≡ (ok (settled invoice clear_dunning), paid)
unfolding evaluate_billing
success_run = refl

abbrev statuses : List (BillingInvoice cents) → List (Text × Text)
statuses [] = []
statuses (i ∷ is) = (i.status, i.provider_status) ∷ statuses is

paid_status : statuses paid.invoices ≡ (codes "PAID", codes "SUCCEEDED") ∷ []
unfolding evaluate_billing
paid_status = refl

short_run : (settle (record success { amount = 400 }) start).0 ≡ err settlement_mismatch
unfolding evaluate_billing
short_run = refl

-- A second success of the attempt, under another event, is refused by the index.
second_success :
    (settle (record success { provider_event_id = codes "evt2" }) paid).0 ≡ err database
unfolding evaluate_billing
second_success = refl

abbrev third_attempt : BillingStore cents
third_attempt = record start {
  invoices = record open_invoice { status = codes "PAID"; collection_attempts = 3 } ∷ [];
}

-- The failure of an earlier attempt that arrives after the invoice was paid suspends the partner.
late_failure :
    (settle
      (record success {
        status = codes "FAILED";
        attempt_id = codes "pay_j";
        provider_event_id = codes "evt3";
      })
      third_attempt).0
    ≡ ok (settled invoice suspend)
unfolding evaluate_billing
late_failure = refl

payment_settlement_twice_example : settle success paid ≡ (ok duplicate, paid)
payment_settlement_twice_example =
    payment_settlement_twice same_amount success start paid (settled invoice clear_dunning)
      success_run

payment_settlement-Settles_example :
    Settles same_amount (some success) start (settle success start).1
payment_settlement-Settles_example =
    payment_settlement-Settles same_amount true (some success) start
