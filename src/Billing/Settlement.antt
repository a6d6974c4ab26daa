-- ===== src/Billing/Settlement.antt =====
-- services/cmd/billing/payment_provider.go, paymentSettlement, up to its commit; what it calls after the commit
-- is its answer. The payloads of billing events are left out.
pub mod Once
pub mod Paid
use himate_system.Base.{
  ℕ, suc, ◌==◌, leb, Bool, true, false, not, ◌&&◌, ◌||◌, Option, none, some, List, [], ◌∷◌, ◌++◌,
  if◌then◌else◌, find, count, update_where, Result, ok, err, ◌>>=◌, ◌>>◌, reject_if, Text, codes,
  is_empty, byte_len, text_eq, Unicode, to_upper, to_lower, equal_fold, trim_space,
}
use himate_system.Payments.{Money, Purpose, activation_license, invoice}
use himate_system.Payments.Requests.{read_purpose, is_invoice}
use himate_system.Billing.{
  License, BillingInvoice, BillingEvent, FinanceTransaction, SettlementRow, BillingStore,
  license_of, invoice_id_is, settles_event,
}
use himate_system.Billing.Ledger.{
  add_transaction, emit_event, event_key_of, fail_invoice, invoice_found, invoice_paid,
  invoice_transaction, license_paid, license_transaction, pay_invoice, pay_license,
  same_transaction,
}

pub record SettlementInput (m : Money) : Type 0 where
  pub attempt_id : Text
  pub partner_id : Text
  pub invoice_id : Text
  pub purpose : Text
  pub amount : m.Amount
  pub currency : Text
  pub status : Text
  pub provider : Text
  pub provider_payment_id : Text
  pub provider_event_id : Text
  pub failure_code : Text
  pub failure_message : List ℕ

pub data SettlementError : Type 0 where
  method_not_allowed bad_json validation license_not_found license_waived : SettlementError
  invoice_not_found settlement_mismatch database : SettlementError

-- What is called after the commit for an invoice under dunning.
pub data FollowUp : Type 0 where
  nothing recover clear_dunning suspend mark_past_due : FollowUp

pub data SettlementReply : Type 0 where
  duplicate : SettlementReply
  settled : Purpose → FollowUp → SettlementReply

abbrev pub dunning_max_attempts : ℕ
dunning_max_attempts = 3

-- dunningEligible
unfoldable pub dunning_eligible : ⦃u : Unicode⦄ → Text → Text → Bool
dunning_eligible billing_model charge_type =
    let kind = to_upper (trim_space charge_type) in
    equal_fold (trim_space billing_model) (codes "PLAN")
    && (text_eq kind (codes "PLAN_MONTHLY") || text_eq kind (codes "PLAN_ANNUAL_RENEWAL"))

module _ {m : Money} where
  abbrev pub with_purpose :
      SettlementInput m
      → Option Purpose
      → Bool
      → ⦃u : Unicode⦄ → Result SettlementError (SettlementRow m)
  with_purpose r none won = err validation
  with_purpose r (some p) won = ok (record {
    attempt_id = trim_space r.attempt_id;
    partner_id = trim_space r.partner_id;
    invoice_id = trim_space r.invoice_id;
    purpose = p;
    amount = r.amount;
    currency = to_upper (trim_space r.currency);
    is_success = won;
    provider = to_lower (trim_space r.provider);
    provider_payment_id = trim_space r.provider_payment_id;
    provider_event_id = trim_space r.provider_event_id;
    failure_code = r.failure_code;
    failure_message = r.failure_message;
  })

  unfoldable pub check_settlement :
      ⦃u : Unicode⦄ → SettlementInput m → Result SettlementError (SettlementRow m)
  check_settlement r = do
    let status = to_upper (trim_space r.status)
    let won = text_eq status (codes "SUCCEEDED")
    reject_if
        (is_empty (trim_space r.attempt_id)
          || is_empty (trim_space r.partner_id)
          || is_empty (trim_space r.provider_event_id)
          || is_empty (trim_space r.provider_payment_id)
          || not (m.is_positive r.amount)
          || not (byte_len (to_upper (trim_space r.currency)) == 3)
          || (not won && not (text_eq status (codes "FAILED"))))
        validation
    with_purpose r (read_purpose r.purpose) won

  abbrev pub follow_success : BillingInvoice m → FollowUp
  follow_success i =
      if leb 2 i.collection_attempts
        || text_eq i.dunning_state (codes "PAST_DUE")
        || text_eq i.dunning_state (codes "SUSPENDED")
      then recover
      else clear_dunning

  abbrev pub follow_failure : BillingInvoice m → FollowUp
  follow_failure i =
      if leb dunning_max_attempts i.collection_attempts then suspend else mark_past_due

  -- With what was read of the invoice in the transaction.
  abbrev pub follow_up : ⦃u : Unicode⦄ → SettlementRow m → BillingInvoice m → FollowUp
  follow_up r i =
      if not (dunning_eligible i.billing_model i.charge_type)
      then nothing
      else if r.is_success
      then follow_success i
      else follow_failure i

  -- `close a b`: the amounts differ by 0.005 at most.
  module _ (close : m.Amount → m.Amount → Bool) ⦃u : Unicode⦄ where
    abbrev pub matches : SettlementRow m → m.Amount → Text → Bool
    matches r amount currency = equal_fold currency r.currency && close amount r.amount

    abbrev pub settle_license :
        Option (License m)
        → SettlementRow m
        → BillingStore m
        → Result SettlementError (FollowUp × BillingStore m)
    settle_license none r s = err license_not_found
    settle_license (some l) r s =
        if l.waived
        then err license_waived
        else if not (matches r l.required_amount l.currency)
        then err settlement_mismatch
        else if r.is_success
        then ok (
          nothing,
          license_paid (text_eq l.status (codes "PAID")) r (record s {
            licenses = update_where (license_of r.partner_id) (pay_license r) s.licenses;
          }),
        )
        else ok (nothing, emit_event (codes "LICENSE_PAYMENT_FAILED") (event_key_of r) r s)

    abbrev pub settle_invoice :
        Option (BillingInvoice m)
        → SettlementRow m
        → BillingStore m
        → Result SettlementError (FollowUp × BillingStore m)
    settle_invoice none r s = err invoice_not_found
    settle_invoice (some i) r s =
        if not (matches r i.total i.currency)
        then err settlement_mismatch
        else if r.is_success
        then ok (
          follow_up r i,
          invoice_paid (text_eq i.status (codes "PAID")) r i (record s {
            invoices = update_where (invoice_id_is r.invoice_id) (pay_invoice r) s.invoices;
          }),
        )
        else ok (
          follow_up r i,
          emit_event (codes "INVOICE_PAYMENT_FAILED") (event_key_of r) r (record s {
            invoices = update_where (invoice_id_is r.invoice_id) (fail_invoice r) s.invoices;
          }),
        )

    abbrev pub settle_purpose :
        Purpose
        → SettlementRow m
        → BillingStore m
        → Result SettlementError (FollowUp × BillingStore m)
    settle_purpose activation_license r s =
        settle_license (find (license_of r.partner_id) s.licenses) r s
    settle_purpose invoice r s =
        settle_invoice (find (invoice_found r.invoice_id r.partner_id) s.invoices) r s

    -- The unique index over the attempts that succeeded.
    abbrev pub same_success : SettlementRow m → SettlementRow m → Bool
    same_success r x = r.is_success && x.is_success && text_eq x.attempt_id r.attempt_id

    abbrev pub insert_settlement :
        SettlementRow m
        → FollowUp × BillingStore m
        → Result SettlementError (SettlementReply × BillingStore m)
    insert_settlement r (f, s) =
        if not (count (same_success r) s.settlements == 0)
        then err database
        else ok (settled r.purpose f, record s { settlements = s.settlements ++ (r ∷ []) })

    unfoldable pub settle_tx :
        SettlementRow m → BillingStore m → Result SettlementError (SettlementReply × BillingStore m)
    settle_tx r s =
        if not (count (settles_event r.provider_event_id) s.settlements == 0)
        then ok (duplicate, s)
        else settle_purpose r.purpose r s >>= insert_settlement r

    -- A transaction that fails leaves the store as it was.
    abbrev pub committed :
        BillingStore m
        → Result SettlementError (SettlementReply × BillingStore m)
        → Result SettlementError SettlementReply × BillingStore m
    committed s (err e) = (err e, s)
    committed s (ok (reply, s')) = (ok reply, s')

    abbrev pub settle_checked :
        Result SettlementError (SettlementRow m)
        → BillingStore m
        → Result SettlementError SettlementReply × BillingStore m
    settle_checked (err e) s = (err e, s)
    settle_checked (ok r) s = committed s (settle_tx r s)

    unfoldable pub payment_settlement :
        Bool
        → Option (SettlementInput m)
        → BillingStore m
        → Result SettlementError SettlementReply × BillingStore m
    payment_settlement false body s = (err method_not_allowed, s)
    payment_settlement true none s = (err bad_json, s)
    payment_settlement true (some input) s = settle_checked (check_settlement input) s
