-- ===== src/Billing/Ledger.antt =====
-- services/cmd/billing/payment_provider.go and commercial_automation.go: the rows that a settlement writes.
use himate_system.Base.{
  ◌==◌, Bool, true, false, not, ◌&&◌, [], ◌∷◌, ◌++◌, if◌then◌else◌, count, Text, codes, is_empty,
  text_eq,
}
use himate_system.Payments.{Money}
use himate_system.Billing.{
  License, BillingInvoice, BillingEvent, FinanceTransaction, SettlementRow, BillingStore,
}

abbrev pub has_event_key : Text → BillingEvent → Bool
has_event_key key e = text_eq e.event_key key

module _ {m : Money} where
  -- emitBillingEventTx: `ON CONFLICT DO NOTHING`.
  abbrev pub emit_event : Text → Text → SettlementRow m → BillingStore m → BillingStore m
  emit_event kind key r s =
      if count (has_event_key (kind ++ key)) s.billing_events == 0
      then record s {
        billing_events =
            s.billing_events
            ++ (record { event_key = kind ++ key; partner_id = r.partner_id; event_type = kind }
                ∷ []);
      }
      else s

  abbrev pub pay_license : SettlementRow m → License m → License m
  pay_license r l = record l {
    paid_amount = l.required_amount;
    status = codes "PAID";
    payment_reference = r.provider_payment_id;
    verified_by = codes "payments-service";
    payment_attempt_id = r.attempt_id;
    provider = r.provider;
    provider_payment_id = r.provider_payment_id;
  }

  abbrev pub license_transaction : SettlementRow m → FinanceTransaction m
  license_transaction r = record {
    partner_id = r.partner_id;
    invoice_id = [];
    transaction_type = codes "ACTIVATION_LICENSE";
    status = codes "PAID";
    currency = r.currency;
    gross_amount = r.amount;
    source = codes "PROVIDER";
  }

  -- The separator of an event's key follows its type.
  abbrev pub event_key_of : SettlementRow m → Text
  event_key_of r = b':' ∷ r.provider_event_id

  abbrev pub license_paid : Bool → SettlementRow m → BillingStore m → BillingStore m
  license_paid true r s = s
  license_paid false r s =
      let s1 = emit_event (codes "LICENSE_PAID") (event_key_of r) r s in
      record s1 { finance_transactions = s1.finance_transactions ++ (license_transaction r ∷ []) }

  abbrev pub pay_invoice : SettlementRow m → BillingInvoice m → BillingInvoice m
  pay_invoice r i = record i {
    status = codes "PAID";
    workflow_status = codes "PAID";
    provider_status = codes "SUCCEEDED";
    payment_attempt_id = r.attempt_id;
    provider = r.provider;
    provider_payment_id = r.provider_payment_id;
    payment_failure_code = [];
    payment_failure_message = [];
  }

  abbrev pub fail_invoice : SettlementRow m → BillingInvoice m → BillingInvoice m
  fail_invoice r i = record i {
    provider_status = codes "FAILED";
    payment_attempt_id = r.attempt_id;
    provider = r.provider;
    provider_payment_id = r.provider_payment_id;
    payment_failure_code = r.failure_code;
    payment_failure_message = r.failure_message;
  }

  abbrev pub invoice_transaction : BillingInvoice m → FinanceTransaction m
  invoice_transaction i = record {
    partner_id = i.partner_id;
    invoice_id = i.id;
    transaction_type = codes "PAYMENT";
    status = codes "PAID";
    currency = i.currency;
    gross_amount = i.total;
    source = codes "PROVIDER";
  }

  -- The unique index over an invoice, a status and a source.
  abbrev pub same_transaction : FinanceTransaction m → FinanceTransaction m → Bool
  same_transaction t x =
      not (is_empty t.invoice_id)
      && text_eq x.invoice_id t.invoice_id
      && text_eq x.status t.status
      && text_eq x.source t.source

  abbrev pub add_transaction : FinanceTransaction m → BillingStore m → BillingStore m
  add_transaction t s =
      if count (same_transaction t) s.finance_transactions == 0
      then record s { finance_transactions = s.finance_transactions ++ (t ∷ []) }
      else s

  abbrev pub invoice_paid :
      Bool → SettlementRow m → BillingInvoice m → BillingStore m → BillingStore m
  invoice_paid true r i s = s
  invoice_paid false r i s =
      add_transaction (invoice_transaction i)
        (emit_event (codes "INVOICE_PAID") (event_key_of r) r s)

  abbrev pub invoice_found : Text → Text → BillingInvoice m → Bool
  invoice_found id partner i = text_eq i.id id && text_eq i.partner_id partner
