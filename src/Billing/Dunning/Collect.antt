-- ===== src/Billing/Dunning/Collect.antt =====
-- services/cmd/billing/payment_provider.go, queueInvoiceCollection, with markCollectionAttempt of dunning.go: the
-- charge of an invoice that was sent, and what its immediate answer does.
use himate_system.Base.{
  ℕ, suc, ◌==◌, leb, max, Bool, not, ◌&&◌, ◌||◌, Option, none, some, ◌++◌, if◌then◌else◌, find,
  Result, ok, err, Text, codes, is_empty, text_eq, Unicode, to_upper, trim_space,
}
use himate_system.Payments.{Money}
use himate_system.Billing.{BillingInvoice, invoice_id_is}
use himate_system.Billing.Settlement.{
  FollowUp, nothing, recover, clear_dunning, suspend, dunning_eligible, dunning_max_attempts,
}
use himate_system.Billing.Dunning.{
  charge, DunningStore, DunningError, payments_failed, ChargeAnswer, Services, Step, ◌>>◌,
  update_invoices, update_subscriptions, record_call, with_status, is_failed_charge,
}
use himate_system.Billing.Dunning.Steps.{
  dunning_state_is, is_settled_state, is_unpaid, with_state, plan_in, mark_past_due,
  suspend_for_non_payment, recover_dunning_payment,
}

-- The fields of an answer, trimmed; an empty status is PROCESSING.
unfoldable pub read_charge : ⦃u : Unicode⦄ → ChargeAnswer → ChargeAnswer
read_charge c = record {
  id = trim_space c.id;
  provider_payment_id = trim_space c.provider_payment_id;
  status =
      let status = to_upper (trim_space c.status) in
      if is_empty status then codes "PROCESSING" else status;
}

module _ {m : Money} where
  abbrev pub attempted : ℕ → Text → ChargeAnswer → BillingInvoice m → BillingInvoice m
  attempted attempt state c i = record i {
    provider_status = c.status;
    payment_attempt_id = c.id;
    provider_payment_id = c.provider_payment_id;
    collection_attempts = max i.collection_attempts attempt;
    dunning_state = if is_settled_state i then i.dunning_state else state;
  }

  -- The columns that a charge outside the dunning writes.
  abbrev pub charged_as : ChargeAnswer → BillingInvoice m → BillingInvoice m
  charged_as c i = record i {
    provider_status = c.status;
    payment_attempt_id = c.id;
    provider_payment_id = c.provider_payment_id;
  }

  abbrev pub with_provider_status : Text → BillingInvoice m → BillingInvoice m
  with_provider_status status i = record i { provider_status = status }

module _ {m : Money} ⦃u : Unicode⦄ where
  -- markCollectionAttempt
  unfoldable pub mark_collection_attempt : Text → ℕ → ChargeAnswer → Step m (Unit {0})
  mark_collection_attempt id attempt c =
      let state : Text =
        if is_failed_charge c.status then codes "PAST_DUE" else codes "COLLECTING" in
      update_invoices (is_unpaid id) (attempted attempt state c)

  module _ (services : Services m) where
    -- The error of an operation that is called for its writes alone.
    abbrev pub ignore_error : Step m (Unit {0}) → DunningStore m → DunningStore m
    ignore_error step s = (step s).1

    abbrev charge_answer : Option ChargeAnswer → Step m ChargeAnswer
    charge_answer none s = (err payments_failed, s)
    charge_answer (some c) s = (ok (read_charge c), s)

    -- requestPaymentCharge, for an invoice.
    unfoldable pub request_payment_charge :
        Text → Text → m.Amount → Text → Text → Step m ChargeAnswer
    request_payment_charge partner id total currency key s =
        if is_empty (trim_space services.payments_host)
        then (err payments_failed, s)
        else let sent = record_call (charge partner id (m.round_cents total) currency key) s in
          charge_answer (services.charged sent.sent) sent

    -- What a failed attempt does at once: `now` is the day of the charge.
    abbrev pub attempt_failed : ℕ → ℕ → Text → Text → DunningStore m → DunningStore m
    attempt_failed now attempt id partner s =
        if leb dunning_max_attempts attempt
        then ignore_error (suspend_for_non_payment services id partner now) s
        else ignore_error (mark_past_due services id partner attempt) s

    abbrev pub attempt_made : ℕ → ℕ → Text → Text → ChargeAnswer → DunningStore m → DunningStore m
    attempt_made now attempt id partner c s =
        let marked = ignore_error (mark_collection_attempt id attempt c) s in
        if text_eq c.status (codes "FAILED") || text_eq c.status (codes "REQUIRES_ACTION")
        then attempt_failed now attempt id partner marked
        else marked

    -- `attempt` is 0 for an invoice that is not under dunning.
    unfoldable pub after_charge :
        ℕ → ℕ → Text → Text → Result DunningError ChargeAnswer × DunningStore m → DunningStore m
    unfolding mark_collection_attempt
    after_charge now attempt id partner (err failure, s) =
        ignore_error
          (update_invoices (is_unpaid id) (with_provider_status (codes "COLLECTION_PENDING"))) s
    after_charge now attempt id partner (ok c, s) =
        if attempt == 0
        then ignore_error (update_invoices (is_unpaid id) (charged_as c)) s
        else attempt_made now attempt id partner c s

    abbrev pub eligible_row : BillingInvoice m → Bool
    eligible_row i = dunning_eligible i.billing_model i.charge_type

    abbrev pub charge_key : Text → ℕ → Text
    charge_key id attempt =
        if attempt == 0
        then codes "invoice:" ++ id
        else codes "invoice:" ++ (id ++ (codes ":attempt:" ++ services.format attempt))

    abbrev pub attempt_number : BillingInvoice m → ℕ
    attempt_number i = if eligible_row i then suc i.collection_attempts else 0

    abbrev pub collect_with :
        ℕ → Text → Text → Text → m.Amount → ℕ → DunningStore m → DunningStore m
    collect_with now id partner currency total attempt s =
        after_charge now attempt id partner
          (request_payment_charge partner id total currency (charge_key id attempt) s)

    -- invoiceCollectionApproved
    abbrev pub collection_approved : BillingInvoice m → Bool
    collection_approved i = text_eq i.workflow_status (codes "SENT")

    unfoldable pub collect_found :
        ℕ
        → Text
        → Text
        → Text
        → m.Amount
        → Option (BillingInvoice m)
        → DunningStore m
        → DunningStore m
    unfolding request_payment_charge after_charge
    collect_found now id partner currency total none s = s
    collect_found now id partner currency total (some i) s =
        if not (collection_approved i)
        then s
        else if eligible_row i && leb dunning_max_attempts i.collection_attempts
        then s
        else collect_with now id partner currency total (attempt_number i) s

    -- queueInvoiceCollection
    unfoldable pub queue_invoice_collection :
        ℕ → Text → Text → Text → m.Amount → DunningStore m → DunningStore m
    unfolding collect_found
    queue_invoice_collection now id partner currency total s =
        collect_found now id partner currency total (find (invoice_id_is id) s.invoices) s

    abbrev pub clear_state : Text → Text → Step m (Unit {0})
    clear_state id partner =
        update_invoices (λ i. invoice_id_is id i && not (dunning_state_is (codes "PURGED") i))
          (with_state (codes "NONE"))
        >> update_subscriptions (plan_in partner (codes "PAST_DUE")) (with_status (codes "ACTIVE"))

    -- What paymentSettlement calls after its commit, with the attempts that it read.
    unfoldable pub follow : ℕ → FollowUp → Text → Text → ℕ → DunningStore m → DunningStore m
    follow now nothing id partner attempts s = s
    follow now recover id partner attempts s =
        ignore_error (recover_dunning_payment services id partner now) s
    follow now clear_dunning id partner attempts s = ignore_error (clear_state id partner) s
    follow now suspend id partner attempts s =
        ignore_error (suspend_for_non_payment services id partner now) s
    follow now FollowUp.mark_past_due id partner attempts s =
        ignore_error (mark_past_due services id partner attempts) s
