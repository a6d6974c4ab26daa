-- ===== src/Billing/Settlement/Paid.antt =====
-- What a settlement changes.
use mathlib.Core.Path.{subst, sym}
use himate_system.Base.{
  ◌==◌, ◌≡◌, refl, ap, ◌∙◌, Bool, true, false, Bool-cases, inl, inr, ◌⊎◌, not, ◌&&◌, ◌||◌, List,
  is_empty, byte_len, arith, Pointwise, update_where-Pointwise_cases, All-every, text_eq_iff,
  to_upper, trim_space, equal_fold, reject_if-eq-ok, Option, none, some, [], ◌∷◌, ◌++◌, find, count,
  update_where, Result, ok, err, >>=-eq-ok, Text, codes, text_eq, Unicode,
}
use himate_system.Payments.{Money, Purpose, activation_license, invoice}
use himate_system.Payments.Requests.{read_purpose}
use himate_system.Billing.{
  License, BillingInvoice, FinanceTransaction, SettlementRow, BillingStore, license_of,
  invoice_id_is, settles_event,
}
use himate_system.Billing.Settlement.{
  SettlementInput, validation, with_purpose, SettlementError, SettlementReply, FollowUp, matches,
  settle_license, settle_invoice, settle_purpose, same_success, settle_tx, committed,
  settle_checked, check_settlement, payment_settlement,
}
use himate_system.Billing.Ledger.{
  pay_license, pay_invoice, fail_invoice, license_paid, invoice_paid, invoice_found, emit_event,
  event_key_of, same_transaction, add_transaction, invoice_transaction,
}
use himate_system.Billing.Ledger.{has_event_key}

-- The row that a posted settlement stands for: its texts trimmed, its success that of the word SUCCEEDED, its failure
-- that of the word FAILED.
pub record IsRowOf ⦃u : Unicode⦄ {m : Money} (input : SettlementInput m) (r : SettlementRow m)
    : Type 0 where
  pub attempt_id : r.attempt_id ≡ trim_space input.attempt_id
  pub partner_id : r.partner_id ≡ trim_space input.partner_id
  pub invoice_id : r.invoice_id ≡ trim_space input.invoice_id
  pub amount : r.amount ≡ input.amount
  pub currency : r.currency ≡ to_upper (trim_space input.currency)
  pub provider_event_id : r.provider_event_id ≡ trim_space input.provider_event_id
  pub outcome :
      ((r.is_success ≡ true) × (to_upper (trim_space input.status) ≡ codes "SUCCEEDED"))
      ⊎ ((r.is_success ≡ false) × (to_upper (trim_space input.status) ≡ codes "FAILED"))
  pub purpose :
      ((r.purpose ≡ activation_license)
        × (to_upper (trim_space input.purpose) ≡ codes "ACTIVATION_LICENSE"))
      ⊎ ((r.purpose ≡ invoice) × (to_upper (trim_space input.purpose) ≡ codes "INVOICE"))

-- An invoice of the table: another than the settled one stays; a success makes that one PAID, and a failure leaves
-- its status and its workflow.
pub data InvoiceChange {m : Money} (r : SettlementRow m) (i i' : BillingInvoice m) : Type 0 where
  another_invoice : text_eq i.id r.invoice_id ≡ false → i' ≡ i → InvoiceChange r i i'
  invoice_pays :
      i.id ≡ r.invoice_id
      → r.is_success ≡ true
      → i' ≡ record i {
        status = codes "PAID";
        workflow_status = codes "PAID";
        provider_status = codes "SUCCEEDED";
        payment_attempt_id = r.attempt_id;
        provider = r.provider;
        provider_payment_id = r.provider_payment_id;
        payment_failure_code = [];
        payment_failure_message = [];
      }
      → InvoiceChange r i i'
  invoice_fails :
      i.id ≡ r.invoice_id
      → r.is_success ≡ false
      → i' ≡ record i {
        provider_status = codes "FAILED";
        payment_attempt_id = r.attempt_id;
        provider = r.provider;
        provider_payment_id = r.provider_payment_id;
        payment_failure_code = r.failure_code;
        payment_failure_message = r.failure_message;
      }
      → InvoiceChange r i i'

-- A license of the table: another partner's stays, and so does each if the payment failed; a success makes the
-- partner's PAID.
pub data LicenseChange {m : Money} (r : SettlementRow m) (l l' : License m) : Type 0 where
  another_license : text_eq l.partner_id r.partner_id ≡ false → l' ≡ l → LicenseChange r l l'
  license_fails : r.is_success ≡ false → l' ≡ l → LicenseChange r l l'
  license_pays :
      l.partner_id ≡ r.partner_id
      → r.is_success ≡ true
      → l' ≡ record l {
        paid_amount = l.required_amount;
        status = codes "PAID";
        payment_reference = r.provider_payment_id;
        verified_by = codes "payments-service";
        payment_attempt_id = r.attempt_id;
        provider = r.provider;
        provider_payment_id = r.provider_payment_id;
      }
      → LicenseChange r l l'

-- What the row of a settlement changes of invoices, licenses and settlements.
pub data SettlesRow {m : Money} (close : m.Amount → m.Amount → Bool) ⦃u : Unicode⦄
    (r : SettlementRow m) (s s' : BillingStore m) : Type 0 where
  unchanged :
      s'.invoices ≡ s.invoices
      → s'.licenses ≡ s.licenses
      → s'.settlements ≡ s.settlements
      → SettlesRow close r s s'
  for_license :
      (l : License m)
      → r.purpose ≡ activation_license
      → find (λ (x : License m). text_eq x.partner_id r.partner_id) s.licenses ≡ some l
      → l.waived ≡ false
      → equal_fold l.currency r.currency ≡ true
      → close l.required_amount r.amount ≡ true
      → s'.invoices ≡ s.invoices
      → Pointwise (LicenseChange r) s.licenses s'.licenses
      → s'.settlements ≡ s.settlements ++ (r ∷ [])
      → SettlesRow close r s s'
  for_invoice :
      (i : BillingInvoice m)
      → r.purpose ≡ invoice
      → find
          (λ (x : BillingInvoice m). text_eq x.id r.invoice_id && text_eq x.partner_id r.partner_id)
          s.invoices
        ≡ some i
      → equal_fold i.currency r.currency ≡ true
      → close i.total r.amount ≡ true
      → Pointwise (InvoiceChange r) s.invoices s'.invoices
      → s'.licenses ≡ s.licenses
      → s'.settlements ≡ s.settlements ++ (r ∷ [])
      → SettlesRow close r s s'

-- What a posted body changes: nothing, or what its row does.
pub data Settles {m : Money} (close : m.Amount → m.Amount → Bool) ⦃u : Unicode⦄
    (body : Option (SettlementInput m)) (s s' : BillingStore m) : Type 0 where
  refuses : s' ≡ s → Settles close body s s'
  by_row :
      (input : SettlementInput m) (r : SettlementRow m)
      → body ≡ some input
      → IsRowOf input r
      → SettlesRow close r s s'
      → Settles close body s s'

abbrev result_or : {E A : Type 0} → A → Result E A → A
result_or x (err e) = x
result_or x (ok a) = a

read_purpose-word :
    ⦃u : Unicode⦄ (raw : Text) (p : Purpose)
    → read_purpose raw ≡ some p
    → ((p ≡ activation_license) × (to_upper (trim_space raw) ≡ codes "ACTIVATION_LICENSE"))
      ⊎ ((p ≡ invoice) × (to_upper (trim_space raw) ≡ codes "INVOICE"))
read_purpose-word raw p h =
    elim (Bool-cases (text_eq (to_upper (trim_space raw)) (codes "ACTIVATION_LICENSE"))) [
      | inl license ↦
          let word =
            (text_eq_iff (to_upper (trim_space raw)) (codes "ACTIVATION_LICENSE")).0 license in
          inl (cc (rw license at h), word)
      | inr other ↦ elim (Bool-cases (text_eq (to_upper (trim_space raw)) (codes "INVOICE"))) [
        | inl bill ↦
            let word = (text_eq_iff (to_upper (trim_space raw)) (codes "INVOICE")).0 bill in
            inr (cc (rw (other, bill) at h), word)
        | inr unknown ↦ cc (rw (other, unknown) at h)
      ]
    ]

status_word :
    (status : Text)
    → (not (text_eq status (codes "SUCCEEDED")) && not (text_eq status (codes "FAILED"))) ≡ false
    → ((text_eq status (codes "SUCCEEDED") ≡ true) × (status ≡ codes "SUCCEEDED"))
      ⊎ ((text_eq status (codes "SUCCEEDED") ≡ false) × (status ≡ codes "FAILED"))
status_word status h = elim (Bool-cases (text_eq status (codes "SUCCEEDED"))) [
  | inl won ↦ inl (won, (text_eq_iff status (codes "SUCCEEDED")).0 won)
  | inr lost ↦
      let word : text_eq status (codes "FAILED") ≡ true = ground arith in
      inr (lost, (text_eq_iff status (codes "FAILED")).0 word)
]

-- The other tables.
abbrev Keeps : {m : Money} → BillingStore m → BillingStore m → Type 0
Keeps s t = (t.invoices ≡ s.invoices) × (t.licenses ≡ s.licenses) × (t.settlements ≡ s.settlements)

module _ {m : Money} where
  emit_event-Keeps :
      (kind key : Text) (r : SettlementRow m) (s : BillingStore m)
      → Keeps s (emit_event kind key r s)
  emit_event-Keeps kind key r s =
      elim (Bool-cases (count (has_event_key (kind ++ key)) s.billing_events == 0)) [
        | inl fresh ↦ rw fresh (refl, refl, refl)
        | inr before ↦ rw before (refl, refl, refl)
      ]

  add_transaction-Keeps :
      (t : FinanceTransaction m) (s : BillingStore m) → Keeps s (add_transaction t s)
  add_transaction-Keeps t s =
      elim (Bool-cases (count (same_transaction t) s.finance_transactions == 0)) [
        | inl fresh ↦ rw fresh (refl, refl, refl)
        | inr before ↦ rw before (refl, refl, refl)
      ]

  license_paid-Keeps :
      (before : Bool) (r : SettlementRow m) (s : BillingStore m) → Keeps s (license_paid before r s)
  license_paid-Keeps true r s = (refl, refl, refl)
  license_paid-Keeps false r s = emit_event-Keeps (codes "LICENSE_PAID") (event_key_of r) r s

  invoice_paid-Keeps :
      (before : Bool) (r : SettlementRow m) (i : BillingInvoice m) (s : BillingStore m)
      → Keeps s (invoice_paid before r i s)
  invoice_paid-Keeps true r i s = (refl, refl, refl)
  invoice_paid-Keeps false r i s =
      let s1 = emit_event (codes "INVOICE_PAID") (event_key_of r) r s in
      let (a, b, c) = add_transaction-Keeps (invoice_transaction i) s1 in
      let (d, e, f) = emit_event-Keeps (codes "INVOICE_PAID") (event_key_of r) r s in
      (a ∙ d, b ∙ e, c ∙ f)

  module _ (close : m.Amount → m.Amount → Bool) ⦃u : Unicode⦄ where
    -- The store after the row of the settlement is there.
    abbrev with_row : SettlementRow m → BillingStore m → BillingStore m
    with_row r t = record t { settlements = t.settlements ++ (r ∷ []) }

    matches-parts :
        (r : SettlementRow m) (amount : m.Amount) (currency : Text)
        → matches close r amount currency ≡ true
        → (equal_fold currency r.currency ≡ true) × (close amount r.amount ≡ true)
    matches-parts r amount currency h = (ground arith, ground arith)

    paid-LicenseChange :
        (r : SettlementRow m) (ls : List (License m))
        → r.is_success ≡ true
        → Pointwise (LicenseChange r) ls (update_where (license_of r.partner_id) (pay_license r) ls)
    paid-LicenseChange r ls won =
        update_where-Pointwise_cases (LicenseChange r) (license_of r.partner_id) (pay_license r) ls
          (All-every _ ls
            (λ l hit. license_pays ((text_eq_iff l.partner_id r.partner_id).0 hit) won refl))
          (λ l miss. another_license miss refl)

    failed-LicenseChange :
        (r : SettlementRow m) (ls : List (License m))
        → r.is_success ≡ false
        → Pointwise (LicenseChange r) ls ls
    failed-LicenseChange r [] lost = tt
    failed-LicenseChange r (l ∷ ls) lost = (license_fails lost refl, failed-LicenseChange r ls lost)

    paid-InvoiceChange :
        (r : SettlementRow m) (xs : List (BillingInvoice m))
        → r.is_success ≡ true
        → Pointwise
            (InvoiceChange r)
            xs
            (update_where (invoice_id_is r.invoice_id) (pay_invoice r) xs)
    paid-InvoiceChange r xs won =
        update_where-Pointwise_cases (InvoiceChange r) (invoice_id_is r.invoice_id) (pay_invoice r)
          xs
          (All-every _ xs (λ i hit. invoice_pays ((text_eq_iff i.id r.invoice_id).0 hit) won refl))
          (λ i miss. another_invoice miss refl)

    failed-InvoiceChange :
        (r : SettlementRow m) (xs : List (BillingInvoice m))
        → r.is_success ≡ false
        → Pointwise
            (InvoiceChange r)
            xs
            (update_where (invoice_id_is r.invoice_id) (fail_invoice r) xs)
    failed-InvoiceChange r xs lost =
        update_where-Pointwise_cases (InvoiceChange r) (invoice_id_is r.invoice_id) (fail_invoice r)
          xs
          (All-every _ xs
            (λ i hit. invoice_fails ((text_eq_iff i.id r.invoice_id).0 hit) lost refl))
          (λ i miss. another_invoice miss refl)

    settle_license-SettlesRow :
        (o : Option (License m)) (r : SettlementRow m) (s t : BillingStore m) (f : FollowUp)
        → r.purpose ≡ activation_license
        → find (license_of r.partner_id) s.licenses ≡ o
        → settle_license close o r s ≡ ok (f, t)
        → SettlesRow close r s (with_row r t)
    settle_license-SettlesRow none r s t f aim found h = cc
    settle_license-SettlesRow (some l) r s t f aim found h = elim (Bool-cases l.waived) [
      | inl waived ↦ cc (rw waived at h)
      | inr due ↦ elim (Bool-cases (matches close r l.required_amount l.currency)) [
        | inr other ↦ cc (rw (due, other) at h)
        | inl equal ↦
            let (coin, sum) = matches-parts r l.required_amount l.currency equal in
            elim (Bool-cases r.is_success) [
              | inl won ↦
                  let s1 = record s {
                    licenses = update_where (license_of r.partner_id) (pay_license r) s.licenses;
                  } in
                  let done : license_paid (text_eq l.status (codes "PAID")) r s1 ≡ t =
                    cc (rw (due, equal, won) at h) in
                  let (a, b, c) =
                    subst (Keeps s1) done
                      (license_paid-Keeps (text_eq l.status (codes "PAID")) r s1) in
                  for_license l aim found due coin sum a
                    (subst (Pointwise (LicenseChange r) s.licenses) (sym b)
                      (paid-LicenseChange r s.licenses won))
                    (ap (λ rows. rows ++ (r ∷ [])) c)
              | inr lost ↦
                  let done : emit_event (codes "LICENSE_PAYMENT_FAILED") (event_key_of r) r s ≡ t =
                    cc (rw (due, equal, lost) at h) in
                  let (a, b, c) =
                    subst (Keeps s) done
                      (emit_event-Keeps (codes "LICENSE_PAYMENT_FAILED") (event_key_of r) r s) in
                  for_license l aim found due coin sum a
                    (subst (Pointwise (LicenseChange r) s.licenses) (sym b)
                      (failed-LicenseChange r s.licenses lost))
                    (ap (λ rows. rows ++ (r ∷ [])) c)
            ]
      ]
    ]

    settle_invoice-SettlesRow :
        (o : Option (BillingInvoice m)) (r : SettlementRow m) (s t : BillingStore m) (f : FollowUp)
        → r.purpose ≡ invoice
        → find (invoice_found r.invoice_id r.partner_id) s.invoices ≡ o
        → settle_invoice close o r s ≡ ok (f, t)
        → SettlesRow close r s (with_row r t)
    settle_invoice-SettlesRow none r s t f aim found h = cc
    settle_invoice-SettlesRow (some i) r s t f aim found h =
        elim (Bool-cases (matches close r i.total i.currency)) [
          | inr other ↦ cc (rw other at h)
          | inl equal ↦
              let (coin, sum) = matches-parts r i.total i.currency equal in
              elim (Bool-cases r.is_success) [
                | inl won ↦
                    let s1 = record s {
                      invoices =
                          update_where (invoice_id_is r.invoice_id) (pay_invoice r) s.invoices;
                    } in
                    let done : invoice_paid (text_eq i.status (codes "PAID")) r i s1 ≡ t =
                      cc (rw (equal, won) at h) in
                    let (a, b, c) =
                      subst (Keeps s1) done
                        (invoice_paid-Keeps (text_eq i.status (codes "PAID")) r i s1) in
                    for_invoice i aim found coin sum
                      (subst (Pointwise (InvoiceChange r) s.invoices) (sym a)
                        (paid-InvoiceChange r s.invoices won))
                      b (ap (λ rows. rows ++ (r ∷ [])) c)
                | inr lost ↦
                    let s1 = record s {
                      invoices =
                          update_where (invoice_id_is r.invoice_id) (fail_invoice r) s.invoices;
                    } in
                    let done : emit_event (codes "INVOICE_PAYMENT_FAILED") (event_key_of r) r s1
                        ≡ t =
                      cc (rw (equal, lost) at h) in
                    let (a, b, c) =
                      subst (Keeps s1) done
                        (emit_event-Keeps (codes "INVOICE_PAYMENT_FAILED") (event_key_of r) r s1) in
                    for_invoice i aim found coin sum
                      (subst (Pointwise (InvoiceChange r) s.invoices) (sym a)
                        (failed-InvoiceChange r s.invoices lost))
                      b (ap (λ rows. rows ++ (r ∷ [])) c)
              ]
        ]

    settle_purpose-SettlesRow :
        (p : Purpose) (r : SettlementRow m) (s t : BillingStore m) (f : FollowUp)
        → r.purpose ≡ p
        → settle_purpose close p r s ≡ ok (f, t)
        → SettlesRow close r s (with_row r t)
    settle_purpose-SettlesRow activation_license r s t f aim h =
        settle_license-SettlesRow (find (license_of r.partner_id) s.licenses) r s t f aim refl h
    settle_purpose-SettlesRow invoice r s t f aim h =
        settle_invoice-SettlesRow (find (invoice_found r.invoice_id r.partner_id) s.invoices) r s t
          f aim refl h

    settle_tx-SettlesRow :
        (r : SettlementRow m) (s s' : BillingStore m) (reply : SettlementReply)
        → settle_tx close r s ≡ ok (reply, s')
        → SettlesRow close r s s'
    unfolding settle_tx
    settle_tx-SettlesRow r s s' reply h =
        elim (Bool-cases (count (settles_event r.provider_event_id) s.settlements == 0)) [
          | inr before ↦
              let same : s ≡ s' = cc (rw before at h) in
              subst (SettlesRow close r s) same (unchanged refl refl refl)
          | inl fresh ↦
              let ((f, t), body, inserted) =
                >>=-eq-ok (settle_purpose close r.purpose r s) _ (rw fresh at h) in
              elim (Bool-cases (count (same_success close r) t.settlements == 0)) [
                | inr twice ↦ cc (rw twice at inserted)
                | inl first ↦
                    let done : with_row r t ≡ s' = cc (rw first at inserted) in
                    subst (SettlesRow close r s) done
                      (settle_purpose-SettlesRow r.purpose r s t f refl body)
              ]
        ]

    committed-SettlesRow :
        (r : SettlementRow m) (s : BillingStore m)
        (t : Result SettlementError (SettlementReply × BillingStore m))
        → ((reply : SettlementReply) (s' : BillingStore m)
            → t ≡ ok (reply, s')
            → SettlesRow close r s s')
        → SettlesRow close r s (committed close s t).1
    committed-SettlesRow r s (err e) h = unchanged refl refl refl
    committed-SettlesRow r s (ok (reply, s')) h = h reply s' refl

    with_purpose-IsRowOf :
        (input : SettlementInput m) (o : Option Purpose) (r : SettlementRow m)
        → read_purpose input.purpose ≡ o
        → ((text_eq (to_upper (trim_space input.status)) (codes "SUCCEEDED") ≡ true)
            × (to_upper (trim_space input.status) ≡ codes "SUCCEEDED"))
          ⊎ ((text_eq (to_upper (trim_space input.status)) (codes "SUCCEEDED") ≡ false)
              × (to_upper (trim_space input.status) ≡ codes "FAILED"))
        → with_purpose input o (text_eq (to_upper (trim_space input.status)) (codes "SUCCEEDED"))
          ≡ ok r
        → IsRowOf input r
    with_purpose-IsRowOf input none r aim won h = cc
    with_purpose-IsRowOf input (some p) r aim won h =
        let row = result_or r (
          with_purpose input (some p)
            (text_eq (to_upper (trim_space input.status)) (codes "SUCCEEDED"))) in
        let same : row ≡ r = ap (result_or r) h in
        subst (IsRowOf input) same (record {
          attempt_id = refl;
          partner_id = refl;
          invoice_id = refl;
          amount = refl;
          currency = refl;
          provider_event_id = refl;
          outcome = won;
          purpose = read_purpose-word input.purpose p aim;
        })

    check_settlement-IsRowOf :
        (input : SettlementInput m) (r : SettlementRow m)
        → check_settlement input ≡ ok r
        → IsRowOf input r
    unfolding check_settlement
    check_settlement-IsRowOf input r h =
        let status = to_upper (trim_space input.status) in
        let bad =
          is_empty (trim_space input.attempt_id)
          || is_empty (trim_space input.partner_id)
          || is_empty (trim_space input.provider_event_id)
          || is_empty (trim_space input.provider_payment_id)
          || not (m.is_positive input.amount)
          || not (byte_len (to_upper (trim_space input.currency)) == 3)
          || (not (text_eq status (codes "SUCCEEDED")) && not (text_eq status (codes "FAILED"))) in
        let (fine, h1) = reject_if-eq-ok bad validation _ h in
        with_purpose-IsRowOf input (read_purpose input.purpose) r refl
          (status_word status (ground arith)) h1

    settle_checked-Settles :
        (c : Result SettlementError (SettlementRow m)) (input : SettlementInput m)
        (s : BillingStore m)
        → check_settlement input ≡ c
        → Settles close (some input) s (settle_checked close c s).1
    settle_checked-Settles (err e) input s checked = refuses refl
    settle_checked-Settles (ok r) input s checked =
        by_row input r refl (check_settlement-IsRowOf input r checked) (
          committed-SettlesRow r s (settle_tx close r s)
            (λ reply s' h. settle_tx-SettlesRow r s s' reply h))

    -- Whatever is posted, invoices, licenses and settlements stay as they are, or the row of the body is recorded as
    -- one more settlement, for a license that is not waived or an invoice of its partner, with the amount and
    -- the currency of what it settles. The license or the invoice becomes PAID only if the body's status is
    -- SUCCEEDED; if it is FAILED, each keeps its status, and every other license and invoice stays as it is.
    pub payment_settlement-Settles :
        (post : Bool) (body : Option (SettlementInput m)) (s : BillingStore m)
        → Settles close body s (payment_settlement close post body s).1
    unfolding payment_settlement
    payment_settlement-Settles false body s = refuses refl
    payment_settlement-Settles true none s = refuses refl
    payment_settlement-Settles true (some input) s =
        settle_checked-Settles (check_settlement input) input s refl
