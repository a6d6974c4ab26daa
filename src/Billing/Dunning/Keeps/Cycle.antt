-- ===== src/Billing/Dunning/Keeps/Cycle.antt =====
-- services/cmd/billing/dunning.go and payment_provider.go: what a charge, a settlement's follow-up and a whole
-- cycle keep of every invoice.
use himate_system.Base.{
  ℕ, ◌==◌, ltb, leb, ◌≤◌, ◌≡◌, refl, arith, inl, inr, Bool, false, not, ◌&&◌, ◌||◌, Bool-cases,
  Option, none, some, List, [], ◌∷◌, if◌then◌else◌, find, All, All-every, Result, ok, err, Text,
  codes, text_eq, Unicode,
}
use himate_system.Payments.{Money}
use himate_system.Billing.{BillingInvoice, invoice_id_is}
use himate_system.Billing.Settlement.{dunning_max_attempts}
use himate_system.Billing.Dunning.{
  DunningStore, DunningError, ChargeAnswer, Services, Step, is_failed_charge, collection_retry_due,
}
use himate_system.Billing.Dunning.Steps.{dunning_state_is, is_unpaid}
use himate_system.Billing.Dunning.Collect.{
  attempted, charged_as, with_provider_status, mark_collection_attempt, request_payment_charge,
  attempt_made, attempt_failed, after_charge, attempt_number, charge_key, collect_with,
  collect_found, queue_invoice_collection, collection_approved, eligible_row,
}
use himate_system.Billing.Dunning.Cycle.{
  paid_row, failed_row, for_each, dun_row, past_due_row, retry_row, collect_row,
}
use himate_system.Billing.Dunning.Keeps.{
  Good, Keeps, Rules, >>-Keeps, update_invoices-Keeps, mark_past_due-Keeps,
  suspend_for_non_payment-Keeps, recover_dunning_payment-Keeps,
}

module _ {m : Money} (P : BillingInvoice m → Type 0) where
  -- What a charge writes: of an attempt only the number is bounded, and its state is one of two.
  pub record ChargeRules : Type 0 where
    pub attempted :
        (i : BillingInvoice m) (attempt : ℕ) (failed : Bool) (c : ChargeAnswer)
        → attempt ≤ dunning_max_attempts
        → P i
        → P (attempted attempt (if failed then codes "PAST_DUE" else codes "COLLECTING") c i)
    pub charged : (i : BillingInvoice m) (c : ChargeAnswer) → P i → P (charged_as c i)
    pub pending : (i : BillingInvoice m) (status : Text) → P i → P (with_provider_status status i)

module _ {m : Money} (P : BillingInvoice m → Type 0) (keys : List Text) where
  pub for_each-Keeps :
      (body : BillingInvoice m → Step m (Unit {0})) (xs : List (BillingInvoice m))
      → All (λ x. Keeps P keys (body x)) xs
      → Keeps P keys (for_each body xs)
  unfolding for_each
  for_each-Keeps body [] keep s h = h
  for_each-Keeps body (x ∷ xs) keep s h =
      >>-Keeps P keys (body x) (for_each body xs) keep.0 (for_each-Keeps body xs keep.1) s h

  module _ ⦃u : Unicode⦄ (services : Services m) (rules : Rules P) (charges : ChargeRules P) where
    mark_collection_attempt-Keeps :
        (id : Text) (attempt : ℕ) (c : ChargeAnswer)
        → attempt ≤ dunning_max_attempts
        → Keeps P keys (mark_collection_attempt id attempt c)
    unfolding mark_collection_attempt
    mark_collection_attempt-Keeps id attempt c bound =
        update_invoices-Keeps P keys _ _ (λ i. refl)
          (λ i hit. charges.attempted i attempt (is_failed_charge c.status) c bound)

    attempt_failed-Keeps :
        (now : ℕ) (fit : rules.allowed now) (attempt : ℕ) (id partner : Text) (s : DunningStore m)
        → Good P keys s.invoices
        → Good P keys (attempt_failed services now attempt id partner s).invoices
    attempt_failed-Keeps now fit attempt id partner s h =
        elim (Bool-cases (leb dunning_max_attempts attempt)) [
          | inl last ↦
              rw last (suspend_for_non_payment-Keeps P keys services rules id partner now fit s h)
          | inr more ↦ rw more (mark_past_due-Keeps P keys services rules id partner attempt s h)
        ]

    attempt_made-Keeps :
        (now : ℕ) (fit : rules.allowed now) (attempt : ℕ) (id partner : Text) (c : ChargeAnswer)
        (s : DunningStore m)
        → attempt ≤ dunning_max_attempts
        → Good P keys s.invoices
        → Good P keys (attempt_made services now attempt id partner c s).invoices
    attempt_made-Keeps now fit attempt id partner c s bound h =
        let marked = mark_collection_attempt-Keeps id attempt c bound s h in
        elim (Bool-cases
          (text_eq c.status (codes "FAILED") || text_eq c.status (codes "REQUIRES_ACTION"))) [
            | inl failed ↦ rw failed (attempt_failed-Keeps now fit attempt id partner _ marked)
            | inr open_charge ↦ rw open_charge marked
          ]

    after_charge-Keeps :
        (now : ℕ) (fit : rules.allowed now) (attempt : ℕ) (id partner : Text)
        (r : Result DunningError ChargeAnswer × DunningStore m)
        → attempt ≤ dunning_max_attempts
        → Good P keys r.1.invoices
        → Good P keys (after_charge services now attempt id partner r).invoices
    unfolding after_charge
    after_charge-Keeps now fit attempt id partner (err failure, s) bound h =
        update_invoices-Keeps P keys (is_unpaid id)
          (with_provider_status (codes "COLLECTION_PENDING")) (λ i. refl)
          (λ i hit. charges.pending i (codes "COLLECTION_PENDING")) s h
    after_charge-Keeps now fit attempt id partner (ok c, s) bound h =
        elim (Bool-cases (attempt == 0)) [
          | inl single ↦ rw single (
              update_invoices-Keeps P keys (is_unpaid id) (charged_as c) (λ i. refl)
                (λ i hit. charges.charged i c) s h)
          | inr counted ↦ rw counted (attempt_made-Keeps now fit attempt id partner c s bound h)
        ]

    request_payment_charge-Keeps :
        (partner id : Text) (total : m.Amount) (currency key : Text)
        → Keeps P keys (request_payment_charge services partner id total currency key)
    unfolding request_payment_charge
    request_payment_charge-Keeps partner id total currency key s h = ground arith

    collect_with-Keeps :
        (now : ℕ) (fit : rules.allowed now) (id partner currency : Text) (total : m.Amount)
        (i : BillingInvoice m) (s : DunningStore m)
        → (eligible_row services i && leb dunning_max_attempts i.collection_attempts) ≡ false
        → Good P keys s.invoices
        → Good P keys
            (collect_with services now id partner currency total
              (attempt_number services i)
              s).invoices
    collect_with-Keeps now fit id partner currency total i s few h =
        let key = charge_key services id (attempt_number services i) in
        after_charge-Keeps now fit (attempt_number services i) id partner
          (request_payment_charge services partner id total currency key s) (ground (arith, few))
          (request_payment_charge-Keeps partner id total currency key s h)

    collect_found-Keeps :
        (now : ℕ) (fit : rules.allowed now) (id partner currency : Text) (total : m.Amount)
        (o : Option (BillingInvoice m)) (s : DunningStore m)
        → Good P keys s.invoices
        → Good P keys (collect_found services now id partner currency total o s).invoices
    unfolding collect_found
    collect_found-Keeps now fit id partner currency total none s h = h
    collect_found-Keeps now fit id partner currency total (some i) s h =
        elim (Bool-cases (not (collection_approved services i))) [
          | inl not_sent ↦ rw not_sent h
          | inr approved ↦
              rw approved
                (elim (Bool-cases
                  (eligible_row services i && leb dunning_max_attempts i.collection_attempts)) [
                    | inl used_up ↦ rw used_up h
                    | inr few ↦
                        rw few (collect_with-Keeps now fit id partner currency total i s few h)
                  ])
        ]

    pub queue_invoice_collection-Keeps :
        (now : ℕ) (fit : rules.allowed now) (id partner currency : Text) (total : m.Amount)
        (s : DunningStore m)
        → Good P keys s.invoices
        → Good P keys (queue_invoice_collection services now id partner currency total s).invoices
    unfolding queue_invoice_collection
    queue_invoice_collection-Keeps now fit id partner currency total s =
        collect_found-Keeps now fit id partner currency total (find (invoice_id_is id) s.invoices) s

    collect_row-Keeps :
        (now : ℕ) (fit : rules.allowed now) (x : BillingInvoice m) (o : Option (BillingInvoice m))
        → Keeps P keys (collect_row services now x o)
    collect_row-Keeps now fit x none s h = h
    collect_row-Keeps now fit x (some i) s h =
        queue_invoice_collection-Keeps now fit x.id x.partner_id i.currency i.total s h

    retry_row-Keeps :
        (now at : ℕ) (fit : rules.allowed now) (fit' : rules.allowed at) (x : BillingInvoice m)
        → Keeps P keys (retry_row services now at x)
    retry_row-Keeps now at fit fit' x s h =
        elim (Bool-cases (collection_retry_due x.invoice_date at x.collection_attempts)) [
          | inl due ↦
              rw due (collect_row-Keeps now fit x (find (invoice_id_is x.id) s.invoices) s h)
          | inr early ↦ rw early h
        ]

    past_due_row-Keeps : (x : BillingInvoice m) → Keeps P keys (past_due_row services x)
    past_due_row-Keeps x s h = elim (Bool-cases (ltb 0 x.collection_attempts)) [
      | inl counted ↦
          rw counted
            (mark_past_due-Keeps P keys services rules x.id x.partner_id x.collection_attempts s h)
      | inr none_yet ↦ rw none_yet h
    ]

    paid_row-Keeps : (at : ℕ) (x : BillingInvoice m) → Keeps P keys (paid_row services at x)
    paid_row-Keeps at x s h =
        elim (Bool-cases
          (dunning_state_is (codes "PAST_DUE") x || dunning_state_is (codes "SUSPENDED") x)) [
            | inl behind ↦
                rw behind
                  (recover_dunning_payment-Keeps P keys services rules x.id x.partner_id at s h)
            | inr fine ↦ rw fine h
          ]

    failed_row-Keeps :
        (now at : ℕ) (fit : rules.allowed now) (fit' : rules.allowed at) (x : BillingInvoice m)
        → Keeps P keys (failed_row services now at x)
    failed_row-Keeps now at fit fit' x s h =
        elim (Bool-cases (leb dunning_max_attempts x.collection_attempts)) [
          | inl last ↦
              rw last
                (suspend_for_non_payment-Keeps P keys services rules x.id x.partner_id at fit' s h)
          | inr more ↦ rw more (
              >>-Keeps P keys (past_due_row services x) (retry_row services now at x)
                (past_due_row-Keeps x) (retry_row-Keeps now at fit fit' x) s h)
        ]

    pub dun_row-Keeps :
        (now at : ℕ) (fit : rules.allowed now) (fit' : rules.allowed at) (x : BillingInvoice m)
        → Keeps P keys (dun_row services now at x)
    unfolding dun_row
    dun_row-Keeps now at fit fit' x s h = elim (Bool-cases (text_eq x.status (codes "PAID"))) [
      | inl paid ↦ rw paid (paid_row-Keeps at x s h)
      | inr unpaid ↦ rw unpaid (elim (Bool-cases (is_failed_charge x.provider_status)) [
        | inl failed ↦ rw failed (failed_row-Keeps now at fit fit' x s h)
        | inr open_charge ↦ rw open_charge h
      ])
    ]

    pub dunning-Keeps :
        (now at : ℕ) (fit : rules.allowed now) (fit' : rules.allowed at)
        (xs : List (BillingInvoice m))
        → Keeps P keys (for_each (dun_row services now at) xs)
    dunning-Keeps now at fit fit' xs = for_each-Keeps (dun_row services now at) xs (
        All-every (λ x. Keeps P keys (dun_row services now at x)) xs
          (dun_row-Keeps now at fit fit'))
