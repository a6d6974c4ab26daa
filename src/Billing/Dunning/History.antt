-- ===== src/Billing/Dunning/History.antt =====
-- services/cmd/billing/dunning.go and payment_provider.go: the dunning over any sequence of cycles, settlements and
-- collections.
use himate_system.Base.{
  ℕ, ◌≤◌, ◌≡◌, refl, arith, false, not, ◌&&◌, List, [], ◌∷◌, All, Text, codes, text_eq, Unicode,
}
use himate_system.Payments.{Money}
use himate_system.Billing.{BillingInvoice, invoice_id_is}
use himate_system.Billing.Settlement.{FollowUp, nothing, recover, clear_dunning, suspend}
use himate_system.Billing.Dunning.{DunningStore, Services}
use himate_system.Billing.Dunning.Steps.{dunning_state_is, with_state}
use himate_system.Billing.Dunning.Collect.{queue_invoice_collection, follow}
use himate_system.Billing.Dunning.Cycle.{
  collect_all, pending_rows, retry_pending_invoice_collections, archive_expired_dunning,
  run_dunning_cycle,
}
use himate_system.Billing.Dunning.Keeps.{
  Good, Keeps, Rules, ids_of, update_invoices-Keeps, mark_past_due-Keeps,
  suspend_for_non_payment-Keeps, recover_dunning_payment-Keeps,
}
use himate_system.Billing.Dunning.Keeps.Cycle.{ChargeRules, queue_invoice_collection-Keeps}
use himate_system.Billing.Dunning.Keeps.Archive.{
  archive_expired_dunning-Keeps, expired_rows-All, run_dunning_cycle-Good,
}
use himate_system.Billing.Dunning.Dated.{
  Unique, OnTime, OnTime-Rules, OnTime-ChargeRules, OnTime-allowed, archive_expired_dunning-OnTime,
  other_state,
}
use himate_system.Billing.Dunning.Final.{FewAttempts, FewAttempts-Rules, FewAttempts-ChargeRules}

module _ {m : Money} ⦃u : Unicode⦄ (services : Services m) (since at : ℕ) where
  -- What happens to the store from the day `since` to the day `at`: a cycle, also one that fails midway, what a
  -- settlement calls, the charge of an invoice, and the retries of charges that did not reach the payment service.
  pub data Event : DunningStore m → DunningStore m → Type 0 where
    cycled :
        (now date : ℕ) (s : DunningStore m)
        → (since ≤ now) × (now ≤ at)
        → (since ≤ date) × (date ≤ at)
        → Event s (run_dunning_cycle services now date s).1
    settled :
        (now : ℕ) (next : FollowUp) (id partner : Text) (attempts : ℕ) (s : DunningStore m)
        → (since ≤ now) × (now ≤ at)
        → Event s (follow services now next id partner attempts s)
    collected :
        (now : ℕ) (id partner currency : Text) (total : m.Amount) (s : DunningStore m)
        → (since ≤ now) × (now ≤ at)
        → Event s (queue_invoice_collection services now id partner currency total s)
    retried :
        (now : ℕ) (s : DunningStore m)
        → (since ≤ now) × (now ≤ at)
        → Event s (retry_pending_invoice_collections services now s)

  pub data Reaches (s : DunningStore m) : DunningStore m → Type 0 where
    start : Reaches s s
    then_event : {t v : DunningStore m} → Reaches s t → Event t v → Reaches s v

module _ {m : Money} (P : BillingInvoice m → Type 0) (keys : List Text) ⦃u : Unicode⦄
    (services : Services m) (rules : Rules P) (charges : ChargeRules P)
    (cleared : (i : BillingInvoice m)
      → dunning_state_is (codes "PURGED") i ≡ false
      → P i
      → P (with_state (codes "NONE") i)) where
  follow-Good :
      (now : ℕ) (next : FollowUp) (id partner : Text) (attempts : ℕ) (s : DunningStore m)
      → rules.allowed now
      → Good P keys s.invoices
      → Good P keys (follow services now next id partner attempts s).invoices
  unfolding follow
  follow-Good now nothing id partner attempts s fit h = h
  follow-Good now recover id partner attempts s fit h =
      recover_dunning_payment-Keeps P keys services rules id partner now s h
  follow-Good now clear_dunning id partner attempts s fit h =
      update_invoices-Keeps P keys
        (λ i. invoice_id_is id i && not (dunning_state_is (codes "PURGED") i))
        (with_state (codes "NONE")) (λ i. refl) (λ i hit. cleared i (ground (arith, hit))) s h
  follow-Good now suspend id partner attempts s fit h =
      suspend_for_non_payment-Keeps P keys services rules id partner now fit s h
  follow-Good now FollowUp.mark_past_due id partner attempts s fit h =
      mark_past_due-Keeps P keys services rules id partner attempts s h

  collect_all-Good :
      (now : ℕ) (xs : List (BillingInvoice m)) (s : DunningStore m)
      → rules.allowed now
      → Good P keys s.invoices
      → Good P keys (collect_all services now xs s).invoices
  collect_all-Good now [] s fit h = h
  collect_all-Good now (x ∷ xs) s fit h =
      collect_all-Good now xs
        (queue_invoice_collection services now x.id x.partner_id x.currency x.total s) fit
        (queue_invoice_collection-Keeps P keys services rules charges now fit x.id x.partner_id
          x.currency x.total s h)

  retry-Good :
      (now : ℕ) (s : DunningStore m)
      → rules.allowed now
      → Good P keys s.invoices
      → Good P keys (retry_pending_invoice_collections services now s).invoices
  unfolding retry_pending_invoice_collections
  retry-Good now s = collect_all-Good now (pending_rows services s) s

  -- What the archives keep is kept by a whole history.
  Reaches-Good :
      (since at : ℕ)
      → ((day : ℕ) → (since ≤ day) × (day ≤ at) → rules.allowed day)
      → ((now date : ℕ) → date ≤ at → Keeps P keys (archive_expired_dunning services now date))
      → {s t : DunningStore m} → Good P keys s.invoices
      → Reaches services since at s t
      → Good P keys t.invoices
  Reaches-Good since at fits archive h start = h
  Reaches-Good since at fits archive h (then_event before (cycled now date s when past)) =
      run_dunning_cycle-Good P services rules charges keys now date (fits now when) (fits date past)
        (archive now date past.1) s (Reaches-Good since at fits archive h before)
  Reaches-Good since at fits archive h
        (then_event before (settled now next id partner attempts s when)) =
      follow-Good now next id partner attempts s (fits now when)
        (Reaches-Good since at fits archive h before)
  Reaches-Good since at fits archive h
        (then_event before (collected now id partner currency total s when)) =
      queue_invoice_collection-Keeps P keys services rules charges now (fits now when) id partner
        currency total s (Reaches-Good since at fits archive h before)
  Reaches-Good since at fits archive h (then_event before (retried now s when)) =
      retry-Good now s (fits now when) (Reaches-Good since at fits archive h before)

module _ {m : Money} ⦃u : Unicode⦄ (services : Services m) where
  -- Cycles, settlements and collections on the days from `since` to `at`, in any order and whatever the other services
  -- answer, keep the dates of the dunning in a database whose invoices have distinct ids. If at first every
  -- SUSPENDED or PURGED invoice carries dates that fit, so at the end does each: a SUSPENDED one was suspended
  -- on a day from `since` to `at` and is to be purged 30 days after that day, and a PURGED one was suspended on a
  -- day from `since` on and at least 30 days before `at`. So where no invoice is SUSPENDED or PURGED at first,
  -- each suspension carries a day of these events, and nothing is purged until 30 days after `since`.
  pub Reaches-OnTime :
      (since at : ℕ) {s t : DunningStore m}
      → Unique (ids_of s.invoices)
      → All (OnTime since at) s.invoices
      → Reaches services since at s t
      → All (OnTime since at) t.invoices
  unfolding text_eq
  Reaches-OnTime since at {s} unique h history =
      (Reaches-Good (OnTime since at) (ids_of s.invoices) services (OnTime-Rules since at)
        (OnTime-ChargeRules since at) (λ i open_state t. other_state (codes "NONE") refl refl) since
        at (OnTime-allowed m since at)
        (λ now date past.
          archive_expired_dunning-OnTime services (ids_of s.invoices) now date since at past unique)
        (h, refl) history).0

  -- The counter of charges of an invoice never passes three: neither a cycle nor the charge of an
  -- invoice that is sent nor a settlement takes it further, whatever the payment service answers.
  pub Reaches-FewAttempts :
      (since at : ℕ) {s t : DunningStore m}
      → All FewAttempts s.invoices
      → Reaches services since at s t
      → All FewAttempts t.invoices
  Reaches-FewAttempts since at {s} h history =
      (Reaches-Good FewAttempts (ids_of s.invoices) services FewAttempts-Rules
        FewAttempts-ChargeRules (λ i open_state few. few) since at (λ day within. tt)
        (λ now date past s' h'.
          archive_expired_dunning-Keeps FewAttempts (ids_of s.invoices) services now date s'
            (expired_rows-All FewAttempts _ services date s' (λ x expired p i same few. few) h'.0)
            h')
        (h, refl) history).0
