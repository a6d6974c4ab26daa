-- ===== src/Billing/Dunning/Keeps/Archive.antt =====
-- services/cmd/billing/dunning.go, archiveExpiredDunning and runDunningCycle: what they keep of every invoice.
use himate_system.Base.{
  ℕ, ◌≡◌, refl, true, List, [], select, sort_by, All, All-map, All-select, All-sort_by, All-take,
  Text, codes, Unicode,
}
use himate_system.Payments.{Money}
use himate_system.Billing.{BillingInvoice, invoice_id_is}
use himate_system.Billing.Dunning.{
  DunningStore, Services, ◌>>◌, set_entitlements, catalog_failed, purge_access, partners_failed,
}
use himate_system.Billing.Dunning.Steps.{set_plan_entitlements}
use himate_system.Billing.Dunning.Cycle.{
  archive_invoice, archive_expired_dunning, for_each, dun_row, dunning_rows, run_dunning_cycle,
  expired_rows, is_expired, purged_on, archive_limit, purge_partner_access, close_service,
  close_plan, mark_purged,
}
use himate_system.Billing.Dunning.Keeps.{
  Good, Keeps, ids_of, Rules, >>-Keeps, update_invoices-Keeps, require-Keeps, notify_dunning-Keeps,
}
use himate_system.Billing.Dunning.Keeps.Cycle.{ChargeRules, for_each-Keeps, dunning-Keeps}

module _ {m : Money} (P : BillingInvoice m → Type 0) (keys : List Text) ⦃u : Unicode⦄
    (services : Services m) where
  close_service-Keeps : (x : BillingInvoice m) → Keeps P keys (close_service services x)
  close_service-Keeps x =
      >>-Keeps P keys (set_plan_entitlements services x.partner_id x.plan_key [])
        (purge_partner_access services x.partner_id)
        (require-Keeps P keys services (set_entitlements x.partner_id x.plan_key []) catalog_failed)
        (require-Keeps P keys services (purge_access x.partner_id) partners_failed)

  mark_purged-Keeps :
      (now : ℕ) (x : BillingInvoice m)
      → ((i : BillingInvoice m) → invoice_id_is x.id i ≡ true → P i → P (purged_on now i))
      → Keeps P keys (mark_purged services now x)
  mark_purged-Keeps now x keep s h =
      notify_dunning-Keeps P keys services (codes "PARTNER_OPERATIONAL_ACCOUNT_PURGED") x.partner_id
        x.id _
        (update_invoices-Keeps P keys (invoice_id_is x.id) (purged_on now) (λ i. refl) keep s h)

  archive_invoice-Keeps :
      (now : ℕ) (x : BillingInvoice m)
      → ((i : BillingInvoice m) → invoice_id_is x.id i ≡ true → P i → P (purged_on now i))
      → Keeps P keys (archive_invoice services now x)
  unfolding archive_invoice
  archive_invoice-Keeps now x keep =
      >>-Keeps P keys (close_service services x >> close_plan services x)
        (mark_purged services now x)
        (>>-Keeps P keys (close_service services x) (close_plan services x) (close_service-Keeps x)
          (λ s h. h))
        (mark_purged-Keeps now x keep)

  -- The archive keeps what the purge of each of its rows keeps.
  pub archive_expired_dunning-Keeps :
      (now at : ℕ) (s : DunningStore m)
      → All
          (λ x. (i : BillingInvoice m) → invoice_id_is x.id i ≡ true → P i → P (purged_on now i))
          (expired_rows services at s)
      → Good P keys s.invoices
      → Good P keys (archive_expired_dunning services now at s).1.invoices
  unfolding archive_expired_dunning
  archive_expired_dunning-Keeps now at s keep h =
      for_each-Keeps P keys (archive_invoice services now) (expired_rows services at s)
        (All-map _ _ (expired_rows services at s) (λ x. archive_invoice-Keeps now x) keep) s h

module _ {m : Money} (P Q : BillingInvoice m → Type 0) ⦃u : Unicode⦄ (services : Services m) where
  -- What the query for expired rows finds has its test, and what all rows have.
  pub expired_rows-All :
      (at : ℕ) (s : DunningStore m)
      → ((x : BillingInvoice m) → is_expired at x ≡ true → P x → Q x)
      → All P s.invoices
      → All Q (expired_rows services at s)
  expired_rows-All at s give h =
      All-take Q archive_limit (sort_by _ (select (is_expired at) s.invoices)) (
        All-sort_by Q _ (select (is_expired at) s.invoices)
          (All-select P Q (is_expired at) s.invoices give h))

module _ {m : Money} (P : BillingInvoice m → Type 0) ⦃u : Unicode⦄ (services : Services m)
    (rules : Rules P) (charges : ChargeRules P) where
  -- A cycle keeps what its writes keep and its archive keeps.
  pub run_dunning_cycle-Good :
      (keys : List Text) (now at : ℕ)
      → rules.allowed now
      → rules.allowed at
      → Keeps P keys (archive_expired_dunning services now at)
      → Keeps P keys (run_dunning_cycle services now at)
  unfolding run_dunning_cycle
  run_dunning_cycle-Good keys now at fit fit' archive s h =
      >>-Keeps P keys (for_each (dun_row services now at) (dunning_rows services s))
        (archive_expired_dunning services now at)
        (dunning-Keeps P keys services rules charges now at fit fit' (dunning_rows services s))
        archive s h

  -- So it keeps what the purge of an expired row keeps.
  pub run_dunning_cycle-All :
      (now at : ℕ) (s : DunningStore m)
      → rules.allowed now
      → rules.allowed at
      → ((x : BillingInvoice m)
          → is_expired at x ≡ true
          → P x
          → (i : BillingInvoice m) → invoice_id_is x.id i ≡ true
          → P i
          → P (purged_on now i))
      → All P s.invoices
      → All P (run_dunning_cycle services now at s).1.invoices
  run_dunning_cycle-All now at s fit fit' purge h =
      (run_dunning_cycle-Good (ids_of s.invoices) now at fit fit'
        (λ s' h'.
          archive_expired_dunning-Keeps P (ids_of s.invoices) services now at s'
            (expired_rows-All P _ services at s' purge h'.0) h')
        s (h, refl)).0
