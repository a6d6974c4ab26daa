-- ===== src/Billing/Dunning/Cycle.antt =====
-- services/cmd/billing/dunning.go, archiveExpiredDunning and runDunningCycle; `now` is the day of the clock, which
-- a charge reads, and `at` the day for which the cycle runs.
use himate_system.Base.{
  ℕ, ◌==◌, ltb, leb, Bool, true, false, not, ◌&&◌, ◌||◌, Option, none, some, List, [], ◌∷◌,
  if◌then◌else◌, select, delete_where, sort_by, take, find, ok, Text, codes, text_eq, Unicode,
}
use himate_system.Payments.{Money}
use himate_system.Billing.{BillingInvoice, invoice_id_is}
use himate_system.Billing.Settlement.{dunning_max_attempts}
use himate_system.Billing.Dunning.{
  PlanSubscription, ModuleSelection, purge_access, DunningStore, invoice_missing, partners_failed,
  Services, Step, collection_retry_due, done, fail, ◌>>◌, update_invoices, update_subscriptions,
  require, is_failed_charge,
}
use himate_system.Billing.Dunning.Steps.{
  dunning_state_is, plan_of, set_plan_entitlements, notify_dunning, mark_past_due,
  suspend_for_non_payment, recover_dunning_payment,
}
use himate_system.Billing.Dunning.Collect.{queue_invoice_collection}

abbrev pub is_none : Option ℕ → Bool
is_none none = true
is_none (some day) = false

-- `purge_due_at IS NOT NULL AND purge_due_at<=$1`
abbrev pub due_by : ℕ → Option ℕ → Bool
due_by at none = false
due_by at (some due) = leb due at

abbrev pub day_or_first : Option ℕ → ℕ
day_or_first none = 0
day_or_first (some day) = day

abbrev pub retry_limit : ℕ
retry_limit = 500

abbrev pub archive_limit : ℕ
archive_limit = 200

-- `ORDER BY day,id`
abbrev pub by_day : (Text → Text → Bool) → ℕ → ℕ → Text → Text → Bool
by_day before a b first second = if ltb a b then true else a == b && before first second

module _ {m : Money} where
  abbrev pub is_expired : ℕ → BillingInvoice m → Bool
  is_expired at i =
      dunning_state_is (codes "SUSPENDED") i
      && due_by at i.purge_due_at
      && is_none i.operational_purged_at

  abbrev pub by_purge_due : (Text → Text → Bool) → BillingInvoice m → BillingInvoice m → Bool
  by_purge_due before a b =
      by_day before (day_or_first a.purge_due_at) (day_or_first b.purge_due_at) a.id b.id

  abbrev pub by_invoice_date : (Text → Text → Bool) → BillingInvoice m → BillingInvoice m → Bool
  by_invoice_date before a b = by_day before a.invoice_date b.invoice_date a.id b.id

  abbrev pub purged_on : ℕ → BillingInvoice m → BillingInvoice m
  purged_on now i = record i { dunning_state = codes "PURGED"; operational_purged_at = some now }

  -- The rows that a cycle looks at.
  abbrev pub in_dunning : BillingInvoice m → Bool
  in_dunning i =
      text_eq i.billing_model (codes "PLAN")
      && (text_eq i.charge_type (codes "PLAN_MONTHLY")
          || text_eq i.charge_type (codes "PLAN_ANNUAL_RENEWAL"))
      && (text_eq i.workflow_status (codes "SENT") || text_eq i.workflow_status (codes "PAID"))
      && not (dunning_state_is (codes "PURGED") i)
      && is_none i.operational_purged_at

  -- `status<>'PAID' AND provider_status='COLLECTION_PENDING'`
  abbrev pub awaits_collection : BillingInvoice m → Bool
  awaits_collection i =
      not (text_eq i.status (codes "PAID"))
      && text_eq i.provider_status (codes "COLLECTION_PENDING")

  -- A loop that stops at the first error.
  unfoldable pub for_each :
      (BillingInvoice m → Step m (Unit {0})) → List (BillingInvoice m) → Step m (Unit {0})
  for_each body [] = done
  for_each body (x ∷ xs) = body x >> for_each body xs

abbrev pub cancelled_plan : PlanSubscription → PlanSubscription
cancelled_plan p = record p {
  status = codes "CANCELLED";
  next_plan_key = [];
  next_billing_frequency = [];
  change_effective_at = none;
}

module _ {m : Money} ⦃u : Unicode⦄ (services : Services m) where
  -- purgePartnerOperationalAccess
  abbrev pub purge_partner_access : Text → Step m (Unit {0})
  purge_partner_access partner = require services (purge_access partner) partners_failed

  abbrev pub delete_selections : Text → Step m (Unit {0})
  delete_selections partner s = (
    ok tt,
    record s {
      selections = delete_where (λ (r : ModuleSelection). text_eq r.owner partner) s.selections;
    },
  )

  abbrev pub close_service : BillingInvoice m → Step m (Unit {0})
  close_service x =
      set_plan_entitlements services x.partner_id x.plan_key [] >> purge_partner_access x.partner_id

  abbrev pub close_plan : BillingInvoice m → Step m (Unit {0})
  close_plan x =
      update_subscriptions (plan_of x.partner_id) cancelled_plan >> delete_selections x.partner_id

  abbrev pub mark_purged : ℕ → BillingInvoice m → Step m (Unit {0})
  mark_purged now x =
      update_invoices (invoice_id_is x.id) (purged_on now)
      >> notify_dunning services (codes "PARTNER_OPERATIONAL_ACCOUNT_PURGED") x.partner_id x.id

  -- The body of archiveExpiredDunning's loop.
  unfoldable pub archive_invoice : ℕ → BillingInvoice m → Step m (Unit {0})
  unfolding notify_dunning
  archive_invoice now x = close_service x >> close_plan x >> mark_purged now x

  abbrev pub expired_rows : ℕ → DunningStore m → List (BillingInvoice m)
  expired_rows at s =
      take archive_limit
        (sort_by (by_purge_due services.before) (select (is_expired at) s.invoices))

  -- archiveExpiredDunning
  unfoldable pub archive_expired_dunning : ℕ → ℕ → Step m (Unit {0})
  unfolding archive_invoice for_each
  archive_expired_dunning now at s = for_each (archive_invoice now) (expired_rows at s) s

  abbrev pub collect_all : ℕ → List (BillingInvoice m) → DunningStore m → DunningStore m
  collect_all now [] s = s
  collect_all now (x ∷ xs) s =
      collect_all now xs
        (queue_invoice_collection services now x.id x.partner_id x.currency x.total s)

  abbrev pub pending_rows : DunningStore m → List (BillingInvoice m)
  pending_rows s =
      take retry_limit
        (sort_by (by_invoice_date services.before) (select awaits_collection s.invoices))

  -- retryPendingInvoiceCollections
  unfoldable pub retry_pending_invoice_collections : ℕ → DunningStore m → DunningStore m
  retry_pending_invoice_collections now s = collect_all now (pending_rows s) s

  abbrev pub collect_row : ℕ → BillingInvoice m → Option (BillingInvoice m) → Step m (Unit {0})
  collect_row now x none s = fail invoice_missing s
  collect_row now x (some i) s =
      (ok tt, queue_invoice_collection services now x.id x.partner_id i.currency i.total s)

  abbrev pub retry_row : ℕ → ℕ → BillingInvoice m → Step m (Unit {0})
  retry_row now at x s =
      if collection_retry_due x.invoice_date at x.collection_attempts
      then collect_row now x (find (invoice_id_is x.id) s.invoices) s
      else done s

  abbrev pub past_due_row : BillingInvoice m → Step m (Unit {0})
  past_due_row x s =
      if ltb 0 x.collection_attempts
      then mark_past_due services x.id x.partner_id x.collection_attempts s
      else done s

  -- An invoice that was paid, and one whose last charge failed.
  abbrev pub paid_row : ℕ → BillingInvoice m → Step m (Unit {0})
  paid_row at x s =
      if dunning_state_is (codes "PAST_DUE") x || dunning_state_is (codes "SUSPENDED") x
      then recover_dunning_payment services x.id x.partner_id at s
      else done s

  abbrev pub failed_row : ℕ → ℕ → BillingInvoice m → Step m (Unit {0})
  failed_row now at x s =
      if leb dunning_max_attempts x.collection_attempts
      then suspend_for_non_payment services x.id x.partner_id at s
      else (past_due_row x >> retry_row now at x) s

  -- The body of runDunningCycle's loop, on what the query read of the row.
  unfoldable pub dun_row : ℕ → ℕ → BillingInvoice m → Step m (Unit {0})
  dun_row now at x s =
      if text_eq x.status (codes "PAID")
      then paid_row at x s
      else if is_failed_charge x.provider_status
      then failed_row now at x s
      else done s

  abbrev pub dunning_rows : DunningStore m → List (BillingInvoice m)
  dunning_rows s = sort_by (by_invoice_date services.before) (select in_dunning s.invoices)

  -- runDunningCycle
  unfoldable pub run_dunning_cycle : ℕ → ℕ → Step m (Unit {0})
  unfolding dun_row for_each archive_expired_dunning
  run_dunning_cycle now at s =
      (for_each (dun_row now at) (dunning_rows s) >> archive_expired_dunning now at) s
