-- ===== src/Billing/Dunning.antt =====
-- services/cmd/billing/dunning.go: the state of the dunning cycle, and the calls that it makes to other services.
-- A date is the number of its day, so `AddDate(0,0,n)` adds n. The columns of an invoice that no part of the cycle
-- reads (last_collection_attempt_at) are left out, and so are updated_at and the texts of messages and reasons.
pub mod Steps
pub mod Plans
pub mod Collect
pub mod Cycle
pub mod Keeps
pub mod Final
pub mod Dated
pub mod Purged
pub mod Cured
pub mod History
mod Tests
use himate_system.Base.{
  ℕ, ◌+◌, ◌==◌, leb, Bool, true, false, Option, none, some, List, [], ◌∷◌, ◌++◌, if◌then◌else◌,
  update_where, Result, ok, err, Text, codes, text_eq, Unicode, equal_fold,
}
use himate_system.Payments.{Money}
use himate_system.Billing.{BillingInvoice}

-- dunningSecondOffset, dunningThirdOffset, dunningCureDays
abbrev pub dunning_second_offset : ℕ
dunning_second_offset = 2

abbrev pub dunning_third_offset : ℕ
dunning_third_offset = 5

abbrev pub dunning_cure_days : ℕ
dunning_cure_days = 30

abbrev pub no_earlier : ℕ → ℕ → Bool
no_earlier at day = leb day at

-- collectionRetryDue
unfoldable pub collection_retry_due : ℕ → ℕ → ℕ → Bool
collection_retry_due invoice_date at attempts =
    if attempts == 1
    then no_earlier at (invoice_date + dunning_second_offset)
    else if attempts == 2
    then no_earlier at (invoice_date + dunning_third_offset)
    else false

pub record PlanSubscription : Type 0 where
  pub partner_id : Text
  pub plan_key : Text
  pub status : Text
  pub next_plan_key : Text
  pub next_billing_frequency : Text
  pub change_effective_at : Option ℕ

abbrev pub with_status : Text → PlanSubscription → PlanSubscription
with_status status p = record p { status = status }

-- A row of partner_plan_module_selections or of subscription_plan_modules: `owner` is the partner or the plan.
pub record ModuleSelection : Type 0 where
  pub owner : Text
  pub module_key : Text
  pub effective_from : ℕ
  pub effective_to : Option ℕ
  pub position : ℕ

pub record SubscriptionPlan : Type 0 where
  pub plan_key : Text
  pub selection_mode : Text

-- The requests to the services partners, catalog, payments and notifications.
pub data ServiceCall (m : Money) : Type 0 where
  get_lifecycle : Text → ServiceCall m
  set_lifecycle : Text → Text → ServiceCall m
  set_entitlements : Text → Text → List Text → ServiceCall m
  purge_access : Text → ServiceCall m
  charge : Text → Text → m.Amount → Text → Text → ServiceCall m
  notify : Text → Text → Text → ServiceCall m

pub record DunningStore (m : Money) : Type 0 where
  pub invoices : List (BillingInvoice m)
  pub subscriptions : List PlanSubscription
  pub selections : List ModuleSelection
  pub plan_modules : List ModuleSelection
  pub plans : List SubscriptionPlan
  pub sent : List (ServiceCall m)

pub data DunningError : Type 0 where
  invoice_missing partners_host_required partners_failed catalog_failed : DunningError
  payments_failed plan_missing : DunningError

-- The fields of a charge's answer, as `fmt.Sprint` prints them.
pub record ChargeAnswer : Type 0 where
  pub id : Text
  pub provider_payment_id : Text
  pub status : Text

-- What the other services answer to the last of the calls that were sent: an error is `none` or `false`. `before`
-- is the database's order of texts.
pub record Services (m : Money) : Type 0 where
  pub partners_host : Text
  pub payments_host : Text
  pub notifications_host : Text
  pub lifecycle : List (ServiceCall m) → Option Text
  pub accepts : List (ServiceCall m) → Bool
  pub charged : List (ServiceCall m) → Option ChargeAnswer
  pub before : Text → Text → Bool
  pub format : ℕ → Text

-- An operation keeps what it wrote and sent when it fails: it is no transaction.
abbrev pub Step : Money → Type 0 → Type 0
Step m A = DunningStore m → Result DunningError A × DunningStore m

module _ {m : Money} where
  abbrev pub continue :
      {A B : Type 0}
      → Result DunningError A × DunningStore m
      → (A → Step m B)
      → Result DunningError B × DunningStore m
  continue (err failure, s) next = (err failure, s)
  continue (ok value, s) next = next value s

  infixl 5 ◌>>=◌ ◌>>◌
  abbrev pub ◌>>=◌ : {A B : Type 0} → Step m A → (A → Step m B) → Step m B
  ◌>>=◌ first next s = continue (first s) next

  abbrev pub ◌>>◌ : {B : Type 0} → Step m (Unit {0}) → Step m B → Step m B
  first >> next = first >>= λ _. next

  abbrev pub done : Step m (Unit {0})
  done s = (ok tt, s)

  abbrev pub fail : {A : Type 0} → DunningError → Step m A
  fail failure s = (err failure, s)

  abbrev pub update_invoices :
      (BillingInvoice m → Bool) → (BillingInvoice m → BillingInvoice m) → Step m (Unit {0})
  update_invoices p f s = (ok tt, record s { invoices = update_where p f s.invoices })

  abbrev pub update_subscriptions :
      (PlanSubscription → Bool) → (PlanSubscription → PlanSubscription) → Step m (Unit {0})
  update_subscriptions p f s =
      (ok tt, record s { subscriptions = update_where p f s.subscriptions })

  abbrev pub record_call : ServiceCall m → DunningStore m → DunningStore m
  record_call c s = record s { sent = s.sent ++ c ∷ [] }

  -- A call that must be accepted.
  abbrev pub require : Services m → ServiceCall m → DunningError → Step m (Unit {0})
  require services c failure s =
      let sent = record_call c s in
      if services.accepts sent.sent then (ok tt, sent) else (err failure, sent)

-- FAILED and REQUIRES_ACTION, in either case.
unfoldable pub is_failed_charge : ⦃u : Unicode⦄ → Text → Bool
is_failed_charge status =
    if equal_fold status (codes "FAILED") then true else equal_fold status (codes "REQUIRES_ACTION")
