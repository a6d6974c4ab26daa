-- ===== src/Billing/Dunning/Tests.antt =====
-- Runs of the dunning cycle on concrete input: three failed charges, a suspension, a recovery and a purge.
use himate_system.Base.{
  ℕ, ◌≡◌, refl, ltb, true, none, some, List, [], ◌∷◌, map, inr, ◌≤◌, ◌+◌, arith, false, count, find,
  update_where, ok, Text, codes, sort_by, All,
}
use himate_system.Base.Strings.Ascii.{ascii, evaluate_texts}
use himate_system.Payments.{Money}
use himate_system.Billing.{BillingInvoice, invoice_id_is}
use himate_system.Billing.Settlement.{dunning_eligible}
use himate_system.Billing.Dunning.{
  PlanSubscription, with_status, DunningStore, Services, collection_retry_due, is_failed_charge,
  set_lifecycle, set_entitlements, charge,
}
use himate_system.Billing.Dunning.Plans.{plan_modules_at, flex_modules_at, sync_plan_entitlements}
use himate_system.Billing.Dunning.Steps.{
  is_settled_state, notify_dunning, partner_lifecycle, mark_past_due, suspend_row,
  suspend_for_non_payment, recover_row, recover_dunning_payment,
}
use himate_system.Billing.Dunning.Collect.{
  mark_collection_attempt, read_charge, request_payment_charge, after_charge, collect_found,
  queue_invoice_collection, follow,
}
use himate_system.Billing.Dunning.Cycle.{
  retry_pending_invoice_collections, is_expired, archive_limit, archive_invoice, for_each,
  archive_expired_dunning, dun_row, run_dunning_cycle,
}
use himate_system.Billing.Dunning.Final.{run_dunning_cycle-EndedAs, EndedAs, FewAttempts}
use himate_system.Billing.Dunning.Dated.{OnTime, Unique, texts_differ}
use himate_system.Billing.Dunning.Keeps.{ids_of}
use himate_system.Billing.Dunning.Purged.{Lingers, archive_expired_dunning-purges}
use himate_system.Billing.Dunning.History.{
  Reaches, start, then_event, cycled, collected, Reaches-OnTime, Reaches-FewAttempts,
}
use himate_system.Billing.Dunning.Cured.{suspend-recover}
use himate_system.Billing.Dunning.Cured.Suspended.{is_live_plan}

abbrev dollars : Money
dollars = record {
  Amount = ℕ;
  is_positive = ltb 0;
  round_cents = λ a. a;
  matches_cents = λ received a. true;
}

unfoldable evaluate_dunning : Unit {0}
unfolding evaluate_texts dunning_eligible collection_retry_due is_failed_charge plan_modules_at
    flex_modules_at sync_plan_entitlements notify_dunning partner_lifecycle mark_past_due
    suspend_row suspend_for_non_payment recover_row recover_dunning_payment mark_collection_attempt
    read_charge request_payment_charge after_charge collect_found queue_invoice_collection follow
    archive_invoice for_each archive_expired_dunning dun_row run_dunning_cycle
    retry_pending_invoice_collections sort_by
evaluate_dunning = tt

-- A payment service whose answers have no status that ends a charge, or the one that is given.
abbrev answering : Text → Services dollars
answering status = record {
  partners_host = codes "partners";
  payments_host = codes "payments";
  notifications_host = [];
  lifecycle = λ calls. some (codes "active");
  accepts = λ calls. true;
  charged = λ calls.
      some (record { id = codes "a2"; provider_payment_id = codes "pi2"; status = status });
  before = λ a b. true;
  format = λ n. (b'0' + n) ∷ [];
}

abbrev unpaid : BillingInvoice dollars
unpaid = record {
  id = codes "i1";
  partner_id = codes "p1";
  total = 500;
  currency = codes "USD";
  status = codes "SENT";
  workflow_status = codes "SENT";
  provider_status = codes "FAILED";
  payment_attempt_id = [];
  provider = [];
  provider_payment_id = [];
  payment_failure_code = [];
  payment_failure_message = [];
  billing_model = codes "PLAN";
  charge_type = codes "PLAN_MONTHLY";
  collection_attempts = 1;
  dunning_state = codes "PAST_DUE";
  invoice_date = 100;
  plan_key = codes "STARTER";
  dunning_suspended_at = none;
  purge_due_at = none;
  pre_suspend_partner_lifecycle = [];
  operational_purged_at = none;
}

abbrev store : List (BillingInvoice dollars) → DunningStore dollars
store rows = record {
  invoices = rows;
  subscriptions =
      record {
        partner_id = codes "p1";
        plan_key = codes "STARTER";
        status = codes "PAST_DUE";
        next_plan_key = [];
        next_billing_frequency = [];
        change_effective_at = none;
      }
      ∷ [];
  selections = [];
  plan_modules =
      record {
        owner = codes "STARTER";
        module_key = codes "crm";
        effective_from = 0;
        effective_to = none;
        position = 1;
      }
      ∷ [];
  plans = record { plan_key = codes "STARTER"; selection_mode = codes "FIXED" } ∷ [];
  sent = [];
}

abbrev states : DunningStore dollars → List Text
states s = map (λ (i : BillingInvoice dollars). i.dunning_state) s.invoices

abbrev plan_states : DunningStore dollars → List Text
plan_states s = map (λ (p : PlanSubscription). p.status) s.subscriptions

abbrev cycle : Text → ℕ → DunningStore dollars → DunningStore dollars
cycle status day s = (run_dunning_cycle ⦃u = ascii⦄ (answering status) day day s).1

-- The second charge waits for the second day.
early_run : (cycle (codes "failed") 101 (store (unpaid ∷ []))).sent ≡ []
unfolding evaluate_dunning
early_run = refl

second_run :
    (cycle (codes "processing") 102 (store (unpaid ∷ []))).sent
    ≡ charge (codes "p1") (codes "i1") 500 (codes "USD") (codes "invoice:i1:attempt:2") ∷ []
unfolding evaluate_dunning
second_run = refl

-- The third failure suspends at once.
third_run :
    states (cycle (codes "failed") 105 (store (record unpaid { collection_attempts = 2 } ∷ [])))
    ≡ codes "SUSPENDED" ∷ []
unfolding evaluate_dunning
third_run = refl

abbrev suspended : BillingInvoice dollars
suspended = record unpaid {
  collection_attempts = 3;
  dunning_state = codes "SUSPENDED";
  dunning_suspended_at = some 105;
  purge_due_at = some 135;
  pre_suspend_partner_lifecycle = codes "ACTIVE";
}

cured_run :
    (cycle [] 120 (
      store (record suspended { status = codes "PAID"; workflow_status = codes "PAID" } ∷ []))).sent
    ≡ set_lifecycle (codes "p1") (codes "ACTIVE")
      ∷ set_entitlements (codes "p1") (codes "STARTER") (codes "crm" ∷ [])
      ∷ []
unfolding evaluate_dunning
cured_run = refl

-- On the last day itself the account of an invoice that is not paid is purged.
purged_run : states (cycle [] 135 (store (suspended ∷ []))) ≡ codes "PURGED" ∷ []
unfolding evaluate_dunning
purged_run = refl

cancelled_run : plan_states (cycle [] 135 (store (suspended ∷ []))) ≡ codes "CANCELLED" ∷ []
unfolding evaluate_dunning
cancelled_run = refl

-- An invoice that was paid, but whose recovery did not come through by the last day.
late_run :
    states (
      cycle [] 136
        (store (record suspended { status = codes "PAID"; workflow_status = codes "PAID" } ∷ [])))
    ≡ codes "PURGED" ∷ []
unfolding evaluate_dunning
late_run = refl

one_is_not_two : codes "i1" ≡ codes "i2" → codes "SUSPENDED" ≡ codes "RECOVERED"
unfolding evaluate_dunning
one_is_not_two e = absurd (texts_differ (codes "i1") (codes "i2") refl e)

abbrev unpaid_other : BillingInvoice dollars
unpaid_other = record unpaid { id = codes "i2" }

Unique-store : Unique (ids_of (store (suspended ∷ unpaid_other ∷ [])).invoices)
unfolding evaluate_dunning
Unique-store = ((refl, tt), (tt, tt))

OnTime-store : All (OnTime 105 135) (store (suspended ∷ unpaid_other ∷ [])).invoices
unfolding evaluate_dunning
OnTime-store = (
  (
    (λ _. (105, omega arith, omega arith, refl, refl)),
    λ e. absurd (texts_differ (codes "SUSPENDED") (codes "PURGED") refl e),
  ),
  (
    (
      (λ e. absurd (texts_differ (codes "PAST_DUE") (codes "SUSPENDED") refl e)),
      λ e. absurd (texts_differ (codes "PAST_DUE") (codes "PURGED") refl e),
    ),
    tt,
  ),
)

one_expired : count (is_expired 135) (store (suspended ∷ [])).invoices ≤ archive_limit
unfolding evaluate_dunning
one_expired = omega arith

-- A charge that did not reach the payment service is made again under the key of the same attempt.
retry_run :
    (retry_pending_invoice_collections ⦃u = ascii⦄
      (answering [])
      101
      (store (record unpaid { provider_status = codes "COLLECTION_PENDING" } ∷ []))).sent
    ≡ charge (codes "p1") (codes "i1") 500 (codes "USD") (codes "invoice:i1:attempt:2") ∷ []
unfolding evaluate_dunning
retry_run = refl

abbrev refunded : BillingInvoice dollars
refunded = record suspended {
  id = codes "i2";
  dunning_state = codes "RECOVERED";
  status = codes "PAID";
}

found_refunded :
    find (invoice_id_is (codes "i2")) (store (suspended ∷ refunded ∷ [])).invoices ≡ some refunded
unfolding evaluate_dunning
found_refunded = refl

run_dunning_cycle-EndedAs_example :
    All
      (EndedAs (codes "i2") (codes "RECOVERED"))
      (cycle (codes "failed") 140 (store (suspended ∷ refunded ∷ []))).invoices
    × (dun_row ⦃u = ascii⦄
          (answering (codes "failed"))
          140
          140
          refunded
          (store (suspended ∷ refunded ∷ []))
        ≡ (ok tt, store (suspended ∷ refunded ∷ [])))
    × (is_expired 140 refunded ≡ false)
run_dunning_cycle-EndedAs_example =
    run_dunning_cycle-EndedAs (codes "i2") (codes "RECOVERED") (inr refl)
      (answering (codes "failed")) 140 140 (store (suspended ∷ refunded ∷ []))
      (store (suspended ∷ refunded ∷ [])) refunded (one_is_not_two, ((λ _. refl), tt))
      found_refunded refl

archive_expired_dunning-purges_example :
    ((archive_expired_dunning ⦃u = ascii⦄ (answering []) 135 135 (store (suspended ∷ []))).0
      ≡ ok tt)
    × All
        (λ i. ¬ Lingers 135 i)
        (archive_expired_dunning ⦃u = ascii⦄
          (answering [])
          135
          135
          (store (suspended ∷ []))).1.invoices
archive_expired_dunning-purges_example =
    archive_expired_dunning-purges (answering []) (λ calls. refl) 135 135 (store (suspended ∷ []))
      one_expired

abbrev failing : DunningStore dollars
failing = store (record unpaid { collection_attempts = 3 } ∷ [])

abbrev stopped : DunningStore dollars
stopped =
    (suspend_for_non_payment ⦃u = ascii⦄ (answering []) (codes "i1") (codes "p1") 105 failing).1

abbrev cured : DunningStore dollars
cured = (recover_dunning_payment ⦃u = ascii⦄ (answering []) (codes "i1") (codes "p1") 135 stopped).1

found_failing :
    find (invoice_id_is (codes "i1")) failing.invoices
    ≡ some (record unpaid { collection_attempts = 3 })
unfolding evaluate_dunning
found_failing = refl

open_failing : is_settled_state (record unpaid { collection_attempts = 3 }) ≡ false
unfolding evaluate_dunning
open_failing = refl

stopped_run :
    suspend_for_non_payment ⦃u = ascii⦄ (answering []) (codes "i1") (codes "p1") 105 failing
    ≡ (ok tt, stopped)
unfolding evaluate_dunning
stopped_run = refl

cured_again :
    recover_dunning_payment ⦃u = ascii⦄ (answering []) (codes "i1") (codes "p1") 135 stopped
    ≡ (ok tt, cured)
unfolding evaluate_dunning
cured_again = refl

suspend-recover_example :
    (cured.subscriptions
      ≡ update_where
          (is_live_plan (codes "p1"))
          (with_status (codes "ACTIVE"))
          failing.subscriptions)
    × All (EndedAs (codes "i1") (codes "RECOVERED")) cured.invoices
suspend-recover_example =
    suspend-recover (answering []) (codes "i1") (codes "p1") 105 135
      (record unpaid { collection_attempts = 3 }) failing stopped cured found_failing open_failing
      (omega arith) stopped_run cured_again

-- The third charge of an invoice, and then the cycle that ends the cure window of another.
abbrev charged_store : DunningStore dollars
charged_store =
    queue_invoice_collection ⦃u = ascii⦄ (answering (codes "failed")) 135 (codes "i2") (codes "p1")
      (codes "USD") 500 (store (suspended ∷ unpaid_other ∷ []))

abbrev history :
    Reaches ⦃u = ascii⦄
      (answering (codes "failed"))
      105
      135
      (store (suspended ∷ unpaid_other ∷ []))
      (cycle (codes "failed") 135 charged_store)
history =
    then_event
      (then_event start (
        collected 135 (codes "i2") (codes "p1") (codes "USD") 500
          (store (suspended ∷ unpaid_other ∷ [])) (omega arith, omega arith)))
      (cycled 135 135 charged_store (omega arith, omega arith) (omega arith, omega arith))

history_run :
    states (cycle (codes "failed") 135 charged_store) ≡ codes "PURGED" ∷ codes "SUSPENDED" ∷ []
unfolding evaluate_dunning
history_run = refl

Reaches-OnTime_example : All (OnTime 105 135) (cycle (codes "failed") 135 charged_store).invoices
Reaches-OnTime_example =
    Reaches-OnTime (answering (codes "failed")) 105 135 Unique-store OnTime-store history

Reaches-FewAttempts_example : All FewAttempts (cycle (codes "failed") 135 charged_store).invoices
Reaches-FewAttempts_example =
    Reaches-FewAttempts (answering (codes "failed")) 105 135 (omega arith) history
