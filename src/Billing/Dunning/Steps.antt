-- ===== src/Billing/Dunning/Steps.antt =====
-- services/cmd/billing/dunning.go: what a failed and a recovered payment do.
use himate_system.Base.{
  ℕ, ◌+◌, ◌==◌, ltb, leb, Bool, false, not, ◌&&◌, ◌||◌, Option, none, some, List, [], if◌then◌else◌,
  find, ok, err, Text, codes, is_empty, text_eq, Unicode, equal_fold, to_upper, trim_space,
}
use himate_system.Payments.{Money}
use himate_system.Billing.{BillingInvoice, invoice_id_is}
use himate_system.Billing.Settlement.{dunning_max_attempts}
use himate_system.Billing.Dunning.{
  PlanSubscription, get_lifecycle, set_lifecycle, set_entitlements, notify, invoice_missing,
  partners_host_required, partners_failed, catalog_failed, Services, Step, dunning_cure_days, done,
  fail, ◌>>=◌, ◌>>◌, update_invoices, update_subscriptions, record_call, require, with_status,
}
use himate_system.Billing.Dunning.Plans.{sync_plan_entitlements}

module _ {m : Money} where
  -- `dunning_state NOT IN ('SUSPENDED','PURGED','RECOVERED')`
  abbrev pub dunning_state_is : Text → BillingInvoice m → Bool
  dunning_state_is state i = text_eq i.dunning_state state

  abbrev pub is_settled_state : BillingInvoice m → Bool
  is_settled_state i =
      dunning_state_is (codes "SUSPENDED") i
      || dunning_state_is (codes "PURGED") i
      || dunning_state_is (codes "RECOVERED") i

  abbrev pub is_unpaid : Text → BillingInvoice m → Bool
  is_unpaid id i = invoice_id_is id i && not (text_eq i.status (codes "PAID"))

  abbrev pub with_state : Text → BillingInvoice m → BillingInvoice m
  with_state state i = record i { dunning_state = state }

  abbrev pub with_previous : Text → BillingInvoice m → BillingInvoice m
  with_previous lifecycle i = record i { pre_suspend_partner_lifecycle = lifecycle }

  abbrev pub suspended_on : ℕ → Text → BillingInvoice m → BillingInvoice m
  suspended_on at previous i = record i {
    dunning_state = codes "SUSPENDED";
    dunning_suspended_at = some at;
    purge_due_at = some (at + dunning_cure_days);
    pre_suspend_partner_lifecycle =
        if is_empty i.pre_suspend_partner_lifecycle
        then previous
        else i.pre_suspend_partner_lifecycle;
  }

abbrev pub plan_of : Text → PlanSubscription → Bool
plan_of partner p = text_eq p.partner_id partner

abbrev pub plan_in : Text → Text → PlanSubscription → Bool
plan_in partner status p = plan_of partner p && text_eq p.status status

-- The lifecycles that a suspension does not touch.
abbrev pub is_inactive : Text → Bool
is_inactive lifecycle =
    text_eq lifecycle (codes "SUSPENDED") || text_eq lifecycle (codes "ARCHIVED")

-- `purgeDue.Valid && at.After(purgeDue)`
abbrev pub is_after : ℕ → Option ℕ → Bool
is_after at none = false
is_after at (some due) = ltb due at

module _ {m : Money} ⦃u : Unicode⦄ (services : Services m) where
  -- notifyDunning: its own errors are dropped.
  unfoldable pub notify_dunning : Text → Text → Text → Step m (Unit {0})
  notify_dunning event partner invoice s =
      if is_empty (trim_space services.notifications_host)
      then done s
      else (ok tt, record_call (notify event partner invoice) s)

  abbrev lifecycle_answer : Option Text → Step m Text
  lifecycle_answer none s = (err partners_failed, s)
  lifecycle_answer (some lifecycle) s = (ok (to_upper (trim_space lifecycle)), s)

  -- partnerLifecycle
  unfoldable pub partner_lifecycle : Text → Step m Text
  partner_lifecycle partner s =
      if is_empty (trim_space services.partners_host)
      then fail partners_host_required s
      else let asked = record_call (get_lifecycle partner) s in
        lifecycle_answer (services.lifecycle asked.sent) asked

  -- setPartnerLifecycle
  abbrev pub set_partner_lifecycle : Text → Text → Step m (Unit {0})
  set_partner_lifecycle partner lifecycle =
      require services (set_lifecycle partner lifecycle) partners_failed

  -- setPlanEntitlements
  abbrev pub set_plan_entitlements : Text → Text → List Text → Step m (Unit {0})
  set_plan_entitlements partner plan_key keys =
      require services (set_entitlements partner plan_key keys) catalog_failed

  -- markPastDue
  unfoldable pub mark_past_due : Text → Text → ℕ → Step m (Unit {0})
  unfolding notify_dunning
  mark_past_due id partner attempts s =
      if attempts == 0 || leb dunning_max_attempts attempts
      then done s
      else (update_invoices (λ i. is_unpaid id i && not (is_settled_state i))
              (with_state (codes "PAST_DUE"))
            >> update_subscriptions (plan_in partner (codes "ACTIVE"))
                (with_status (codes "PAST_DUE"))
            >> notify_dunning (codes "PAYMENT_RETRY_SCHEDULED") partner id)
          s

  -- The partner's lifecycle, kept on the invoice and set to SUSPENDED.
  abbrev pub deactivate : Text → Text → Text → Step m (Unit {0})
  deactivate id partner lifecycle =
      update_invoices (λ i. invoice_id_is id i && is_empty i.pre_suspend_partner_lifecycle)
        (with_previous lifecycle)
      >> set_partner_lifecycle partner (codes "SUSPENDED")

  abbrev pub suspend_partner : Text → Text → Text → Text → Step m Text
  suspend_partner id partner previous lifecycle s =
      if is_inactive lifecycle
      then (ok previous, s)
      else (deactivate id partner lifecycle >>= λ _ s'. (ok lifecycle, s')) s

  abbrev pub revoke_entitlements : Text → Text → Step m (Unit {0})
  revoke_entitlements partner plan_key s =
      if equal_fold plan_key (codes "CUSTOM")
      then done s
      else set_plan_entitlements partner plan_key [] s

  abbrev pub write_suspension : Text → Text → ℕ → Text → Step m (Unit {0})
  write_suspension id partner at previous =
      update_invoices (invoice_id_is id) (suspended_on at previous)
      >> update_subscriptions (λ p. plan_of partner p && not (text_eq p.status (codes "CANCELLED")))
          (with_status (codes "SUSPENDED"))

  abbrev pub notify_suspension : Text → Text → Step m (Unit {0})
  notify_suspension id partner = notify_dunning (codes "PARTNER_SUSPENDED_NONPAYMENT") partner id

  abbrev pub suspend_plan : Text → Text → ℕ → BillingInvoice m → Text → Step m (Unit {0})
  suspend_plan id partner at i previous =
      revoke_entitlements partner i.plan_key >> write_suspension id partner at previous

  abbrev pub suspend_from : Text → Text → ℕ → BillingInvoice m → Text → Step m (Unit {0})
  suspend_from id partner at i lifecycle =
      suspend_partner id partner i.pre_suspend_partner_lifecycle lifecycle >>= λ previous.
      suspend_plan id partner at i previous >> notify_suspension id partner

  unfoldable pub suspend_row : Text → Text → ℕ → BillingInvoice m → Step m (Unit {0})
  unfolding notify_dunning partner_lifecycle
  suspend_row id partner at i = partner_lifecycle partner >>= suspend_from id partner at i

  -- A row that is suspended already is only notified again, if it has a date.
  abbrev pub renotify : Text → Text → Option ℕ → Step m (Unit {0})
  renotify id partner none s = done s
  renotify id partner (some due) s = notify_suspension id partner s

  abbrev pub suspend_found : Text → Text → ℕ → Option (BillingInvoice m) → Step m (Unit {0})
  suspend_found id partner at none s = fail invoice_missing s
  suspend_found id partner at (some i) s =
      if dunning_state_is (codes "PURGED") i || dunning_state_is (codes "RECOVERED") i
      then done s
      else if dunning_state_is (codes "SUSPENDED") i
      then renotify id partner i.purge_due_at s
      else suspend_row id partner at i s

  -- suspendForNonPayment
  unfoldable pub suspend_for_non_payment : Text → Text → ℕ → Step m (Unit {0})
  unfolding suspend_row
  suspend_for_non_payment id partner at s =
      suspend_found id partner at (find (invoice_id_is id) s.invoices) s

  abbrev pub restore_lifecycle : Text → Text → Step m (Unit {0})
  restore_lifecycle partner previous s =
      if is_empty (trim_space previous) || is_inactive previous
      then done s
      else set_partner_lifecycle partner previous s

  abbrev pub restore_partner : Text → ℕ → BillingInvoice m → Step m (Unit {0})
  restore_partner partner at i =
      restore_lifecycle partner i.pre_suspend_partner_lifecycle
      >> sync_plan_entitlements services partner i.plan_key at

  abbrev pub restore_service : Text → ℕ → BillingInvoice m → Step m (Unit {0})
  restore_service partner at i s =
      if dunning_state_is (codes "SUSPENDED") i then restore_partner partner at i s else done s

  abbrev pub reactivate : Text → Text → Step m (Unit {0})
  reactivate id partner =
      update_subscriptions
        (λ p. plan_in partner (codes "PAST_DUE") p || plan_in partner (codes "SUSPENDED") p)
        (with_status (codes "ACTIVE"))
      >> update_invoices (λ i. invoice_id_is id i && not (dunning_state_is (codes "PURGED") i))
          (with_state (codes "RECOVERED"))

  abbrev pub restore : Text → Text → ℕ → BillingInvoice m → Step m (Unit {0})
  restore id partner at i = restore_service partner at i >> reactivate id partner

  unfoldable pub recover_row : Text → Text → ℕ → BillingInvoice m → Step m (Unit {0})
  unfolding notify_dunning sync_plan_entitlements
  recover_row id partner at i =
      restore id partner at i >> notify_dunning (codes "PAYMENT_RECOVERED") partner id

  abbrev pub recover_found : Text → Text → ℕ → Option (BillingInvoice m) → Step m (Unit {0})
  recover_found id partner at none s = fail invoice_missing s
  recover_found id partner at (some i) s =
      if dunning_state_is (codes "PURGED") i || is_after at i.purge_due_at
      then done s
      else recover_row id partner at i s

  -- recoverDunningPayment
  unfoldable pub recover_dunning_payment : Text → Text → ℕ → Step m (Unit {0})
  unfolding recover_row
  recover_dunning_payment id partner at s =
      recover_found id partner at (find (invoice_id_is id) s.invoices) s
