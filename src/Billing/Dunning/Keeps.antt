-- ===== src/Billing/Dunning/Keeps.antt =====
-- services/cmd/billing/dunning.go: a property of an invoice that each single write keeps is kept by every operation
-- of the dunning, on all its branches.
pub mod Cycle
pub mod Archive
use himate_system.Base.{
  ℕ, suc, ◌==◌, ltb, leb, ◌≤◌, ◌≡◌, refl, sym, ◌∙◌, arith, inl, inr, Bool, true, false, not, ◌&&◌,
  ◌||◌, Bool-cases, Option, none, some, List, [], ◌∷◌, map, update_where, if◌then◌else◌, find, All,
  All-update_where, All-find, Result, ok, err, Text, codes, text_eq, text_eq_iff, is_empty,
  find-passes, Unicode,
}
use himate_system.Payments.{Money}
use himate_system.Billing.{BillingInvoice, invoice_id_is}
use himate_system.Billing.Settlement.{
  FollowUp, nothing, recover, clear_dunning, suspend, dunning_max_attempts,
}
use himate_system.Billing.Dunning.{
  ServiceCall, set_lifecycle, partners_failed, DunningStore, DunningError, ChargeAnswer, Services,
  Step, continue, ◌>>=◌, ◌>>◌, update_invoices, require,
}
use himate_system.Billing.Dunning.Plans.{sync_plan_entitlements}
use himate_system.Billing.Dunning.Steps.{
  deactivate, suspend_plan, suspend_from, notify_suspension, restore, suspend_partner,
  revoke_entitlements, write_suspension, renotify, suspend_found, restore_service,
  restore_lifecycle, reactivate, recover_found, is_after, dunning_state_is, is_settled_state,
  with_state, with_previous, suspended_on, is_inactive, notify_dunning, partner_lifecycle,
  mark_past_due, suspend_row, suspend_for_non_payment, recover_row, recover_dunning_payment,
}

module _ {m : Money} (P : BillingInvoice m → Type 0) where
  -- What each write of the dunning has to keep, under the test that its `WHERE` or its caller makes.
  pub record Rules : Type 1 where
    -- The days on which an account may be suspended.
    pub allowed : ℕ → Type 0
    pub past_due :
        (i : BillingInvoice m)
        → is_settled_state i ≡ false
        → P i
        → P (with_state (codes "PAST_DUE") i)
    pub previous : (i : BillingInvoice m) (lifecycle : Text) → P i → P (with_previous lifecycle i)
    pub suspended :
        (read i : BillingInvoice m) (at : ℕ) (lifecycle : Text)
        → i.id ≡ read.id
        → (dunning_state_is (codes "PURGED") read || dunning_state_is (codes "RECOVERED") read)
          ≡ false
        → P read
        → allowed at
        → P i
        → P (suspended_on at lifecycle i)
    pub recovered :
        (i : BillingInvoice m)
        → dunning_state_is (codes "PURGED") i ≡ false
        → P i
        → P (with_state (codes "RECOVERED") i)

abbrev pub ids_of : {m : Money} → List (BillingInvoice m) → List Text
ids_of rows = map (λ i. i.id) rows

ids_of-update :
    {m : Money} (q : BillingInvoice m → Bool) (f : BillingInvoice m → BillingInvoice m)
    (rows : List (BillingInvoice m))
    → ((i : BillingInvoice m) → (f i).id ≡ i.id)
    → ids_of (update_where q f rows) ≡ ids_of rows
ids_of-update q f [] same = refl
ids_of-update q f (x ∷ rows) same = elim (Bool-cases (q x)) [
  | inl hit ↦ rw (hit, same x, ids_of-update q f rows same) refl
  | inr miss ↦ rw (miss, ids_of-update q f rows same) refl
]

module _ {m : Money} (P : BillingInvoice m → Type 0) (keys : List Text) where
  -- All invoices have the property, and they are the same ones in the same order.
  abbrev pub Good : List (BillingInvoice m) → Type 0
  Good rows = All P rows × (ids_of rows ≡ keys)

  abbrev pub Keeps : {A : Type 0} → Step m A → Type 0
  Keeps step = (s : DunningStore m) → Good s.invoices → Good (step s).1.invoices

  continue-Keeps :
      {A B : Type 0} (r : Result DunningError A × DunningStore m) (next : A → Step m B)
      → ((a : A) → Keeps (next a))
      → Good r.1.invoices
      → Good (continue r next).1.invoices
  continue-Keeps (err failure, s) next keep h = h
  continue-Keeps (ok value, s) next keep h = keep value s h

  pub >>=-Keeps :
      {A B : Type 0} (first : Step m A) (next : A → Step m B)
      → Keeps first
      → ((a : A) → Keeps (next a))
      → Keeps (first >>= next)
  >>=-Keeps first next keep after s h = continue-Keeps (first s) next after (keep s h)

  pub >>-Keeps :
      {B : Type 0} (first : Step m (Unit {0})) (next : Step m B)
      → Keeps first
      → Keeps next
      → Keeps (first >> next)
  >>-Keeps first next keep after = >>=-Keeps first (λ _. next) keep (λ _. after)

  pub update_invoices-Keeps :
      (q : BillingInvoice m → Bool) (f : BillingInvoice m → BillingInvoice m)
      → ((i : BillingInvoice m) → (f i).id ≡ i.id)
      → ((i : BillingInvoice m) → q i ≡ true → P i → P (f i))
      → Keeps (update_invoices q f)
  update_invoices-Keeps q f same keep s h =
      (All-update_where P q f s.invoices keep h.0, ids_of-update q f s.invoices same ∙ h.1)

  pub require-Keeps :
      (services : Services m) (c : ServiceCall m) (failure : DunningError)
      → Keeps (require services c failure)
  require-Keeps services c failure s h = ground arith

  module _ ⦃u : Unicode⦄ (services : Services m) where
    pub notify_dunning-Keeps :
        (event partner id : Text) → Keeps (notify_dunning services event partner id)
    unfolding notify_dunning
    notify_dunning-Keeps event partner id s h = ground arith

    partner_lifecycle-Keeps : (partner : Text) → Keeps (partner_lifecycle services partner)
    unfolding partner_lifecycle
    partner_lifecycle-Keeps partner s h = ground arith

    sync_plan_entitlements-Keeps :
        (partner plan_key : Text) (at : ℕ)
        → Keeps (sync_plan_entitlements services partner plan_key at)
    unfolding sync_plan_entitlements
    sync_plan_entitlements-Keeps partner plan_key at s h = ground arith

    module _ (rules : Rules P) where
      pub mark_past_due-Keeps :
          (id partner : Text) (attempts : ℕ) → Keeps (mark_past_due services id partner attempts)
      unfolding mark_past_due
      mark_past_due-Keeps id partner attempts s h =
          elim (Bool-cases (attempts == 0 || leb dunning_max_attempts attempts)) [
            | inl out ↦ rw out h
            | inr counted ↦ rw counted (
                notify_dunning-Keeps (codes "PAYMENT_RETRY_SCHEDULED") partner id _ (
                  update_invoices-Keeps _ _ (λ i. refl)
                    (λ i hit. rules.past_due i (ground (arith, hit))) s h))
          ]

      deactivate-Keeps :
          (id partner lifecycle : Text) → Keeps (deactivate services id partner lifecycle)
      deactivate-Keeps id partner lifecycle s h =
          require-Keeps services (set_lifecycle partner (codes "SUSPENDED")) partners_failed
            (update_invoices (λ i. invoice_id_is id i && is_empty i.pre_suspend_partner_lifecycle)
              (with_previous lifecycle) s).1
            (update_invoices-Keeps _ _ (λ i. refl) (λ i hit. rules.previous i lifecycle) s h)

      suspend_partner-Keeps :
          (id partner previous lifecycle : Text)
          → Keeps (suspend_partner services id partner previous lifecycle)
      suspend_partner-Keeps id partner previous lifecycle s h =
          elim (Bool-cases (is_inactive lifecycle)) [
            | inl off ↦ rw off h
            | inr active ↦ rw active (
                >>=-Keeps (deactivate services id partner lifecycle) (λ _ s'. (ok lifecycle, s'))
                  (deactivate-Keeps id partner lifecycle) (λ _ s' h'. h') s h)
          ]

      revoke_entitlements-Keeps :
          (partner plan_key : Text) → Keeps (revoke_entitlements services partner plan_key)
      revoke_entitlements-Keeps partner plan_key s h = ground arith

      write_suspension-Keeps :
          (id partner : Text) (at : ℕ) (previous : Text) (read : BillingInvoice m)
          → invoice_id_is id read ≡ true
          → (dunning_state_is (codes "PURGED") read || dunning_state_is (codes "RECOVERED") read)
            ≡ false
          → P read
          → rules.allowed at
          → Keeps (write_suspension services id partner at previous)
      write_suspension-Keeps id partner at previous read same open_state p fit s h =
          update_invoices-Keeps (invoice_id_is id) (suspended_on at previous) (λ i. refl)
            (λ i hit.
              rules.suspended read i at previous
                ((text_eq_iff i.id id).0 hit ∙ sym ((text_eq_iff read.id id).0 same)) open_state p
                fit)
            s h

      suspend_row-Keeps :
          (id partner : Text) (at : ℕ) (read : BillingInvoice m)
          → invoice_id_is id read ≡ true
          → (dunning_state_is (codes "PURGED") read || dunning_state_is (codes "RECOVERED") read)
            ≡ false
          → P read
          → rules.allowed at
          → Keeps (suspend_row services id partner at read)
      unfolding suspend_row
      suspend_row-Keeps id partner at read same open_state p fit =
          >>=-Keeps (partner_lifecycle services partner) (suspend_from services id partner at read)
            (partner_lifecycle-Keeps partner)
            λ lifecycle.
              >>=-Keeps
                (suspend_partner services id partner read.pre_suspend_partner_lifecycle lifecycle)
                (λ previous.
                  suspend_plan services id partner at read previous
                  >> notify_suspension services id partner)
                (suspend_partner-Keeps id partner read.pre_suspend_partner_lifecycle lifecycle)
                λ previous.
                  >>-Keeps (suspend_plan services id partner at read previous)
                    (notify_suspension services id partner)
                    (>>-Keeps (revoke_entitlements services partner read.plan_key)
                      (write_suspension services id partner at previous)
                      (revoke_entitlements-Keeps partner read.plan_key)
                      (write_suspension-Keeps id partner at previous read same open_state p fit))
                    (notify_dunning-Keeps (codes "PARTNER_SUSPENDED_NONPAYMENT") partner id)

      renotify-Keeps :
          (id partner : Text) (due : Option ℕ) → Keeps (renotify services id partner due)
      renotify-Keeps id partner none s h = h
      renotify-Keeps id partner (some due) s h =
          notify_dunning-Keeps (codes "PARTNER_SUSPENDED_NONPAYMENT") partner id s h

      suspend_found-Keeps :
          (id partner : Text) (at : ℕ) (o : Option (BillingInvoice m)) (s : DunningStore m)
          → rules.allowed at
          → find (invoice_id_is id) s.invoices ≡ o
          → Good s.invoices
          → Good (suspend_found services id partner at o s).1.invoices
      suspend_found-Keeps id partner at none s fit e h = h
      suspend_found-Keeps id partner at (some i) s fit e h =
          elim (Bool-cases
            (dunning_state_is (codes "PURGED") i || dunning_state_is (codes "RECOVERED") i)) [
              | inl final ↦ rw final h
              | inr open_state ↦
                  rw open_state (elim (Bool-cases (dunning_state_is (codes "SUSPENDED") i)) [
                    | inl already ↦ rw already (renotify-Keeps id partner i.purge_due_at s h)
                    | inr fresh ↦ rw fresh (
                        suspend_row-Keeps id partner at i (find-passes _ s.invoices i e) open_state
                          (All-find P (invoice_id_is id) s.invoices h.0 e) fit s h)
                  ])
            ]

      pub suspend_for_non_payment-Keeps :
          (id partner : Text) (at : ℕ)
          → rules.allowed at
          → Keeps (suspend_for_non_payment services id partner at)
      unfolding suspend_for_non_payment
      suspend_for_non_payment-Keeps id partner at fit s h =
          suspend_found-Keeps id partner at (find (invoice_id_is id) s.invoices) s fit refl h

      restore_service-Keeps :
          (partner : Text) (at : ℕ) (i : BillingInvoice m)
          → Keeps (restore_service services partner at i)
      restore_service-Keeps partner at i s h =
          elim (Bool-cases (dunning_state_is (codes "SUSPENDED") i)) [
            | inl off ↦ rw off (
                >>-Keeps (restore_lifecycle services partner i.pre_suspend_partner_lifecycle)
                  (sync_plan_entitlements services partner i.plan_key at) (λ s' h'. ground arith)
                  (sync_plan_entitlements-Keeps partner i.plan_key at) s h)
            | inr on ↦ rw on h
          ]

      reactivate-Keeps : (id partner : Text) → Keeps (reactivate services id partner)
      reactivate-Keeps id partner s h =
          update_invoices-Keeps
            (λ i. invoice_id_is id i && not (dunning_state_is (codes "PURGED") i))
            (with_state (codes "RECOVERED")) (λ i. refl)
            (λ i hit. rules.recovered i (ground (arith, hit))) s h

      recover_found-Keeps :
          (id partner : Text) (at : ℕ) (o : Option (BillingInvoice m))
          → Keeps (recover_found services id partner at o)
      unfolding recover_row
      recover_found-Keeps id partner at none s h = h
      recover_found-Keeps id partner at (some i) s h =
          elim (Bool-cases (dunning_state_is (codes "PURGED") i || is_after at i.purge_due_at)) [
            | inl late ↦ rw late h
            | inr in_time ↦ rw in_time (
                >>-Keeps (restore services id partner at i)
                  (notify_dunning services (codes "PAYMENT_RECOVERED") partner id)
                  (>>-Keeps (restore_service services partner at i) (reactivate services id partner)
                    (restore_service-Keeps partner at i) (reactivate-Keeps id partner))
                  (notify_dunning-Keeps (codes "PAYMENT_RECOVERED") partner id) s h)
          ]

      pub recover_dunning_payment-Keeps :
          (id partner : Text) (at : ℕ) → Keeps (recover_dunning_payment services id partner at)
      unfolding recover_dunning_payment
      recover_dunning_payment-Keeps id partner at s h =
          recover_found-Keeps id partner at (find (invoice_id_is id) s.invoices) s h
