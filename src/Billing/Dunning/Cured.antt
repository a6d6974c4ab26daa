-- ===== src/Billing/Dunning/Cured.antt =====
-- services/cmd/billing/dunning.go: a suspension and the recovery of its payment within the cure window.
pub mod Suspended
use mathlib.Core.Path.{subst}
use himate_system.Base.{
  ℕ, ◌+◌, ◌≤◌, ◌≡◌, refl, sym, ◌∙◌, ap, arith, inl, inr, Bool, true, false, not, ◌||◌, ◌&&◌,
  Bool-cases, Option, none, some, List, [], ◌∷◌, find, update_where, All, All-find, find-passes,
  Result, ok, err, Text, codes, text_eq, text_eq_iff, is_empty, trim_space, Unicode,
}
use himate_system.Payments.{Money}
use himate_system.Billing.{BillingInvoice, invoice_id_is}
use himate_system.Billing.Dunning.{
  DunningStore, DunningError, PlanSubscription, Services, Step, continue, ◌>>◌, with_status,
  dunning_cure_days,
}
use himate_system.Billing.Dunning.Plans.{sync_plan_entitlements}
use himate_system.Billing.Dunning.Steps.{
  restore_lifecycle, revoke_entitlements, write_suspension, reactivate, dunning_state_is,
  is_settled_state, is_after, suspended_on, with_state, plan_of, plan_in, notify_dunning,
  partner_lifecycle, suspend_partner, suspend_plan, suspend_from, notify_suspension, suspend_row,
  suspend_found, suspend_for_non_payment, restore_service, restore, recover_row, recover_found,
  recover_dunning_payment,
}
use himate_system.Billing.Dunning.Final.{EndedAs}
use himate_system.Billing.Dunning.Cured.Suspended.{
  continue-eq-ok, Same, continue-Same, is_live_plan, suspend_and_reactivate, SuspendedOn,
  notify-state, suspend_row-writes,
}

module _ {m : Money} ⦃u : Unicode⦄ (services : Services m) (id partner : Text) where
  suspended_open :
      (day later : ℕ) (i : BillingInvoice m)
      → later ≤ day + dunning_cure_days
      → i.dunning_state ≡ codes "SUSPENDED"
      → i.purge_due_at ≡ some (day + dunning_cure_days)
      → (dunning_state_is (codes "PURGED") i || is_after later i.purge_due_at) ≡ false
  unfolding text_eq
  suspended_open day later i window state due = rw (state, due) (ground (arith, window))

  sync-Same :
      (plan_key : Text) (at : ℕ) (s : DunningStore m)
      → Same s (sync_plan_entitlements services partner plan_key at s).1
  unfolding sync_plan_entitlements
  sync-Same plan_key at s = (ground arith, ground arith)

  restore_lifecycle-Same :
      (previous : Text) (s : DunningStore m)
      → Same s (restore_lifecycle services partner previous s).1
  restore_lifecycle-Same previous s = (ground arith, ground arith)

  restore_service-Same :
      (at : ℕ) (i : BillingInvoice m) (s : DunningStore m)
      → Same s (restore_service services partner at i s).1
  restore_service-Same at i s = elim (Bool-cases (dunning_state_is (codes "SUSPENDED") i)) [
    | inl off ↦ rw off (
        continue-Same s (restore_lifecycle services partner i.pre_suspend_partner_lifecycle s)
          (λ _. sync_plan_entitlements services partner i.plan_key at)
          (restore_lifecycle-Same i.pre_suspend_partner_lifecycle s) (λ _. sync-Same i.plan_key at))
    | inr on ↦ rw on (refl, refl)
  ]

  recovered_rows :
      (day : ℕ) (rows : List (BillingInvoice m))
      → All (SuspendedOn id day) rows
      → All (EndedAs id (codes "RECOVERED")) (
          update_where
            (λ i. invoice_id_is id i && not (dunning_state_is (codes "PURGED") i))
            (with_state (codes "RECOVERED"))
            rows)
  unfolding text_eq
  recovered_rows day [] h = tt
  recovered_rows day (i ∷ rows) h = elim (Bool-cases (invoice_id_is id i)) [
    | inl mine ↦
        let state = (h.0 ((text_eq_iff i.id id).0 mine)).0 in
        let going = subst (λ t. text_eq t (codes "PURGED") ≡ false) (sym state) refl in
        rw (mine, going) ((λ _. refl), recovered_rows day rows h.1)
    | inr other ↦
        rw other ((λ same. cc ((text_eq_iff i.id id).1 same, other)), recovered_rows day rows h.1)
  ]

  -- What a recovery that succeeds writes.
  recover_row-writes :
      (day at : ℕ) (i : BillingInvoice m) (s v : DunningStore m)
      → All (SuspendedOn id day) s.invoices
      → recover_row services id partner at i s ≡ (ok tt, v)
      → (v.subscriptions
          ≡ update_where
              (λ p. plan_in partner (codes "PAST_DUE") p || plan_in partner (codes "SUSPENDED") p)
              (with_status (codes "ACTIVE"))
              s.subscriptions)
        × All (EndedAs id (codes "RECOVERED")) v.invoices
  unfolding recover_row
  recover_row-writes day at i s v h k =
      let restored = restore_service services partner at i s in
      let whole = restore services id partner at i s in
      let (_, passed, last) =
        continue-eq-ok whole (λ _. notify_dunning services (codes "PAYMENT_RECOVERED") partner id)
          k in
      let (_, served, written) =
        continue-eq-ok restored (λ _. reactivate services id partner)
          (ap (λ a. (a, whole.1)) passed) in
      let told = notify-state services id partner (codes "PAYMENT_RECOVERED") whole.1 in
      let final = ap (λ (r : Result DunningError (Unit {0}) × DunningStore m). r.1) last in
      let middle = ap (λ (r : Result DunningError (Unit {0}) × DunningStore m). r.1) written in
      let same = restore_service-Same at i s in
      (
        sym (ap (λ (s : DunningStore m). s.subscriptions) final)
            ∙ told.0
            ∙ sym (ap (λ (s : DunningStore m). s.subscriptions) middle)
            ∙ ap
                (update_where
                  (λ p.
                    plan_in partner (codes "PAST_DUE") p || plan_in partner (codes "SUSPENDED") p)
                  (with_status (codes "ACTIVE")))
                same.0,
        subst (All (EndedAs id (codes "RECOVERED"))) (ap (λ (s : DunningStore m). s.invoices) final)
            (subst (All (EndedAs id (codes "RECOVERED"))) (sym told.1) (
              subst (All (EndedAs id (codes "RECOVERED")))
                (ap (λ (s : DunningStore m). s.invoices) middle)
                (recovered_rows day restored.1.invoices
                  (subst (All (SuspendedOn id day)) (sym same.1) h)))),
      )

  recover_found-writes :
      (day later : ℕ) (o : Option (BillingInvoice m)) (t v : DunningStore m)
      → later ≤ day + dunning_cure_days
      → find (invoice_id_is id) t.invoices ≡ o
      → All (SuspendedOn id day) t.invoices
      → recover_found services id partner later o t ≡ (ok tt, v)
      → (v.subscriptions
          ≡ update_where
              (λ p. plan_in partner (codes "PAST_DUE") p || plan_in partner (codes "SUSPENDED") p)
              (with_status (codes "ACTIVE"))
              t.subscriptions)
        × All (EndedAs id (codes "RECOVERED")) v.invoices
  recover_found-writes day later none t v window found h k =
      cc (ap (λ (r : Result DunningError (Unit {0}) × DunningStore m). r.0) k)
  recover_found-writes day later (some i) t v window found h k =
      let mine = (text_eq_iff i.id id).0 (find-passes (invoice_id_is id) t.invoices i found) in
      let dated = All-find (SuspendedOn id day) (invoice_id_is id) t.invoices h found mine in
      recover_row-writes day later i t v h
        (rw (suspended_open day later i window dated.0 dated.1) at k)

  suspend_found-writes :
      (day : ℕ) (i : BillingInvoice m) (s t : DunningStore m)
      → is_settled_state i ≡ false
      → suspend_found services id partner day (some i) s ≡ (ok tt, t)
      → suspend_row services id partner day i s ≡ (ok tt, t)
  suspend_found-writes day i s t open_state h =
      let final : (dunning_state_is (codes "PURGED") i || dunning_state_is (codes "RECOVERED") i)
          ≡ false =
        ground (arith, open_state) in
      let fresh : dunning_state_is (codes "SUSPENDED") i ≡ false = ground (arith, open_state) in
      rw fresh at (rw final at h)

  -- A payment that is recovered within 30 days undoes the suspension: where the suspension of an
  -- invoice on some day and its recovery by the 30th day after it both succeed, the invoice is
  -- RECOVERED and each plan of the partner that is not cancelled is ACTIVE, with nothing else of the
  -- plans changed since before the suspension.
  pub suspend-recover :
      (day later : ℕ) (i : BillingInvoice m) (s t v : DunningStore m)
      → find (invoice_id_is id) s.invoices ≡ some i
      → is_settled_state i ≡ false
      → later ≤ day + dunning_cure_days
      → suspend_for_non_payment services id partner day s ≡ (ok tt, t)
      → recover_dunning_payment services id partner later t ≡ (ok tt, v)
      → (v.subscriptions
          ≡ update_where (is_live_plan partner) (with_status (codes "ACTIVE")) s.subscriptions)
        × All (EndedAs id (codes "RECOVERED")) v.invoices
  unfolding suspend_for_non_payment recover_dunning_payment
  suspend-recover day later i s t v found open_state window suspended recovered =
      let row = suspend_found-writes day i s t open_state (rw found at suspended) in
      let (plans, rows) = suspend_row-writes services id partner day i s t row in
      let (plans', rows') =
        recover_found-writes day later (find (invoice_id_is id) t.invoices) t v window refl rows
          recovered in
      (plans' ∙ (rw plans (suspend_and_reactivate partner s.subscriptions)), rows')
