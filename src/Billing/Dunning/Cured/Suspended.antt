-- ===== src/Billing/Dunning/Cured/Suspended.antt =====
-- services/cmd/billing/dunning.go, suspendForNonPayment: what a suspension that succeeds writes.
use mathlib.Core.Path.{subst}
use himate_system.Base.{
  ℕ, ◌+◌, ◌≡◌, refl, sym, ◌∙◌, ap, arith, inl, inr, Bool, true, false, not, ◌||◌, ◌&&◌, Bool-cases,
  some, List, [], ◌∷◌, update_where, All, Result, ok, err, Text, codes, text_eq, text_eq_iff,
  is_empty, trim_space, Unicode,
}
use himate_system.Payments.{Money}
use himate_system.Billing.{BillingInvoice, invoice_id_is}
use himate_system.Billing.Dunning.{
  DunningStore, DunningError, PlanSubscription, Services, Step, continue, ◌>>◌, with_status,
  dunning_cure_days,
}
use himate_system.Billing.Dunning.Steps.{
  revoke_entitlements, write_suspension, suspended_on, plan_of, plan_in, notify_dunning,
  partner_lifecycle, suspend_partner, suspend_plan, suspend_from, notify_suspension, suspend_row,
}

module _ {m : Money} where
  -- A step that succeeds in a chain that succeeds.
  pub continue-eq-ok :
      {A B : Type 0} (r : Result DunningError A × DunningStore m) (next : A → Step m B) {b : B}
      {t : DunningStore m}
      → continue r next ≡ (ok b, t)
      → (a : A) × (r.0 ≡ ok a) × (next a r.1 ≡ (ok b, t))
  continue-eq-ok (err failure, s) next h =
      cc (ap (λ (r : Result DunningError _ × DunningStore m). r.0) h)
  continue-eq-ok (ok a, s) next h = (a, refl, h)

  -- A step that leaves the plans and the invoices alone.
  abbrev pub Same : DunningStore m → DunningStore m → Type 0
  Same s t = (t.subscriptions ≡ s.subscriptions) × (t.invoices ≡ s.invoices)

  pub continue-Same :
      {A B : Type 0} (s : DunningStore m) (r : Result DunningError A × DunningStore m)
      (next : A → Step m B)
      → Same s r.1
      → ((a : A) (s' : DunningStore m) → Same s' (next a s').1)
      → Same s (continue r next).1
  continue-Same s (err failure, t) next first later = first
  continue-Same s (ok a, t) next first later =
      let (plans, rows) = later a t in (plans ∙ first.0, rows ∙ first.1)

  update_where-establishes :
      (P : BillingInvoice m → Type 0) (q : BillingInvoice m → Bool)
      (f : BillingInvoice m → BillingInvoice m) (rows : List (BillingInvoice m))
      → ((i : BillingInvoice m) → q i ≡ true → P (f i))
      → ((i : BillingInvoice m) → q i ≡ false → P i)
      → All P (update_where q f rows)
  update_where-establishes P q f [] hit miss = tt
  update_where-establishes P q f (i ∷ rows) hit miss = elim (Bool-cases (q i)) [
    | inl h ↦ rw h (hit i h, update_where-establishes P q f rows hit miss)
    | inr h ↦ rw h (miss i h, update_where-establishes P q f rows hit miss)
  ]

-- The subscriptions of a partner that are not cancelled.
abbrev pub is_live_plan : Text → PlanSubscription → Bool
is_live_plan partner p = plan_of partner p && not (text_eq p.status (codes "CANCELLED"))

-- The two updates, in one.
pub suspend_and_reactivate :
    (partner : Text) (plans : List PlanSubscription)
    → update_where
        (λ p. plan_in partner (codes "PAST_DUE") p || plan_in partner (codes "SUSPENDED") p)
        (with_status (codes "ACTIVE"))
        (update_where (is_live_plan partner) (with_status (codes "SUSPENDED")) plans)
      ≡ update_where (is_live_plan partner) (with_status (codes "ACTIVE")) plans
unfolding text_eq
suspend_and_reactivate partner [] = refl
suspend_and_reactivate partner (p ∷ plans) = elim (Bool-cases (plan_of partner p)) [
  | inl mine ↦ elim (Bool-cases (text_eq p.status (codes "CANCELLED"))) [
    | inl cancelled ↦
        let status = (text_eq_iff p.status (codes "CANCELLED")).0 cancelled in
        let past = subst (λ t. text_eq t (codes "PAST_DUE") ≡ false) (sym status) refl in
        let suspended = subst (λ t. text_eq t (codes "SUSPENDED") ≡ false) (sym status) refl in
        rw (mine, cancelled)
          (rw (mine, past, suspended)
            (ap (λ rest. p ∷ rest) (suspend_and_reactivate partner plans)))
    | inr live ↦
        rw (mine, live)
          (rw mine (
            ap (λ rest. with_status (codes "ACTIVE") p ∷ rest)
              (suspend_and_reactivate partner plans)))
  ]
  | inr other ↦ rw other (rw other (ap (λ rest. p ∷ rest) (suspend_and_reactivate partner plans)))
]

-- An invoice of this id is suspended, and its purge is due 30 days after this day.
abbrev pub SuspendedOn : {m : Money} → Text → ℕ → BillingInvoice m → Type 0
SuspendedOn id day i =
    i.id ≡ id
    → (i.dunning_state ≡ codes "SUSPENDED") × (i.purge_due_at ≡ some (day + dunning_cure_days))

module _ {m : Money} ⦃u : Unicode⦄ (services : Services m) (id partner : Text) where
  lifecycle-subscriptions :
      (s : DunningStore m)
      → (partner_lifecycle services partner s).1.subscriptions ≡ s.subscriptions
  unfolding partner_lifecycle
  lifecycle-subscriptions s = ground arith

  suspend_partner-subscriptions :
      (previous lifecycle : Text) (s : DunningStore m)
      → (suspend_partner services id partner previous lifecycle s).1.subscriptions ≡ s.subscriptions
  suspend_partner-subscriptions previous lifecycle s = ground arith

  pub notify-state :
      (event : Text) (s : DunningStore m)
      → ((notify_dunning services event partner id s).1.subscriptions ≡ s.subscriptions)
        × ((notify_dunning services event partner id s).1.invoices ≡ s.invoices)
  unfolding notify_dunning
  notify-state event s = elim (Bool-cases (is_empty (trim_space services.notifications_host))) [
    | inl silent ↦ rw silent (refl, refl)
    | inr loud ↦ rw loud (refl, refl)
  ]

  revoke-subscriptions :
      (plan_key : Text) (s : DunningStore m)
      → (revoke_entitlements services partner plan_key s).1.subscriptions ≡ s.subscriptions
  revoke-subscriptions plan_key s = ground arith

  suspended_rows :
      (day : ℕ) (previous : Text) (rows : List (BillingInvoice m))
      → All (SuspendedOn id day) (update_where (invoice_id_is id) (suspended_on day previous) rows)
  suspended_rows day previous rows =
      update_where-establishes (SuspendedOn id day) (invoice_id_is id) (suspended_on day previous)
        rows (λ i hit same. (refl, refl)) (λ i miss same. cc ((text_eq_iff i.id id).1 same, miss))

  -- What a suspension that succeeds writes.
  suspend_plan-writes :
      (day : ℕ) (i : BillingInvoice m) (previous : Text) (s t : DunningStore m)
      → suspend_plan services id partner day i previous s ≡ (ok tt, t)
      → (t.subscriptions
          ≡ update_where (is_live_plan partner) (with_status (codes "SUSPENDED")) s.subscriptions)
        × All (SuspendedOn id day) t.invoices
  suspend_plan-writes day i previous s t h =
      let r = revoke_entitlements services partner i.plan_key s in
      let (_, passed, rest) =
        continue-eq-ok r (λ _. write_suspension services id partner day previous) h in
      let written = ap (λ (r : Result DunningError (Unit {0}) × DunningStore m). r.1) rest in
      (
        subst
            (λ plans.
              t.subscriptions
              ≡ update_where (is_live_plan partner) (with_status (codes "SUSPENDED")) plans)
            (revoke-subscriptions i.plan_key s)
            (sym (ap (λ (s : DunningStore m). s.subscriptions) written)),
        subst (All (SuspendedOn id day)) (ap (λ (s : DunningStore m). s.invoices) written)
            (suspended_rows day previous r.1.invoices),
      )

  pub suspend_row-writes :
      (day : ℕ) (i : BillingInvoice m) (s t : DunningStore m)
      → suspend_row services id partner day i s ≡ (ok tt, t)
      → (t.subscriptions
          ≡ update_where (is_live_plan partner) (with_status (codes "SUSPENDED")) s.subscriptions)
        × All (SuspendedOn id day) t.invoices
  unfolding suspend_row
  suspend_row-writes day i s t h =
      let asked = partner_lifecycle services partner s in
      let (lifecycle, _, next) = continue-eq-ok asked (suspend_from services id partner day i) h in
      let stopped =
        suspend_partner services id partner i.pre_suspend_partner_lifecycle lifecycle asked.1 in
      let (previous, _, plan) =
        continue-eq-ok stopped
          (λ previous.
            suspend_plan services id partner day i previous
            >> notify_suspension services id partner)
          next in
      let done = suspend_plan services id partner day i previous stopped.1 in
      let (_, ended, last) =
        continue-eq-ok done (λ _. notify_suspension services id partner) plan in
      let (plans, rows) =
        suspend_plan-writes day i previous stopped.1 done.1 (ap (λ a. (a, done.1)) ended) in
      let told = notify-state (codes "PARTNER_SUSPENDED_NONPAYMENT") done.1 in
      let final = ap (λ (r : Result DunningError (Unit {0}) × DunningStore m). r.1) last in
      (
        sym (ap (λ (s : DunningStore m). s.subscriptions) final)
            ∙ told.0
            ∙ plans
            ∙ ap (update_where (is_live_plan partner) (with_status (codes "SUSPENDED"))) (
                suspend_partner-subscriptions i.pre_suspend_partner_lifecycle lifecycle asked.1
                ∙ lifecycle-subscriptions s),
        subst (All (SuspendedOn id day)) (ap (λ (s : DunningStore m). s.invoices) final)
            (subst (All (SuspendedOn id day)) (sym told.1) rows),
      )
