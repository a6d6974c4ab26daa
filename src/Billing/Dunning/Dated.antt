-- ===== src/Billing/Dunning/Dated.antt =====
-- services/cmd/billing/dunning.go: the dates of a suspension and of a purge.
use mathlib.Core.Path.{subst}
use native.Mathlib.Nat.{le_trans}
use himate_system.Base.{
  ℕ, ◌+◌, ◌≡◌, ◌≢◌, ◌≤◌, inl, inr, Bool-cases, refl, sym, arith, Bool, true, false, some, List, [],
  ◌∷◌, if◌then◌else◌, All, All-map, All-zip, All-every, Text, codes, text_eq, text_eq_iff, Unicode,
}
use himate_system.Payments.{Money}
use himate_system.Billing.{BillingInvoice, invoice_id_is}
use himate_system.Billing.Dunning.{DunningStore, ChargeAnswer, Services}
use himate_system.Billing.Dunning.Steps.{is_settled_state}
use himate_system.Billing.Dunning.Cycle.{
  archive_expired_dunning, expired_rows, is_expired, due_by, purged_on,
}
use himate_system.Billing.Dunning.Keeps.{Keeps, Rules, ids_of}
use himate_system.Billing.Dunning.Keeps.Cycle.{ChargeRules}
use himate_system.Billing.Dunning.Collect.{attempted}
use himate_system.Billing.Dunning.Keeps.Archive.{archive_expired_dunning-Keeps, expired_rows-All}

-- The id is the primary key of the invoices.
abbrev pub Absent : Text → List Text → Type 0
Absent key keys = All (λ k. text_eq k key ≡ false) keys

abbrev pub Unique : List Text → Type 0
Unique [] = Unit
Unique (key ∷ keys) = Absent key keys × Unique keys

is_due : (due at : ℕ) → due_by at (some due) ≡ true → due ≤ at
is_due due at h = ground (arith, h)

-- A state that is neither SUSPENDED nor PURGED.
pub other_state :
    {A B : Type 0} (state : Text)
    → text_eq state (codes "SUSPENDED") ≡ false
    → text_eq state (codes "PURGED") ≡ false
    → (state ≡ codes "SUSPENDED" → A) × (state ≡ codes "PURGED" → B)
other_state state no_suspension no_purge = (
  λ e. cc ((text_eq_iff state (codes "SUSPENDED")).1 e, no_suspension),
  λ e. cc ((text_eq_iff state (codes "PURGED")).1 e, no_purge),
)

purged_not_suspended : text_eq (codes "PURGED") (codes "SUSPENDED") ≡ false
unfolding text_eq
purged_not_suspended = refl

suspended_not_purged : text_eq (codes "SUSPENDED") (codes "PURGED") ≡ false
unfolding text_eq
suspended_not_purged = refl

pub texts_differ : (s t : Text) → text_eq s t ≡ false → s ≢ t
texts_differ s t h e = cc ((text_eq_iff s t).1 e)

module _ {m : Money} where
  -- An invoice suspended on some day from `since` to `at`, with its purge due 30 days later, and one whose day has
  -- come.
  abbrev pub Suspended : ℕ → ℕ → BillingInvoice m → Type 0
  Suspended since at i =
      (day : ℕ) × (since ≤ day)
      × (day ≤ at)
      × (i.dunning_suspended_at ≡ some day)
      × (i.purge_due_at ≡ some (day + 30))

  abbrev pub CureOver : ℕ → ℕ → BillingInvoice m → Type 0
  CureOver since at i =
      (day : ℕ) × (since ≤ day)
      × (i.dunning_suspended_at ≡ some day)
      × (i.purge_due_at ≡ some (day + 30))
      × (day + 30 ≤ at)

  abbrev pub OnTime : ℕ → ℕ → BillingInvoice m → Type 0
  OnTime since at i =
      (i.dunning_state ≡ codes "SUSPENDED" → Suspended since at i)
      × (i.dunning_state ≡ codes "PURGED" → CureOver since at i)

  expired_parts :
      (at : ℕ) (x : BillingInvoice m)
      → is_expired at x ≡ true
      → (x.dunning_state ≡ codes "SUSPENDED") × (due_by at x.purge_due_at ≡ true)
  expired_parts at x expired = (
    (text_eq_iff x.dunning_state (codes "SUSPENDED")).0 (ground (arith, expired)),
    ground (arith, expired),
  )

  -- The suspension's dates lie in the past of a purge.
  expired_CureOver :
      (date since at : ℕ) (x : BillingInvoice m)
      → date ≤ at
      → is_expired date x ≡ true
      → OnTime since at x
      → CureOver since at x
  expired_CureOver date since at x past expired t =
      let (suspended, due) = expired_parts date x expired in
      let (day, from_then, so_far, on, until) = t.0 suspended in
      (
        day,
        from_then,
        on,
        until,
        le_trans (is_due (day + 30) date (subst (λ d. due_by date d ≡ true) until due)) past,
      )

  purged_OnTime :
      (since at now : ℕ) (i : BillingInvoice m)
      → CureOver since at i
      → OnTime since at (purged_on now i)
  purged_OnTime since at now i over = (
    (λ e. absurd (texts_differ (codes "PURGED") (codes "SUSPENDED") purged_not_suspended e)),
    λ _. over,
  )

  pub OnTime-Rules : (since at : ℕ) → Rules (OnTime since at)
  unfolding text_eq
  OnTime-Rules since at = record {
    allowed = λ day. (since ≤ day) × (day ≤ at);
    past_due = λ i open_state t. other_state (codes "PAST_DUE") refl refl;
    previous = λ i lifecycle t. t;
    suspended = λ read i day lifecycle same open_state p (from_then, so_far) t. (
      (λ _. (day, from_then, so_far, refl, refl)),
      λ e. absurd (texts_differ (codes "SUSPENDED") (codes "PURGED") suspended_not_purged e),
    );
    recovered = λ i open_state t. other_state (codes "RECOVERED") refl refl;
  }

  attempted_OnTime :
      (since at : ℕ) (i : BillingInvoice m) (attempt : ℕ) (failed : Bool) (c : ChargeAnswer)
      → OnTime since at i
      → OnTime since at
          (attempted attempt (if failed then codes "PAST_DUE" else codes "COLLECTING") c i)
  unfolding text_eq
  attempted_OnTime since at i attempt failed c t = elim (Bool-cases (is_settled_state i)) [
    | inl settled ↦ rw settled t
    | inr open_state ↦ rw open_state (elim (Bool-cases failed) [
      | inl e ↦ rw e (other_state (codes "PAST_DUE") refl refl)
      | inr e ↦ rw e (other_state (codes "COLLECTING") refl refl)
    ])
  ]

  pub OnTime-ChargeRules : (since at : ℕ) → ChargeRules (OnTime since at)
  OnTime-ChargeRules since at = record {
    attempted = λ i attempt failed c bound t. attempted_OnTime since at i attempt failed c t;
    charged = λ i c t. t;
    pending = λ i status t. t;
  }

  -- Rows with one id are one row, which a query finds.
  abbrev IsOnly : List (BillingInvoice m) → BillingInvoice m → Type 0
  IsOnly rows x = All (λ i. invoice_id_is x.id i ≡ true → i ≡ x) rows

  Absent-rows :
      (x : BillingInvoice m) (rows : List (BillingInvoice m))
      → Absent x.id (ids_of rows)
      → All (λ i. text_eq i.id x.id ≡ false) rows
  Absent-rows x [] h = tt
  Absent-rows x (i ∷ rows) h = (h.0, Absent-rows x rows h.1)

  Unique-IsOnly : (rows : List (BillingInvoice m)) → Unique (ids_of rows) → All (IsOnly rows) rows
  Unique-IsOnly [] h = tt
  Unique-IsOnly (x ∷ rows) h =
      let absent = Absent-rows x rows h.0 in
      (
        ((λ same. refl), All-map _ _ rows (λ i miss hit. cc (miss, hit)) absent),
        All-zip _ _ _ rows
            (λ i miss only. (
              (λ hit. cc ((text_eq_iff i.id x.id).1 (sym ((text_eq_iff x.id i.id).0 hit)), miss)),
              only,
            ))
            absent (Unique-IsOnly rows h.1),
      )

  -- Every invoice that has the id of a listed one is over its cure window.
  abbrev Ready : ℕ → ℕ → List (BillingInvoice m) → BillingInvoice m → Type 0
  Ready since at items i = All (λ x. i.id ≡ x.id → CureOver since at i) items

  Ready-apply :
      (since at : ℕ) (items rest : List (BillingInvoice m))
      → ((i : BillingInvoice m) → Ready since at items i → Ready since at rest i)
      → All
          (λ x. (i : BillingInvoice m) → Ready since at items i → i.id ≡ x.id → CureOver since at i)
          rest
  Ready-apply since at items [] part = tt
  Ready-apply since at items (x ∷ rest) part =
      ((λ i r same. (part i r).0 same), Ready-apply since at items rest (λ i r. (part i r).1))

  Ready-join :
      (since at : ℕ) (items rows : List (BillingInvoice m))
      → All (λ x. All (λ i. i.id ≡ x.id → CureOver since at i) rows) items
      → All (Ready since at items) rows
  Ready-join since at [] rows h = All-every (Ready since at []) rows (λ i. tt)
  Ready-join since at (x ∷ items) rows h =
      All-zip _ _ (Ready since at (x ∷ items)) rows (λ i mine rest. (mine, rest)) h.0
        (Ready-join since at items rows h.1)

  module _ ⦃u : Unicode⦄ (services : Services m) where
    expired_rows-Ready :
        (date since at : ℕ) (s : DunningStore m)
        → date ≤ at
        → Unique (ids_of s.invoices)
        → All (OnTime since at) s.invoices
        → All (Ready since at (expired_rows services date s)) s.invoices
    expired_rows-Ready date since at s past unique h =
        Ready-join since at (expired_rows services date s) s.invoices (
          expired_rows-All (λ x. OnTime since at x × IsOnly s.invoices x) _ services date s
            (λ x expired p.
              All-map _ _ s.invoices
                (λ i only same.
                  subst (CureOver since at) (sym (only ((text_eq_iff i.id x.id).1 same)))
                    (expired_CureOver date since at x past expired p.0))
                p.1)
            (All-zip (OnTime since at) (IsOnly s.invoices) _ s.invoices (λ i t only. (t, only)) h
              (Unique-IsOnly s.invoices unique)))

    pub archive_expired_dunning-OnTime :
        (keys : List Text) (now date since at : ℕ)
        → date ≤ at
        → Unique keys
        → Keeps (OnTime since at) keys (archive_expired_dunning services now date)
    archive_expired_dunning-OnTime keys now date since at past unique s h =
        let items = expired_rows services date s in
        let ready = expired_rows-Ready date since at s past (subst Unique (sym h.1) unique) h.0 in
        let kept =
          archive_expired_dunning-Keeps (λ i. OnTime since at i × Ready since at items i) keys
            services now date s
            (All-map _ _ items
              (λ x over i same q.
                (purged_OnTime since at now i (over i q.1 ((text_eq_iff i.id x.id).0 same)), q.1))
              (Ready-apply since at items items (λ i r. r)))
            (
              All-zip (OnTime since at) (Ready since at items) _ s.invoices (λ i t r. (t, r)) h.0
                  ready,
              h.1,
            ) in
        (All-map _ (OnTime since at) _ (λ i q. q.0) kept.0, kept.1)

-- The days of the window.
pub OnTime-allowed :
    (m : Money) (since at day : ℕ)
    → (since ≤ day) × (day ≤ at)
    → (OnTime-Rules {m = m} since at).allowed day
unfolding OnTime-Rules
OnTime-allowed m since at day within = within
