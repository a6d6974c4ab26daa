-- ===== src/Billing/Dunning/Purged.antt =====
-- services/cmd/billing/dunning.go, archiveExpiredDunning: what a cycle purges when the other services accept its
-- requests.
use mathlib.Core.Path.{subst}
use himate_system.Base.{
  ℕ, zero, suc, ◌≤◌, ◌≡◌, refl, sym, arith, inl, inr, Bool, true, false, ◌||◌, Bool-cases, List, [],
  ◌∷◌, length, count, select, insert_by, sort_by, take, update_where, All, All-map, Result, ok, err,
  none, some, Text, codes, text_eq, text_eq_iff, text_eq_refl, is_empty, trim_space, ◌++◌, Unicode,
}
use himate_system.Payments.{Money}
use himate_system.Billing.{BillingInvoice, invoice_id_is}
use himate_system.Billing.Dunning.{
  ServiceCall, DunningStore, DunningError, set_entitlements, purge_access, Services, Step, continue,
}
use himate_system.Billing.Dunning.Steps.{notify_dunning}
use himate_system.Billing.Dunning.Cycle.{
  archive_invoice, archive_expired_dunning, for_each, expired_rows, is_expired, purged_on,
  archive_limit, by_purge_due,
}

module _ {m : Money} where
  -- An invoice of the list has this id.
  abbrev has_id : Text → List (BillingInvoice m) → Bool
  has_id id [] = false
  has_id id (x ∷ xs) = text_eq x.id id || has_id id xs

  has_id-insert_by :
      (before : BillingInvoice m → BillingInvoice m → Bool) (id : Text) (x : BillingInvoice m)
      (xs : List (BillingInvoice m))
      → has_id id (insert_by before x xs) ≡ (text_eq x.id id || has_id id xs)
  unfolding insert_by
  has_id-insert_by before id x [] = refl
  has_id-insert_by before id x (y ∷ ys) = ground (arith, has_id-insert_by before id x ys)

  has_id-sort_by :
      (before : BillingInvoice m → BillingInvoice m → Bool) (id : Text)
      (xs : List (BillingInvoice m))
      → has_id id (sort_by before xs) ≡ has_id id xs
  unfolding sort_by
  has_id-sort_by before id [] = refl
  has_id-sort_by before id (x ∷ xs) =
      ground (arith, has_id-insert_by before id x (sort_by before xs), has_id-sort_by before id xs)

  length-insert_by :
      (before : BillingInvoice m → BillingInvoice m → Bool) (x : BillingInvoice m)
      (xs : List (BillingInvoice m))
      → length (insert_by before x xs) ≡ suc (length xs)
  unfolding insert_by
  length-insert_by before x [] = refl
  length-insert_by before x (y ∷ ys) = ground (arith, length-insert_by before x ys)

  length-sort_by :
      (before : BillingInvoice m → BillingInvoice m → Bool) (xs : List (BillingInvoice m))
      → length (sort_by before xs) ≡ length xs
  unfolding sort_by
  length-sort_by before [] = refl
  length-sort_by before (x ∷ xs) =
      ground (arith, length-insert_by before x (sort_by before xs), length-sort_by before xs)

  length-select :
      (p : BillingInvoice m → Bool) (xs : List (BillingInvoice m))
      → length (select p xs) ≡ count p xs
  length-select p [] = refl
  length-select p (x ∷ xs) = ground (arith, length-select p xs)

  take-all : (n : ℕ) (xs : List (BillingInvoice m)) → length xs ≤ n → take n xs ≡ xs
  take-all zero [] h = refl
  take-all zero (x ∷ xs) h = absurd (omega arith)
  take-all (suc n) [] h = refl
  take-all (suc n) (x ∷ xs) h = ground (arith, take-all n xs)

  -- The rows that pass are among those that are selected.
  select-has_id :
      (p : BillingInvoice m → Bool) (all xs : List (BillingInvoice m))
      → ((id : Text) → has_id id (select p xs) ≡ true → has_id id all ≡ true)
      → All (λ i. p i ≡ true → has_id i.id all ≡ true) xs
  select-has_id p all [] part = tt
  select-has_id p all (x ∷ xs) part = elim (Bool-cases (p x)) [
    | inl hit ↦ (
      (λ _. part x.id (rw (hit, text_eq_refl x.id) refl)),
      select-has_id p all xs (λ id h. part id (rw hit (ground (arith, h)))),
    )
    | inr miss ↦ ((λ hit. cc (miss, hit)), select-has_id p all xs (λ id h. part id (rw miss h)))
  ]

  -- Each expired invoice has the id of a listed one.
  abbrev Listed : ℕ → List (BillingInvoice m) → BillingInvoice m → Type 0
  Listed at items i = is_expired at i ≡ true → has_id i.id items ≡ true

  -- An invoice that is suspended although its purge is due.
  abbrev pub Lingers : ℕ → BillingInvoice m → Type 0
  Lingers at i =
      (due : ℕ) × (i.dunning_state ≡ codes "SUSPENDED")
      × (i.purge_due_at ≡ some due)
      × (due ≤ at)
      × (i.operational_purged_at ≡ none)

  Lingers-expired : (at : ℕ) (i : BillingInvoice m) → Lingers at i → is_expired at i ≡ true
  unfolding text_eq
  Lingers-expired at i (due, state, until, past, unpurged) =
      rw (state, until, unpurged) (ground (arith, past))

  not_expired : (at : ℕ) (i : BillingInvoice m) → Listed at [] i → is_expired at i ≡ false
  not_expired at i listed = elim (Bool-cases (is_expired at i)) [
    | inl expired ↦ cc (listed expired)
    | inr fine ↦ fine
  ]

  listed_later :
      (x : BillingInvoice m) (items : List (BillingInvoice m)) (i : BillingInvoice m)
      → invoice_id_is x.id i ≡ false
      → has_id i.id (x ∷ items) ≡ true
      → has_id i.id items ≡ true
  listed_later x items i miss h = ground (arith, h, text_eq_iff x.id i.id, text_eq_iff i.id x.id)

  module _ ⦃u : Unicode⦄ (services : Services m) where
    expired_rows-Listed :
        (at : ℕ) (s : DunningStore m)
        → count (is_expired at) s.invoices ≤ archive_limit
        → All (Listed at (expired_rows services at s)) s.invoices
    expired_rows-Listed at s few =
        let sorted = sort_by (by_purge_due services.before) (select (is_expired at) s.invoices) in
        let all : expired_rows services at s ≡ sorted = take-all archive_limit sorted (
          omega (
            arith,
            length-sort_by (by_purge_due services.before) (select (is_expired at) s.invoices),
            length-select (is_expired at) s.invoices,
          )) in
        select-has_id (is_expired at) (expired_rows services at s) s.invoices (λ id h.
          rw
            (
              all,
              has_id-sort_by (by_purge_due services.before) id (select (is_expired at) s.invoices),
            )
            h)

  module _ ⦃u : Unicode⦄ (services : Services m)
      (accepted : (calls : List (ServiceCall m)) → services.accepts calls ≡ true) where
    -- The notification and the calls leave the invoices alone.
    archive_invoice-accepted :
        (now : ℕ) (x : BillingInvoice m) (s : DunningStore m)
        → ((archive_invoice services now x s).0 ≡ ok tt)
          × ((archive_invoice services now x s).1.invoices
              ≡ update_where (invoice_id_is x.id) (purged_on now) s.invoices)
    unfolding archive_invoice notify_dunning
    archive_invoice-accepted now x s =
        let closed : List (ServiceCall m) =
          s.sent ++ set_entitlements x.partner_id x.plan_key [] ∷ [] in
        let purged : List (ServiceCall m) = closed ++ purge_access x.partner_id ∷ [] in
        rw (accepted closed, accepted purged)
          (elim (Bool-cases (is_empty (trim_space services.notifications_host))) [
            | inl silent ↦ rw silent (refl, refl)
            | inr loud ↦ rw loud (refl, refl)
          ])

    -- The purge of the first listed invoice takes it off the list.
    purged-Listed :
        (now at : ℕ) (x : BillingInvoice m) (items rows : List (BillingInvoice m))
        → All (Listed at (x ∷ items)) rows
        → All (Listed at items) (update_where (invoice_id_is x.id) (purged_on now) rows)
    unfolding text_eq
    purged-Listed now at x items [] h = tt
    purged-Listed now at x items (i ∷ rows) h = elim (Bool-cases (invoice_id_is x.id i)) [
      | inl hit ↦ rw hit ((λ e. cc e), purged-Listed now at x items rows h.1)
      | inr miss ↦
          rw miss
            ((λ e. listed_later x items i miss (h.0 e)), purged-Listed now at x items rows h.1)
    ]

    abbrev Empties : ℕ → Result DunningError (Unit {0}) × DunningStore m → Type 0
    Empties at r = (r.0 ≡ ok tt) × All (λ i. is_expired at i ≡ false) r.1.invoices

    after_row :
        (at : ℕ) (items : List (BillingInvoice m))
        (r : Result DunningError (Unit {0}) × DunningStore m) (rest : Step m (Unit {0}))
        → ((s : DunningStore m) → All (Listed at items) s.invoices → Empties at (rest s))
        → r.0 ≡ ok tt
        → All (Listed at items) r.1.invoices
        → Empties at (continue r (λ _. rest))
    after_row at items (err failure, s) rest empties passed h = cc
    after_row at items (ok value, s) rest empties passed h = empties s h

    for_each-accepted :
        (now at : ℕ) (items : List (BillingInvoice m)) (s : DunningStore m)
        → All (Listed at items) s.invoices
        → ((for_each (archive_invoice services now) items s).0 ≡ ok tt)
          × All
              (λ i. is_expired at i ≡ false)
              (for_each (archive_invoice services now) items s).1.invoices
    unfolding for_each
    for_each-accepted now at [] s h =
        (refl, All-map (Listed at []) _ s.invoices (λ i listed. not_expired at i listed) h)
    for_each-accepted now at (x ∷ items) s h =
        let (accepted_row, written) = archive_invoice-accepted now x s in
        after_row at items (archive_invoice services now x s)
          (for_each (archive_invoice services now) items) (for_each-accepted now at items)
          accepted_row
          (subst (All (Listed at items)) (sym written) (purged-Listed now at x items s.invoices h))

    -- If the other services accept the calls of the archive and no more than 200 suspended invoices are
    -- past their cure window, the archive of the day succeeds and leaves no invoice suspended whose
    -- purge has come due, whether it was paid in the meantime or not.
    pub archive_expired_dunning-purges :
        (now at : ℕ) (s : DunningStore m)
        → count (is_expired at) s.invoices ≤ archive_limit
        → ((archive_expired_dunning services now at s).0 ≡ ok tt)
          × All (λ i. ¬ Lingers at i) (archive_expired_dunning services now at s).1.invoices
    unfolding archive_expired_dunning
    archive_expired_dunning-purges now at s few =
        let (passed, empty) =
          for_each-accepted now at (expired_rows services at s) s
            (expired_rows-Listed services at s few) in
        (
          passed,
          All-map _ (λ i. ¬ Lingers at i) _ (λ i fine stays. cc (fine, Lingers-expired at i stays))
              empty,
        )
