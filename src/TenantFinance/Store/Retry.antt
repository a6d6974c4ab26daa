-- ===== src/TenantFinance/Store/Retry.antt =====
-- Repeating a request that was accepted.
use himate_system.Base.{
  ℕ, ◌≡◌, refl, ◌∙◌, ap, Bool, true, false, ◌||◌, Option, none, some, List, [], ◌∷◌, ◌++◌, arith,
  find, find-concat_self, ltb, ℤ, Result, ok, reject_if-eq-ok, >>=-eq-ok, Text, text_eq,
  text_eq_refl, is_empty, byte_len, Unicode, trim_space,
}
use himate_system.TenantFinance.Items.{CalculatedItem}
use himate_system.TenantFinance.Store.{
  FinanceError, required_missing, PolicyState, Invoice, Store, has_request_key, load_policy,
}
use himate_system.TenantFinance.Store.Drafts.{
  InvoiceInput, DraftEnvelope, CheckedDraft, check_draft, draft_envelope, draft_invoice,
  insert_draft, create_draft_tx,
}

module _ ⦃u : Unicode⦄ (platform : PolicyState) where
  -- A check reads the policies of the store only.
  check_draft_policies :
      (partner_id raw_currency : Text) (c : _) (terms : Option ℤ) (items : _) (s s' : Store)
      → s'.policies ≡ s.policies
      → check_draft platform partner_id raw_currency c terms items s'
        ≡ check_draft platform partner_id raw_currency c terms items s
  unfolding check_draft load_policy
  check_draft_policies partner_id raw_currency c terms items s s' e = rw e refl

  module _ (hash : DraftEnvelope → Text) where
    abbrev checked : Text → InvoiceInput → Store → Result FinanceError CheckedDraft
    checked partner_id input s =
        check_draft platform partner_id input.currency input.customer input.payment_terms_days
          input.items s

    abbrev identified : Text → Text → InvoiceInput → Bool
    identified partner_id actor_id input =
        let key = trim_space input.request_key in
        is_empty partner_id || is_empty actor_id || is_empty key || ltb 200 (byte_len key)

    abbrev inserted : ℕ → Text → Text → Text → InvoiceInput → CheckedDraft → Invoice
    inserted now id partner_id actor_id input c =
        draft_invoice now id (hash (draft_envelope input c)) partner_id actor_id input c

    pub create_draft_tx-eq-ok :
        (now : ℕ) (id partner_id actor_id : Text) (input : InvoiceInput) (s : Store)
        (r : Text × Bool × Store)
        → create_draft_tx platform hash now id partner_id actor_id input s ≡ ok r
        → (c : CheckedDraft) × (checked partner_id input s ≡ ok c)
          × (identified partner_id actor_id input ≡ false)
          × (insert_draft
                (find (has_request_key partner_id (trim_space input.request_key)) s.invoices)
                (inserted now id partner_id actor_id input c)
                c.totals.items
                s
              ≡ ok r)
    unfolding create_draft_tx
    create_draft_tx-eq-ok now id partner_id actor_id input s r h =
        let (present, h1) =
          reject_if-eq-ok (identified partner_id actor_id input) required_missing _ h in
        let (c, valid, h2) = >>=-eq-ok (checked partner_id input s) _ h1 in (c, valid, present, h2)

    create_draft_tx-valid :
        (now : ℕ) (id partner_id actor_id : Text) (input : InvoiceInput) (s : Store)
        (c : CheckedDraft)
        → checked partner_id input s ≡ ok c
        → identified partner_id actor_id input ≡ false
        → create_draft_tx platform hash now id partner_id actor_id input s
          ≡ insert_draft
              (find (has_request_key partner_id (trim_space input.request_key)) s.invoices)
              (inserted now id partner_id actor_id input c)
              c.totals.items
              s
    unfolding create_draft_tx
    create_draft_tx-valid now id partner_id actor_id input s c valid present =
        rw (present, valid) refl

  -- After an accepted insertion the key belongs to an invoice with the returned id and the same hash.
  insert_draft-found :
      (o : Option Invoice) (key : Invoice → Bool) (i : Invoice) (items : List CalculatedItem)
      (s s' : Store) (out : Text) (d : Bool)
      → find key s.invoices ≡ o
      → key i ≡ true
      → insert_draft o i items s ≡ ok (out, d, s')
      → (s'.policies ≡ s.policies)
        × ((x : Invoice) × (find key s'.invoices ≡ some x)
            × (x.id ≡ out)
            × (text_eq x.draft_hash i.draft_hash ≡ true))
  insert_draft-found none key i items s s' out d f mine h =
      let table : s.invoices ++ (i ∷ []) ≡ s'.invoices = ground arith in
      let policies : s'.policies ≡ s.policies = ground arith in
      let named : i.id ≡ out = ground arith in
      (
        policies,
        (
          i,
          rw (← table) (find-concat_self key s.invoices i f mine),
          named,
          text_eq_refl i.draft_hash,
        ),
      )
  insert_draft-found (some old) key i items s s' out d f mine h =
      let table : s.invoices ≡ s'.invoices = ground arith in
      let policies : s'.policies ≡ s.policies = ground arith in
      let named : old.id ≡ out = ground arith in
      let same : text_eq old.draft_hash i.draft_hash ≡ true = ground arith in
      (policies, (old, rw (← table) f, named, same))

  insert_draft_same :
      (x i : Invoice) (items : List CalculatedItem) (s : Store) (out : Text)
      → x.id ≡ out
      → text_eq x.draft_hash i.draft_hash ≡ true
      → insert_draft (some x) i items s ≡ ok (out, true, s)
  insert_draft_same x i items s out e same = rw (same, e) refl

  -- A request for a draft that was accepted is accepted again at any later time, also with another fresh
  -- identifier: it names the invoice of the first request and changes nothing.
  pub create_draft_tx_twice :
      (hash : DraftEnvelope → Text) (now later : ℕ) (id id' partner_id actor_id : Text)
      (input : InvoiceInput) (s s' : Store) (out : Text) (d : Bool)
      → create_draft_tx platform hash now id partner_id actor_id input s ≡ ok (out, d, s')
      → create_draft_tx platform hash later id' partner_id actor_id input s' ≡ ok (out, true, s')
  create_draft_tx_twice hash now later id id' partner_id actor_id input s s' out d h =
      let (c, valid, present, h1) =
        create_draft_tx-eq-ok hash now id partner_id actor_id input s (out, d, s') h in
      let key = has_request_key partner_id (trim_space input.request_key) in
      let i = inserted hash now id partner_id actor_id input c in
      let mine : key i ≡ true =
        rw (text_eq_refl partner_id, text_eq_refl (trim_space input.request_key)) refl in
      let (policies, (x, found, named, same)) =
        insert_draft-found (find key s.invoices) key i c.totals.items s s' out d refl mine h1 in
      let valid' =
        check_draft_policies partner_id input.currency input.customer input.payment_terms_days
          input.items s s' policies
        ∙ valid in
      create_draft_tx-valid hash later id' partner_id actor_id input s' c valid' present
      ∙ ap
          (λ o.
            insert_draft o (inserted hash later id' partner_id actor_id input c) c.totals.items s')
          found
      ∙ insert_draft_same x (inserted hash later id' partner_id actor_id input c) c.totals.items s'
          out named same
