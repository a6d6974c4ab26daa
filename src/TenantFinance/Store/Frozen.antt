-- ===== src/TenantFinance/Store/Frozen.antt =====
-- What the writing operations may do to the invoices that are there.
use himate_system.Base.{
  ℕ, ◌≡◌, refl, sym, Bool, true, ◌||◌, Option, none, some, List, [], ◌∷◌, ◌++◌, arith, inl, inr,
  ◌⊎◌, Bool-cases, find, count, update_where, All, ok, reject_if-eq-ok, >>=-eq-ok, is_empty, Text,
  text_eq_iff, Unicode, trim_space,
}
use himate_system.Automation.Outbox.{enqueue_tx}
use himate_system.TenantFinance.Items.{CalculatedItem}
use himate_system.TenantFinance.Parties.{manual, source_text, IssuerSnapshot, normalize_customer}
use himate_system.TenantFinance.Store.{
  PolicyState, InvoiceStatus, draft, Invoice, Store, has_id, is_invoice, has_request_key, map_error,
  party_error, outbox_error, required_missing, load_policy, issuer_of,
}
use himate_system.TenantFinance.Store.Drafts.{
  InvoiceInput, InvoiceDraftUpdate, DraftEnvelope, CheckedDraft, check_draft, draft_invoice,
  draft_envelope, insert_draft, create_draft_tx, update_found, update_draft_tx, rewrite_draft,
  is_manual, is_draft, is_ready,
}
use himate_system.TenantFinance.Store.Retry.{create_draft_tx-eq-ok}
use himate_system.TenantFinance.Store.Issue.{
  Profiles, AutomatedInvoiceIntent, finalize_draft, finalize_found, finalize_tx, same_source,
  create_unless, insert_automated, resolved_terms, ready_event, manual_payload, resolved_terms,
  ready_event, manual_payload, finalized,
}

-- An invoice is kept as it is, or it was a manual draft of the partner and keeps its identity.
pub data InvoiceStep (partner_id : Text) (x y : Invoice) : Type 0 where
  keep : y ≡ x → InvoiceStep partner_id x y
  change :
      x.status ≡ draft
      → x.source_type ≡ source_text manual
      → x.partner_id ≡ partner_id
      → (y.id ≡ x.id)
        × (y.partner_id ≡ x.partner_id)
        × (y.source_type ≡ x.source_type)
        × (y.request_key ≡ x.request_key)
        × (y.draft_hash ≡ x.draft_hash)
        × (y.created_by ≡ x.created_by)
      → InvoiceStep partner_id x y

-- Every invoice is still there, in its place, by such a step; new ones come after them.
abbrev pub Grown : Text → List Invoice → List Invoice → Type 0
Grown partner_id [] ys = Unit
Grown partner_id (x ∷ xs) [] = ⊥
Grown partner_id (x ∷ xs) (y ∷ ys) = InvoiceStep partner_id x y × Grown partner_id xs ys

-- The primary key.
abbrev pub IdsUnique : List Invoice → Type 0
IdsUnique [] = Unit
IdsUnique (x ∷ xs) = (count (has_id x.id) xs ≡ 0) × IdsUnique xs

-- Every invoice is still there, unchanged, and at most one comes after them.
abbrev pub Extends : List Invoice → List Invoice → Type 0
Extends xs ys = (ys ≡ xs) ⊎ ((new : Invoice) × (ys ≡ xs ++ (new ∷ [])))

Grown-refl : (partner_id : Text) (xs : List Invoice) → Grown partner_id xs xs
Grown-refl partner_id [] = tt
Grown-refl partner_id (x ∷ xs) = (keep refl, Grown-refl partner_id xs)

Grown-update_where :
    (partner_id : Text) (q : Invoice → Bool) (f : Invoice → Invoice) (i : Invoice)
    (xs : List Invoice)
    → InvoiceStep partner_id i (f i)
    → All (λ x. q x ≡ true → x ≡ i) xs
    → Grown partner_id xs (update_where q f xs)
Grown-update_where partner_id q f i [] step h = tt
Grown-update_where partner_id q f i (x ∷ xs) step h = elim (Bool-cases (q x)) [
  | inl hit ↦ rw hit (rw (h.0 hit) step, Grown-update_where partner_id q f i xs step h.1)
  | inr miss ↦ rw miss (keep refl, Grown-update_where partner_id q f i xs step h.1)
]

absent-is_invoice :
    (partner_id id : Text) (i : Invoice) (xs : List Invoice)
    → count (has_id id) xs ≡ 0
    → All (λ x. is_invoice partner_id id x ≡ true → x ≡ i) xs
absent-is_invoice partner_id id i [] h = tt
absent-is_invoice partner_id id i (x ∷ xs) h =
    ((λ m. ground arith), absent-is_invoice partner_id id i xs (ground arith))

-- The row that the transaction locks is the only one that its update writes.
pub unique-found :
    (partner_id id : Text) (i : Invoice) (xs : List Invoice)
    → IdsUnique xs
    → find (is_invoice partner_id id) xs ≡ some i
    → All (λ x. is_invoice partner_id id x ≡ true → x ≡ i) xs
unique-found partner_id id i [] k h = tt
unique-found partner_id id i (x ∷ xs) k h = elim (Bool-cases (is_invoice partner_id id x)) [
  | inl hit ↦
      let found : x ≡ i = ground arith in
      let same : x.id ≡ id = (text_eq_iff x.id id).0 (ground arith) in
      ((λ _. found), absent-is_invoice partner_id id i xs (rw same at k.0))
  | inr miss ↦ ((λ m. cc), unique-found partner_id id i xs k.1 (rw miss at h))
]

found-is_invoice :
    (partner_id id : Text) (i : Invoice) (xs : List Invoice)
    → find (is_invoice partner_id id) xs ≡ some i
    → i.partner_id ≡ partner_id
found-is_invoice partner_id id i [] h = cc
found-is_invoice partner_id id i (x ∷ xs) h =
    ground (arith, text_eq_iff x.partner_id partner_id, found-is_invoice partner_id id i xs)

abbrev pub Keyed : Store → Type 0
Keyed s = IdsUnique s.invoices

draft_status : (st : InvoiceStatus) → is_draft st ≡ true → st ≡ draft
draft_status st h = ground arith

module _ ⦃u : Unicode⦄ where
  insert_draft-Extends :
      (o : Option Invoice) (i : Invoice) (items : List CalculatedItem) (s s' : Store) (id : Text)
      (d : Bool)
      → insert_draft o i items s ≡ ok (id, d, s')
      → Extends s.invoices s'.invoices
  insert_draft-Extends none i items s s' id d h =
      let table : s.invoices ++ (i ∷ []) ≡ s'.invoices = ground arith in inr (i, sym table)
  insert_draft-Extends (some old) i items s s' id d h =
      let table : s.invoices ≡ s'.invoices = ground arith in inl (sym table)

  update_found-Grown :
      (o : Option Invoice) (id partner_id actor_id : Text) (input : InvoiceDraftUpdate)
      (c : CheckedDraft) (s s' : Store) (out : Text) (d : Bool)
      → Keyed s
      → find (is_invoice partner_id id) s.invoices ≡ o
      → update_found o id partner_id actor_id input c s ≡ ok (out, d, s')
      → Grown partner_id s.invoices s'.invoices
  update_found-Grown none id partner_id actor_id input c s s' out d k f h = cc
  update_found-Grown (some i) id partner_id actor_id input c s s' out d k f h =
      let table : update_where (is_invoice partner_id id) (rewrite_draft input c) s.invoices
          ≡ s'.invoices =
        ground arith in
      let st : is_draft i.status ≡ true = ground arith in
      let by_hand : is_manual i.source_type ≡ true = ground arith in
      rw (← table) (
        Grown-update_where partner_id (is_invoice partner_id id) (rewrite_draft input c) i
          s.invoices
          (change (draft_status i.status st)
            ((text_eq_iff i.source_type (source_text manual)).0 by_hand)
            (found-is_invoice partner_id id i s.invoices f) (refl, refl, refl, refl, refl, refl))
          (unique-found partner_id id i s.invoices k f))

  finalize_draft-Grown :
      (now : ℕ) (partner_id actor_id id correlation_id : Text) (issuer : IssuerSnapshot)
      (policy : PolicyState) (i : Invoice) (s s' : Store) (out : Text) (d : Bool)
      → Keyed s
      → find (is_invoice partner_id id) s.invoices ≡ some i
      → is_manual i.source_type ≡ true
      → is_draft i.status ≡ true
      → finalize_draft now partner_id actor_id id correlation_id issuer policy i s ≡ ok (out, d, s')
      → Grown partner_id s.invoices s'.invoices
  unfolding finalize_draft
  finalize_draft-Grown now partner_id actor_id id correlation_id issuer policy i s s' out d k f
        by_hand st h =
      let (customer, _, h1) =
        >>=-eq-ok (map_error party_error (normalize_customer i.customer true)) _ h in
      let (days, _, h2) = >>=-eq-ok (resolved_terms policy i.payment_terms_override) _ h1 in
      let event =
        ready_event now id partner_id correlation_id [] (manual_payload id policy.invoice_prefix) in
      let (outbox, _, h3) =
        >>=-eq-ok (map_error outbox_error (enqueue_tx now event s.outbox)) _ h2 in
      let write = finalized now policy days issuer customer actor_id in
      let table : update_where (is_invoice partner_id id) write s.invoices ≡ s'.invoices =
        ground arith in
      rw (← table) (
        Grown-update_where partner_id (is_invoice partner_id id) write i s.invoices
          (change (draft_status i.status st)
            ((text_eq_iff i.source_type (source_text manual)).0 by_hand)
            (found-is_invoice partner_id id i s.invoices f) (refl, refl, refl, refl, refl, refl))
          (unique-found partner_id id i s.invoices k f))

  finalize_found-Grown :
      (o : Option Invoice) (now : ℕ) (partner_id actor_id id correlation_id : Text)
      (issuer : IssuerSnapshot) (policy : PolicyState) (s s' : Store) (out : Text) (d : Bool)
      → Keyed s
      → find (is_invoice partner_id id) s.invoices ≡ o
      → finalize_found o now partner_id actor_id id correlation_id issuer policy s ≡ ok (out, d, s')
      → Grown partner_id s.invoices s'.invoices
  finalize_found-Grown none now partner_id actor_id id correlation_id issuer policy s s' out d k f
        h =
      cc
  finalize_found-Grown (some i) now partner_id actor_id id correlation_id issuer policy s s' out d k
        f h =
      elim (Bool-cases (is_manual i.source_type)) [
        | inr foreign ↦ cc (rw foreign at h)
        | inl by_hand ↦ elim (Bool-cases (is_ready i.status)) [
          | inl ready ↦
              let same = (rw (by_hand, ready) at h) in
              let table : s.invoices ≡ s'.invoices = ground arith in
              rw (← table) (Grown-refl partner_id s.invoices)
          | inr unready ↦ elim (Bool-cases (is_draft i.status)) [
            | inr other ↦ cc (rw (by_hand, unready, other) at h)
            | inl st ↦
                finalize_draft-Grown now partner_id actor_id id correlation_id issuer policy i s s'
                  out d k f by_hand st (rw (by_hand, unready, st) at h)
          ]
        ]
      ]

  insert_automated-Extends :
      (now : ℕ) (intent : AutomatedInvoiceIntent) (i : Invoice) (items : List CalculatedItem)
      (s s' : Store) (out : Text) (d : Bool)
      → insert_automated now intent i items s ≡ ok (out, d, s')
      → Extends s.invoices s'.invoices
  unfolding insert_automated
  insert_automated-Extends now intent i items s s' out d h =
      let table : s.invoices ++ (i ∷ []) ≡ s'.invoices = ground arith in inr (i, sym table)

  pub same_source-Extends :
      (hash : Text) (old : Invoice) (s s' : Store) (out : Text) (d : Bool)
      → same_source hash old s ≡ ok (out, d, s')
      → Extends s.invoices s'.invoices
  same_source-Extends hash old s s' out d h =
      let table : s.invoices ≡ s'.invoices = ground arith in inl (sym table)

  pub create_unless-Extends :
      (o : Option Invoice) (now : ℕ) (hash : Text) (intent : AutomatedInvoiceIntent) (i : Invoice)
      (items : List CalculatedItem) (s s' : Store) (out : Text) (d : Bool)
      → create_unless o now hash intent i items s ≡ ok (out, d, s')
      → Extends s.invoices s'.invoices
  create_unless-Extends none now hash intent i items s s' out d h =
      insert_automated-Extends now intent i items s s' out d h
  create_unless-Extends (some old) now hash intent i items s s' out d h =
      same_source-Extends hash old s s' out d h

module _ ⦃u : Unicode⦄ (platform : PolicyState) where
  -- Rewriting a draft changes at most manual drafts of the partner that asks, and of these not the
  -- identity, the request key, its hash or the author. All other invoices, of other partners and ready
  -- ones, stay as they are.
  pub update_draft_tx-Grown :
      (partner_id actor_id id : Text) (input : InvoiceDraftUpdate) (s s' : Store) (out : Text)
      (d : Bool)
      → Keyed s
      → update_draft_tx platform partner_id actor_id id input s ≡ ok (out, d, s')
      → Grown partner_id s.invoices s'.invoices
  unfolding update_draft_tx
  update_draft_tx-Grown partner_id actor_id id input s s' out d k h =
      let missing = is_empty partner_id || is_empty actor_id || is_empty id in
      let (_, h1) = reject_if-eq-ok missing required_missing _ h in
      let (c, _, h2) =
        >>=-eq-ok
          (check_draft platform partner_id input.currency input.customer input.payment_terms_days
            input.items s)
          _ h1 in
      update_found-Grown (find (is_invoice partner_id id) s.invoices) id partner_id actor_id input c
        s s' out d k refl h2

  -- Creating a draft changes no invoice that is there.
  create_draft_tx-Extends :
      (hash : DraftEnvelope → Text) (now : ℕ) (id partner_id actor_id : Text) (input : InvoiceInput)
      (s s' : Store) (out : Text) (d : Bool)
      → create_draft_tx platform hash now id partner_id actor_id input s ≡ ok (out, d, s')
      → Extends s.invoices s'.invoices
  create_draft_tx-Extends hash now id partner_id actor_id input s s' out d h =
      let (c, _, _, h2) =
        create_draft_tx-eq-ok platform hash now id partner_id actor_id input s (out, d, s') h in
      insert_draft-Extends
        (find (has_request_key partner_id (trim_space input.request_key)) s.invoices)
        (draft_invoice now id (hash (draft_envelope input c)) partner_id actor_id input c)
        c.totals.items s s' out d h2

  module _ (profiles : Profiles) where
    -- Making a draft ready for issue changes at most manual drafts of the partner that asks, whatever has
    -- happened between the first reading and the transaction: an invoice that another request has made
    -- ready in the meantime is not written again.
    pub finalize_tx-Grown :
        (now : ℕ) (partner_id actor_id id correlation_id : Text) (before s s' : Store) (out : Text)
        (d : Bool)
        → Keyed s
        → finalize_tx platform profiles now partner_id actor_id id correlation_id before s
          ≡ ok (out, d, s')
        → Grown partner_id s.invoices s'.invoices
    unfolding finalize_tx
    finalize_tx-Grown now partner_id actor_id id correlation_id before s s' out d k h =
        let (issuer, _, h1) =
          >>=-eq-ok (issuer_of partner_id (profiles (trim_space partner_id))) _ h in
        let (policy, _, h2) = >>=-eq-ok (load_policy platform partner_id before) _ h1 in
        finalize_found-Grown (find (is_invoice partner_id id) s.invoices) now partner_id actor_id id
          correlation_id issuer policy s s' out d k refl h2
