-- ===== src/TenantFinance/Store/Once.antt =====
-- A source of another service gives at most one invoice.
use himate_system.Base.{
  ℕ, ◌≤◌, ◌≡◌, refl, Bool, Option, none, some, List, [], ◌∷◌, ◌++◌, arith, inl, inr, Bool-cases,
  find, find-none-count, count, count-append, ok, >>=-eq-ok, Text, text_eq_iff, Unicode,
}
use himate_system.TenantFinance.Items.{CalculatedItem}
use himate_system.TenantFinance.Parties.{normalize_currency}
use himate_system.TenantFinance.Store.{
  PolicyState, party_error, Invoice, Store, map_error, has_source, issuer_of, load_policy,
}
use himate_system.TenantFinance.Store.Drafts.{DraftEnvelope}
use himate_system.TenantFinance.Store.Frozen.{Extends, create_unless-Extends, same_source-Extends}
use himate_system.TenantFinance.Store.Issue.{
  Profiles, AutomatedInvoiceIntent, CheckedIntent, check_intent, intent_envelope, automated_invoice,
  insert_automated, same_source, create_unless, resolved_terms, create_automated_tx, automated_tx,
}

-- One invoice at most for a source of a partner.
abbrev pub SourceOnce : Text → Text → Text → Store → Type 0
SourceOnce p t source s = count (has_source p t source) s.invoices ≤ 1

count-insert :
    (p t source : Text) (i : Invoice) (xs : List Invoice)
    → count (has_source i.partner_id i.source_type i.source_id) xs ≡ 0
    → count (has_source p t source) xs ≤ 1
    → count (has_source p t source) (xs ++ (i ∷ [])) ≤ 1
count-insert p t source i xs new h = elim (Bool-cases (has_source p t source i)) [
  | inl hit ↦
      let ep : i.partner_id ≡ p = (text_eq_iff i.partner_id p).0 (ground arith) in
      let et : i.source_type ≡ t = (text_eq_iff i.source_type t).0 (ground arith) in
      let es : i.source_id ≡ source = (text_eq_iff i.source_id source).0 (ground arith) in
      let none_yet : count (has_source p t source) xs ≡ 0 = rw (ep, et, es) at new in
      ground (arith, count-append (has_source p t source) xs (i ∷ []), none_yet)
  | inr miss ↦ ground (arith, count-append (has_source p t source) xs (i ∷ []))
]

module _ ⦃u : Unicode⦄ where
  insert_automated-SourceOnce :
      (p t source : Text) (now : ℕ) (intent : AutomatedInvoiceIntent) (i : Invoice)
      (items : List CalculatedItem) (s s' : Store) (out : Text) (d : Bool)
      → find (has_source i.partner_id i.source_type i.source_id) s.invoices ≡ none
      → SourceOnce p t source s
      → insert_automated now intent i items s ≡ ok (out, d, s')
      → SourceOnce p t source s'
  unfolding insert_automated
  insert_automated-SourceOnce p t source now intent i items s s' out d f h e =
      let table : s.invoices ++ (i ∷ []) ≡ s'.invoices = ground arith in
      rw (← table) (count-insert p t source i s.invoices (find-none-count _ s.invoices f) h)

  same_source-SourceOnce :
      (p t source hash : Text) (old : Invoice) (s s' : Store) (out : Text) (d : Bool)
      → SourceOnce p t source s
      → same_source hash old s ≡ ok (out, d, s')
      → SourceOnce p t source s'
  same_source-SourceOnce p t source hash old s s' out d h e =
      let table : s.invoices ≡ s'.invoices = ground arith in rw (← table) h

  create_unless-SourceOnce :
      (o : Option Invoice) (p t source : Text) (now : ℕ) (hash : Text)
      (intent : AutomatedInvoiceIntent) (i : Invoice) (items : List CalculatedItem) (s s' : Store)
      (out : Text) (d : Bool)
      → find (has_source i.partner_id i.source_type i.source_id) s.invoices ≡ o
      → SourceOnce p t source s
      → create_unless o now hash intent i items s ≡ ok (out, d, s')
      → SourceOnce p t source s'
  create_unless-SourceOnce none p t source now hash intent i items s s' out d f h e =
      insert_automated-SourceOnce p t source now intent i items s s' out d f h e
  create_unless-SourceOnce (some old) p t source now hash intent i items s s' out d f h e =
      same_source-SourceOnce p t source hash old s s' out d h e

module _ ⦃u : Unicode⦄ (platform : PolicyState) (profiles : Profiles) where
  -- The two ways to success: the source was there, or the transaction has looked again and inserted.
  create_automated_tx-SourceOnce :
      (o : Option Invoice) (p t source : Text) (now : ℕ) (id hash actor_id : Text)
      (intent : AutomatedInvoiceIntent) (c : CheckedIntent) (before s s' : Store) (out : Text)
      (d : Bool)
      → SourceOnce p t source s
      → create_automated_tx platform profiles o now id hash actor_id intent c before s
        ≡ ok (out, d, s')
      → SourceOnce p t source s' × Extends s.invoices s'.invoices
  create_automated_tx-SourceOnce (some old) p t source now id hash actor_id intent c before s s' out
        d h e =
      (
        same_source-SourceOnce p t source hash old s s' out d h e,
        same_source-Extends hash old s s' out d e,
      )
  create_automated_tx-SourceOnce none p t source now id hash actor_id intent c before s s' out d h
        e =
      let (issuer, _, e1) = >>=-eq-ok (issuer_of c.partner_id (profiles c.partner_id)) _ e in
      let (policy, _, e2) = >>=-eq-ok (load_policy platform c.partner_id before) _ e1 in
      let (currency, _, e3) =
        >>=-eq-ok
          (map_error party_error (normalize_currency intent.currency policy.default_currency)) _
          e2 in
      let (days, _, e4) = >>=-eq-ok (resolved_terms policy intent.payment_terms_days) _ e3 in
      let i = automated_invoice now id hash actor_id currency policy days issuer intent c in
      let o = find (has_source c.partner_id c.source_type c.source_id) s.invoices in
      (
        create_unless-SourceOnce o p t source now hash intent i c.totals.items s s' out d refl h e4,
        create_unless-Extends o now hash intent i c.totals.items s s' out d e4,
      )

  -- Whatever the store was when the request looked for the source first, and so however two requests for
  -- one source interleave: if no source of a partner had two invoices before the transaction, none
  -- has two after it. The invoices that were there are unchanged, and at most one is added.
  pub automated_tx-SourceOnce :
      (hash : DraftEnvelope → Text) (p t source : Text) (now : ℕ) (id service_id actor_id : Text)
      (intent : AutomatedInvoiceIntent) (before s s' : Store) (out : Text) (d : Bool)
      → SourceOnce p t source s
      → automated_tx platform profiles hash now id service_id actor_id intent before s
        ≡ ok (out, d, s')
      → SourceOnce p t source s' × Extends s.invoices s'.invoices
  unfolding automated_tx
  automated_tx-SourceOnce hash p t source now id service_id actor_id intent before s s' out d h e =
      let (c, _, e1) = >>=-eq-ok (check_intent service_id intent) _ e in
      create_automated_tx-SourceOnce
        (find (has_source c.partner_id c.source_type c.source_id) before.invoices) p t source now id
        (hash (intent_envelope intent c)) actor_id intent c before s s' out d h e1
