-- ===== src/TenantFinance/Store/Ready.antt =====
-- What a draft that has been made ready for issue satisfies.
use himate_system.Base.{
  ℕ, ◌≡◌, refl, Bool, true, false, Option, none, some, List, [], ◌∷◌, arith, inl, inr, Bool-cases,
  find, find-update_where, sym, ap, ◌∙◌, ◌⊎◌, ◌++◌, ◌&&◌, ◌||◌, text_eq, reject_if-eq-ok, ℤ, Result,
  ok, err, >>=-eq-ok, Text, codes, is_empty, update_where, Unicode, trim_space,
}
use himate_system.Automation.Outbox.{
  OutboxRow, Outbox, has_key, enqueue_tx, pending, row_of, insert_unless, insert_new,
  event_identity_required, Payload,
}
use himate_system.FinancePolicy.{resolve_payment_terms}
use himate_system.FinancePolicy.Terms.{InTermsRange, or_else, resolve_payment_terms-Resolves}
use himate_system.TenantFinance.Parties.{
  CustomerSnapshot, IssuerSnapshot, normalize_customer, normalize_issuer,
}
use himate_system.TenantFinance.Parties.Laws.{
  IsBillable, normalize_customer-IsBillable, normalize_issuer-IsBillable,
}
use himate_system.TenantFinance.Store.{
  PolicyState, ready_for_issue, Invoice, Store, map_error, is_invoice, policy_error, party_error,
  outbox_error, issuer_of, load_policy,
}
use himate_system.TenantFinance.Store.Drafts.{is_draft, is_ready, is_manual}
use himate_system.TenantFinance.Store.Issue.{
  Profiles, resolved_terms, ready_event, manual_payload, finalized, finalize_draft, finalize_found,
  finalize_tx,
}

-- An invoice that can be issued: it has billable parties and payment terms of at most a year.
pub record IsIssuable ⦃u : Unicode⦄ (i : Invoice) : Type 0 where
  pub is_ready_for_issue : i.status ≡ ready_for_issue
  pub customer_named : is_empty i.customer.display_name ≡ false
  pub customer_billable :
      IsBillable i.customer.country i.customer.state_region i.customer.city i.customer.postal_code
        i.customer.address_line1
  pub has_issuer :
      (issuer : IssuerSnapshot) × (i.issuer ≡ some issuer)
      × (is_empty issuer.legal_name ≡ false)
      × IsBillable issuer.country issuer.state_region issuer.city issuer.postal_code
          issuer.address_line1
  pub has_terms : (days : ℤ) × (i.payment_terms_days ≡ some days) × InTermsRange days

-- The invoice of the partner is there, and can be issued.
abbrev pub Issued : ⦃u : Unicode⦄ → Text → Text → List Invoice → Type 0
Issued partner_id id xs =
    (y : Invoice) × (find (λ (x : Invoice). text_eq x.id id && text_eq x.partner_id partner_id) xs
      ≡ some y)
    × IsIssuable y

-- A row of the outbox that announces the invoice of a partner, due at the time `now`.
pub record IsAnnouncement (now : ℕ) (partner_id id : Text) (x : OutboxRow) : Type 0 where
  pub producer_service : x.producer_service ≡ trim_space (codes "finance")
  pub event_key : x.event_key ≡ trim_space (codes "invoice-ready:" ++ id)
  pub event_type : x.event_type ≡ trim_space (codes "tenant_invoice.ready_for_issue.v1")
  pub its_partner : x.partner_id ≡ trim_space partner_id
  pub subject_type : x.subject_type ≡ trim_space (codes "tenant_invoice")
  pub subject_id : x.subject_id ≡ trim_space id
  pub available_at : x.available_at ≡ now
  pub is_pending : x.status ≡ pending

-- The outbox gets that row as its last one, unless a row with the key of the announcement is there already.
abbrev pub Announced : ℕ → Text → Text → Outbox → Outbox → Type 0
Announced now partner_id id o o' =
    ((x : OutboxRow) × (find
          (λ (r : OutboxRow).
            text_eq r.producer_service (trim_space (codes "finance"))
            && text_eq r.event_key (trim_space (codes "invoice-ready:" ++ id)))
          o.rows
        ≡ some x)
      × (o' ≡ o))
    ⊎ ((x : OutboxRow) × (o'.rows ≡ o.rows ++ (x ∷ [])) × IsAnnouncement now partner_id id x)

insert_unless-cases :
    (o' : Option OutboxRow) (r : OutboxRow) (o : Outbox)
    → find (has_key r.producer_service r.event_key) o.rows ≡ o'
    → ((x : OutboxRow) × (find (has_key r.producer_service r.event_key) o.rows ≡ some x)
        × (insert_unless o' r o ≡ o))
      ⊎ ((insert_unless o' r o).rows ≡ o.rows ++ (r ∷ []))
insert_unless-cases (some x) r o found = inl (x, found, refl)
insert_unless-cases none r o found = inr refl

ready_event-Announced :
    (now : ℕ) (partner_id id correlation_id : Text) (payload : Payload) (o o' : Outbox)
    → enqueue_tx now (ready_event now id partner_id correlation_id [] payload) o ≡ ok o'
    → Announced now partner_id id o o'
unfolding enqueue_tx insert_new
ready_event-Announced now partner_id id correlation_id payload o o' h =
    let r = row_of o.next_id now (ready_event now id partner_id correlation_id [] payload) in
    let (_, h') =
      reject_if-eq-ok (is_empty r.producer_service || is_empty r.event_key || is_empty r.event_type)
        event_identity_required _ h in
    let done : insert_unless (find (has_key r.producer_service r.event_key) o.rows) r o ≡ o' = cc in
    elim (insert_unless-cases (find (has_key r.producer_service r.event_key) o.rows) r o refl) [
      | inl (x, found, same) ↦ inl (x, found, sym done ∙ same)
      | inr last ↦ inr (
        r,
        ap (λ (z : Outbox). z.rows) (sym done) ∙ last,
        record {
          producer_service = refl;
          event_key = refl;
          event_type = refl;
          its_partner = refl;
          subject_type = refl;
          subject_id = refl;
          available_at = refl;
          is_pending = refl;
        },
      )
    ]

pub map_error-eq-ok :
    {E F A : Type 0} (f : E → F) (r : Result E A) {a : A} → map_error f r ≡ ok a → r ≡ ok a
map_error-eq-ok f (err e) h = cc
map_error-eq-ok f (ok a) h = ground arith

pub resolved_terms-InTermsRange :
    (p : PolicyState) (override : Option ℤ) (days : ℤ)
    → resolved_terms p override ≡ ok days
    → InTermsRange days
resolved_terms-InTermsRange p override days h =
    let resolved =
      map_error-eq-ok policy_error
        (resolve_payment_terms p.policy.default_payment_terms_days none none override) h in
    elim (resolve_payment_terms-Resolves p.policy.default_payment_terms_days none none override) [
      | inl (within, r) ↦
          let same : or_else override
                (or_else none (or_else none p.policy.default_payment_terms_days))
              ≡ days =
            ground (arith, r, resolved) in
          rw (← same) within
      | inr (outside, r) ↦ cc (r, resolved)
    ]

module _ ⦃u : Unicode⦄ where
  -- The partner's profile that `issuer_of` accepts.
  abbrev IsIssuer : IssuerSnapshot → Type 0
  IsIssuer issuer =
      (is_empty issuer.legal_name ≡ false)
      × IsBillable issuer.country issuer.state_region issuer.city issuer.postal_code
          issuer.address_line1

  issuer_of-IsIssuer :
      (partner_id : Text) (o : Option (Text → Option Text)) (issuer : IssuerSnapshot)
      → issuer_of partner_id o ≡ ok issuer
      → IsIssuer issuer
  issuer_of-IsIssuer partner_id none issuer h = cc
  issuer_of-IsIssuer partner_id (some raw) issuer h =
      let (legal, _, billable) =
        normalize_issuer-IsBillable partner_id raw issuer
          (map_error-eq-ok party_error (normalize_issuer partner_id raw) h) in
      (legal, billable)

  finalized-IsIssuable :
      (now : ℕ) (policy : PolicyState) (days : ℤ) (issuer : IssuerSnapshot)
      (customer c : CustomerSnapshot) (actor_id : Text) (i : Invoice)
      → normalize_customer customer true ≡ ok c
      → IsIssuer issuer
      → InTermsRange days
      → IsIssuable (finalized now policy days issuer c actor_id i)
  finalized-IsIssuable now policy days issuer customer c actor_id i h legal range =
      let (named, billable) = normalize_customer-IsBillable customer c h in
      record {
        is_ready_for_issue = refl;
        customer_named = named;
        customer_billable = billable;
        has_issuer = (issuer, refl, legal.0, legal.1);
        has_terms = (days, refl, range);
      }

  finalize_draft-IsIssuable :
      (now : ℕ) (partner_id actor_id id correlation_id : Text) (issuer : IssuerSnapshot)
      (policy : PolicyState) (i : Invoice) (s s' : Store) (out : Text) (d : Bool)
      → IsIssuer issuer
      → find (is_invoice partner_id id) s.invoices ≡ some i
      → finalize_draft now partner_id actor_id id correlation_id issuer policy i s ≡ ok (out, d, s')
      → Issued partner_id id s'.invoices × Announced now partner_id id s.outbox s'.outbox
  unfolding finalize_draft
  finalize_draft-IsIssuable now partner_id actor_id id correlation_id issuer policy i s s' out d
        legal found h =
      let (c, accepted, h1) =
        >>=-eq-ok (map_error party_error (normalize_customer i.customer true)) _ h in
      let (days, terms, h2) = >>=-eq-ok (resolved_terms policy i.payment_terms_override) _ h1 in
      let event =
        ready_event now id partner_id correlation_id [] (manual_payload id policy.invoice_prefix) in
      let (outbox, sent, h3) =
        >>=-eq-ok (map_error outbox_error (enqueue_tx now event s.outbox)) _ h2 in
      let write = finalized now policy days issuer c actor_id in
      let table : update_where (is_invoice partner_id id) write s.invoices ≡ s'.invoices =
        ground arith in
      let box : outbox ≡ s'.outbox = ground arith in
      let customer = map_error-eq-ok party_error (normalize_customer i.customer true) accepted in
      let range = resolved_terms-InTermsRange policy i.payment_terms_override days terms in
      let queued = map_error-eq-ok outbox_error (enqueue_tx now event s.outbox) sent in
      (
        (
          write i,
          rw (← table)
              (find-update_where (is_invoice partner_id id) write s.invoices i (λ x. refl) found),
          finalized-IsIssuable now policy days issuer i.customer c actor_id i customer legal range,
        ),
        rw (← box) (
            ready_event-Announced now partner_id id correlation_id
              (manual_payload id policy.invoice_prefix) s.outbox outbox queued),
      )

  finalize_found-IsIssuable :
      (o : Option Invoice) (now : ℕ) (partner_id actor_id id correlation_id : Text)
      (issuer : IssuerSnapshot) (policy : PolicyState) (s s' : Store) (out : Text)
      → IsIssuer issuer
      → find (is_invoice partner_id id) s.invoices ≡ o
      → finalize_found o now partner_id actor_id id correlation_id issuer policy s
        ≡ ok (out, false, s')
      → Issued partner_id id s'.invoices × Announced now partner_id id s.outbox s'.outbox
  finalize_found-IsIssuable none now partner_id actor_id id correlation_id issuer policy s s' out
        legal found h =
      cc
  finalize_found-IsIssuable (some i) now partner_id actor_id id correlation_id issuer policy s s'
        out legal found h =
      elim (Bool-cases (is_manual i.source_type)) [
        | inr foreign ↦ cc (rw foreign at h)
        | inl by_hand ↦ elim (Bool-cases (is_ready i.status)) [
          | inl ready ↦
              let earlier = (rw (by_hand, ready) at h) in
              let impossible : true ≡ false = ground arith in cc (impossible)
          | inr unready ↦ elim (Bool-cases (is_draft i.status)) [
            | inr other ↦ cc (rw (by_hand, unready, other) at h)
            | inl st ↦
                finalize_draft-IsIssuable now partner_id actor_id id correlation_id issuer policy i
                  s s' out false legal found (rw (by_hand, unready, st) at h)
          ]
        ]
      ]

module _ ⦃u : Unicode⦄ (platform : PolicyState) (profiles : Profiles) where
  -- When a draft has newly been made ready, the partner's invoice is in the store, ready for issue with a named,
  -- billable customer, a billable issuer and payment terms of 0 to 365 days, and the same transaction has put the
  -- event that announces it last in the outbox, for that partner and that invoice and due at once, unless a row
  -- with the key of that event was there already.
  pub finalize_tx-IsIssuable :
      (now : ℕ) (partner_id actor_id id correlation_id : Text) (before s s' : Store) (out : Text)
      → finalize_tx platform profiles now partner_id actor_id id correlation_id before s
        ≡ ok (out, false, s')
      → Issued partner_id id s'.invoices × Announced now partner_id id s.outbox s'.outbox
  unfolding finalize_tx
  finalize_tx-IsIssuable now partner_id actor_id id correlation_id before s s' out h =
      let (issuer, given, h1) =
        >>=-eq-ok (issuer_of partner_id (profiles (trim_space partner_id))) _ h in
      let (policy, _, h2) = >>=-eq-ok (load_policy platform partner_id before) _ h1 in
      finalize_found-IsIssuable (find (is_invoice partner_id id) s.invoices) now partner_id actor_id
        id correlation_id issuer policy s s' out
        (issuer_of-IsIssuer partner_id (profiles (trim_space partner_id)) issuer given) refl h2
