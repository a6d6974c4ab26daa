-- ===== src/TenantFinance/Store/Issue.antt =====
-- services/cmd/tenantfinance/storage.go: making an invoice ready for issue, from a draft (finalizeManual)
-- or for another service (createAutomatedReady). Both put an event into the outbox, in the same
-- transaction. `before` is the store that the operation reads before its transaction, `s` the
-- store that the transaction finds.
use himate_system.Base.{
  ℕ, ◌==◌, Bool, true, false, not, ◌||◌, Option, none, some, List, [], ◌∷◌, ◌++◌, find, count,
  update_where, if◌then◌else◌, ltb, ℤ, pos, Result, ok, err, ◌>>=◌, ◌>>◌, reject_if, Text, codes,
  is_empty, byte_len, text_eq, Unicode, to_upper, trim_space,
}
use himate_system.Automation.Outbox.{OutboxEvent, Payload, enqueue_tx}
use himate_system.FinancePolicy.{resolve_payment_terms}
use himate_system.TenantFinance.Items.{InvoiceItemInput, CalculatedItem, Totals, calculate_items}
use himate_system.TenantFinance.Parties.{
  CustomerSnapshot, IssuerSnapshot, manual, source_text, normalize_currency, normalize_customer,
  validate_source_for_service,
}
use himate_system.TenantFinance.Store.{
  FinanceError, policy_error, party_error, item_error, outbox_error, required_missing,
  invoice_not_found, invoice_state, source_conflict, unique_violation, PolicyState, ready_for_issue,
  Invoice, Store, map_error, has_id, is_invoice, has_request_key, has_source, insert_items,
  append_event, Loaded, load_invoice, read_again, load_policy, check_terms, issuer_of,
}
use himate_system.TenantFinance.Store.Drafts.{DraftEnvelope, is_draft, is_ready, is_manual}

-- An answer of `fetchIssuer`'s service, by the partner that is asked for.
abbrev pub Profiles : Type 0
Profiles = Text → Option (Text → Option Text)

pub record AutomatedInvoiceIntent : Type 0 where
  pub partner_id : Text
  pub source_type : Text
  pub source_id : Text
  pub currency : Text
  pub customer : CustomerSnapshot
  pub items : List InvoiceItemInput
  pub payment_terms_days : Option ℤ
  pub notes : Text
  pub correlation_id : Text
  pub causation_id : Text

-- resolvedTerms
abbrev pub resolved_terms : PolicyState → Option ℤ → Result FinanceError ℤ
resolved_terms p override =
    map_error policy_error
      (resolve_payment_terms p.policy.default_payment_terms_days none none override)

abbrev pub ready_key : Text → Text
ready_key id = codes "invoice-ready:" ++ id

abbrev pub ready_event : ℕ → Text → Text → Text → Text → Payload → OutboxEvent
ready_event now id partner_id correlation_id causation_id payload = record {
  producer_service = codes "finance";
  event_key = ready_key id;
  event_type = codes "tenant_invoice.ready_for_issue.v1";
  event_version = pos 1;
  partner_id = partner_id;
  module_key = codes "invoice_documents";
  correlation_id = trim_space correlation_id;
  causation_id = trim_space causation_id;
  subject_type = codes "tenant_invoice";
  subject_id = id;
  payload = payload;
  occurred_at = some now;
  available_at = some now;
}

abbrev pub manual_payload : Text → Text → Payload
manual_payload id prefix =
    (codes "invoice_id", id)
    ∷ (codes "invoice_prefix_snapshot", prefix)
    ∷ (codes "source_type", source_text manual)
    ∷ (codes "status", codes "READY_FOR_ISSUE")
    ∷ (codes "document_renderer", codes "DEFERRED")
    ∷ []

abbrev pub automated_payload : Text → Text → Text → Text → Payload
automated_payload id prefix source_type source_id =
    (codes "invoice_id", id)
    ∷ (codes "invoice_prefix_snapshot", prefix)
    ∷ (codes "source_type", source_type)
    ∷ (codes "source_id", source_id)
    ∷ (codes "status", codes "READY_FOR_ISSUE")
    ∷ (codes "document_renderer", codes "DEFERRED")
    ∷ []

abbrev pub finalized :
    ℕ → PolicyState → ℤ → IssuerSnapshot → CustomerSnapshot → Text → Invoice → Invoice
finalized now policy days issuer customer actor_id i = record i {
  status = ready_for_issue;
  invoice_prefix = policy.invoice_prefix;
  payment_terms_days = some days;
  accounting_basis = policy.policy.accounting_basis;
  payment_methods = policy.policy.payment_methods;
  issuer = some issuer;
  customer = customer;
  finalized_by = actor_id;
  ready_at = some now;
}

abbrev pub automated_key : Text → Text → Text
automated_key source_type source_id = codes "AUTO:" ++ source_type ++ codes ":" ++ source_id

-- The checked parts of an intent.
pub record CheckedIntent : Type 0 where
  pub partner_id : Text
  pub source_type : Text
  pub source_id : Text
  pub notes : Text
  pub customer : CustomerSnapshot
  pub totals : Totals

module _ ⦃u : Unicode⦄ where
  unfoldable pub finalize_draft :
      ℕ
      → Text
      → Text
      → Text
      → Text
      → IssuerSnapshot
      → PolicyState
      → Invoice
      → Store
      → Result FinanceError (Text × Bool × Store)
  finalize_draft now partner_id actor_id id correlation_id issuer policy i s = do
    customer ← map_error party_error (normalize_customer i.customer true)
    days ← resolved_terms policy i.payment_terms_override
    outbox ← map_error outbox_error (
        enqueue_tx now
          (ready_event now id partner_id correlation_id []
            (manual_payload id policy.invoice_prefix))
          s.outbox)
    ok (
      id,
      false,
      record s {
        invoices =
            update_where (is_invoice partner_id id)
              (finalized now policy days issuer customer actor_id) s.invoices;
        events = append_event id partner_id (codes "READY_FOR_ISSUE") actor_id s.events;
        outbox = outbox;
      },
    )

  -- The transaction, by the row that it has locked.
  abbrev pub finalize_found :
      Option Invoice
      → ℕ
      → Text
      → Text
      → Text
      → Text
      → IssuerSnapshot
      → PolicyState
      → Store
      → Result FinanceError (Text × Bool × Store)
  finalize_found none now partner_id actor_id id correlation_id issuer policy s =
      err invoice_not_found
  finalize_found (some i) now partner_id actor_id id correlation_id issuer policy s =
      if not (is_manual i.source_type)
      then err invoice_state
      else if is_ready i.status
      then ok (id, true, s)
      else if not (is_draft i.status)
      then err invoice_state
      else finalize_draft now partner_id actor_id id correlation_id issuer policy i s

  unfoldable pub check_intent : Text → AutomatedInvoiceIntent → Result FinanceError CheckedIntent
  check_intent service_id intent = do
    let partner_id = trim_space intent.partner_id
    let source_type = to_upper (trim_space intent.source_type)
    let source_id = trim_space intent.source_id
    reject_if (is_empty partner_id || is_empty source_id || ltb 240 (byte_len source_id))
        required_missing
    map_error party_error (validate_source_for_service service_id source_type)
    customer ← map_error party_error (normalize_customer intent.customer true)
    check_terms intent.payment_terms_days
    totals ← map_error item_error (calculate_items intent.items)
    ok (record {
      partner_id = partner_id;
      source_type = source_type;
      source_id = source_id;
      notes = trim_space intent.notes;
      customer = customer;
      totals = totals;
    })

  abbrev pub intent_envelope : AutomatedInvoiceIntent → CheckedIntent → DraftEnvelope
  intent_envelope intent c = record {
    source_type = c.source_type;
    source_id = c.source_id;
    currency = to_upper (trim_space intent.currency);
    customer = c.customer;
    items = c.totals.items;
    payment_terms_days = intent.payment_terms_days;
    notes = c.notes;
  }

  abbrev pub automated_invoice :
      ℕ
      → Text
      → Text
      → Text
      → Text
      → PolicyState
      → ℤ
      → IssuerSnapshot
      → AutomatedInvoiceIntent
      → CheckedIntent
      → Invoice
  automated_invoice now id hash actor_id currency policy days issuer intent c = record {
    id = id;
    partner_id = c.partner_id;
    source_type = c.source_type;
    source_id = c.source_id;
    request_key = automated_key c.source_type c.source_id;
    draft_hash = hash;
    status = ready_for_issue;
    invoice_prefix = policy.invoice_prefix;
    currency = currency;
    payment_terms_override = intent.payment_terms_days;
    payment_terms_days = some days;
    accounting_basis = policy.policy.accounting_basis;
    payment_methods = policy.policy.payment_methods;
    issuer = some issuer;
    customer = c.customer;
    subtotal = c.totals.subtotal;
    tax = c.totals.tax_total;
    total = c.totals.total;
    notes = c.notes;
    created_by = actor_id;
    finalized_by = actor_id;
    created_at = now;
    ready_at = some now;
  }

  -- The insertion: the identifier, the request key and the source are unique.
  unfoldable pub insert_automated :
      ℕ
      → AutomatedInvoiceIntent
      → Invoice
      → List CalculatedItem
      → Store
      → Result FinanceError (Text × Bool × Store)
  insert_automated now intent i items s = do
    reject_if
        (not (count (has_id i.id) s.invoices == 0)
          || not (count (has_request_key i.partner_id i.request_key) s.invoices == 0))
        unique_violation
    outbox ← map_error outbox_error (
        enqueue_tx now
          (ready_event now i.id i.partner_id intent.correlation_id intent.causation_id
            (automated_payload i.id i.invoice_prefix i.source_type i.source_id))
          s.outbox)
    ok (
      i.id,
      false,
      record s {
        invoices = s.invoices ++ (i ∷ []);
        item_rows = insert_items i.id i.partner_id items s.item_rows;
        events =
            append_event i.id i.partner_id (codes "AUTOMATED_READY_FOR_ISSUE") i.created_by
              s.events;
        outbox = outbox;
      },
    )

  -- The invoice that the source has already produced, if its content is the same.
  abbrev pub same_source : Text → Invoice → Store → Result FinanceError (Text × Bool × Store)
  same_source hash old s =
      if not (text_eq old.draft_hash hash) then err source_conflict else ok (old.id, true, s)

  abbrev pub create_unless :
      Option Invoice
      → ℕ
      → Text
      → AutomatedInvoiceIntent
      → Invoice
      → List CalculatedItem
      → Store
      → Result FinanceError (Text × Bool × Store)
  create_unless (some old) now hash intent i items s = same_source hash old s
  create_unless none now hash intent i items s = insert_automated now intent i items s

module _ ⦃u : Unicode⦄ (platform : PolicyState) (profiles : Profiles) where
  unfoldable pub finalize_tx :
      ℕ → Text → Text → Text → Text → Store → Store → Result FinanceError (Text × Bool × Store)
  finalize_tx now partner_id actor_id id correlation_id before s = do
    issuer ← issuer_of partner_id (profiles (trim_space partner_id))
    policy ← load_policy platform partner_id before
    finalize_found (find (is_invoice partner_id id) s.invoices) now partner_id actor_id id
        correlation_id issuer policy s

  -- By the invoice as it was read first.
  abbrev pub finalize_loaded :
      Result FinanceError Loaded
      → ℕ
      → Text
      → Text
      → Text
      → Text
      → Store
      → Store
      → Result FinanceError (Loaded × Bool) × Store
  finalize_loaded (err e) now partner_id actor_id id correlation_id before s = (err e, s)
  finalize_loaded (ok (i, items)) now partner_id actor_id id correlation_id before s =
      if not (is_manual i.source_type)
      then (err invoice_state, s)
      else if is_ready i.status
      then (ok ((i, items), true), s)
      else if not (is_draft i.status)
      then (err invoice_state, s)
      else read_again partner_id s (finalize_tx now partner_id actor_id id correlation_id before s)

  unfoldable pub finalize_manual :
      ℕ → Text → Text → Text → Text → Store → Store → Result FinanceError (Loaded × Bool) × Store
  finalize_manual now partner_id actor_id id correlation_id before s =
      finalize_loaded (load_invoice partner_id id before) now partner_id actor_id id correlation_id
        before s

  -- The source is looked up before the transaction and again in it.
  abbrev pub create_automated_tx :
      Option Invoice
      → ℕ
      → Text
      → Text
      → Text
      → AutomatedInvoiceIntent
      → CheckedIntent
      → Store
      → Store
      → Result FinanceError (Text × Bool × Store)
  create_automated_tx (some old) now id hash actor_id intent c before s = same_source hash old s
  create_automated_tx none now id hash actor_id intent c before s = do
    issuer ← issuer_of c.partner_id (profiles c.partner_id)
    policy ← load_policy platform c.partner_id before
    currency ← map_error party_error (normalize_currency intent.currency policy.default_currency)
    days ← resolved_terms policy intent.payment_terms_days
    create_unless (find (has_source c.partner_id c.source_type c.source_id) s.invoices) now hash
        intent (automated_invoice now id hash actor_id currency policy days issuer intent c)
        c.totals.items s

  module _ (hash : DraftEnvelope → Text) where
    unfoldable pub automated_tx :
        ℕ
        → Text
        → Text
        → Text
        → AutomatedInvoiceIntent
        → Store
        → Store
        → Result FinanceError (Text × Bool × Store)
    automated_tx now id service_id actor_id intent before s = do
      c ← check_intent service_id intent
      create_automated_tx (find (has_source c.partner_id c.source_type c.source_id) before.invoices)
          now id (hash (intent_envelope intent c)) actor_id intent c before s

    unfoldable pub create_automated_ready :
        ℕ
        → Text
        → Text
        → Text
        → AutomatedInvoiceIntent
        → Store
        → Store
        → Result FinanceError (Loaded × Bool) × Store
    create_automated_ready now id service_id actor_id intent before s =
        read_again (trim_space intent.partner_id) s
          (automated_tx now id service_id actor_id intent before s)
