-- ===== src/TenantFinance/Store/Drafts.antt =====
-- services/cmd/tenantfinance/storage.go: the drafts that a partner writes by hand. Without a transaction
-- around them, the policy is read before the one that writes; here both read one store.
use himate_system.Base.{
  ℕ, ◌==◌, Bool, true, false, not, ◌||◌, Option, none, some, List, [], ◌∷◌, ◌++◌, find, count,
  update_where, delete_where, if◌then◌else◌, ltb, ℤ, Result, ok, err, ◌>>=◌, ◌>>◌, reject_if, Text,
  codes, is_empty, byte_len, text_eq, Unicode, to_upper, trim_space,
}
use himate_system.TenantFinance.Items.{InvoiceItemInput, CalculatedItem, Totals, calculate_items}
use himate_system.TenantFinance.Parties.{
  CustomerSnapshot, manual, source_text, normalize_currency, normalize_customer,
}
use himate_system.TenantFinance.Store.{
  FinanceError, party_error, item_error, required_missing, invoice_not_found, invoice_state,
  idempotency, unique_violation, PolicyState, InvoiceStatus, draft, ready_for_issue, Invoice, Store,
  map_error, has_id, is_invoice, has_request_key, item_of_invoice, insert_items, append_event,
  Loaded, read_again, load_policy, check_terms,
}

pub record InvoiceInput : Type 0 where
  pub request_key : Text
  pub currency : Text
  pub customer : CustomerSnapshot
  pub items : List InvoiceItemInput
  pub payment_terms_days : Option ℤ
  pub notes : Text

pub record InvoiceDraftUpdate : Type 0 where
  pub currency : Text
  pub customer : CustomerSnapshot
  pub items : List InvoiceItemInput
  pub payment_terms_days : Option ℤ
  pub notes : Text

-- What `draftEnvelopeHash` is applied to.
pub record DraftEnvelope : Type 0 where
  pub source_type : Text
  pub source_id : Text
  pub currency : Text
  pub customer : CustomerSnapshot
  pub items : List CalculatedItem
  pub payment_terms_days : Option ℤ
  pub notes : Text

abbrev pub is_draft : InvoiceStatus → Bool
is_draft draft = true
is_draft _ = false

abbrev pub is_ready : InvoiceStatus → Bool
is_ready ready_for_issue = true
is_ready _ = false

-- The parts of the request that its two operations check alike.
pub record CheckedDraft : Type 0 where
  pub currency : Text
  pub customer : CustomerSnapshot
  pub totals : Totals

abbrev pub is_manual : Text → Bool
is_manual source_type = text_eq source_type (source_text manual)

module _ ⦃u : Unicode⦄ where
  abbrev pub draft_envelope : InvoiceInput → CheckedDraft → DraftEnvelope
  draft_envelope input c = record {
    source_type = source_text manual;
    source_id = [];
    currency = to_upper (trim_space input.currency);
    customer = c.customer;
    items = c.totals.items;
    payment_terms_days = input.payment_terms_days;
    notes = trim_space input.notes;
  }

  abbrev pub draft_invoice : ℕ → Text → Text → Text → Text → InvoiceInput → CheckedDraft → Invoice
  draft_invoice now id hash partner_id actor_id input c = record {
    id = id;
    partner_id = partner_id;
    source_type = source_text manual;
    source_id = [];
    request_key = trim_space input.request_key;
    draft_hash = hash;
    status = draft;
    invoice_prefix = [];
    currency = c.currency;
    payment_terms_override = input.payment_terms_days;
    payment_terms_days = none;
    accounting_basis = [];
    payment_methods = [];
    issuer = none;
    customer = c.customer;
    subtotal = c.totals.subtotal;
    tax = c.totals.tax_total;
    total = c.totals.total;
    notes = trim_space input.notes;
    created_by = actor_id;
    finalized_by = [];
    created_at = now;
    ready_at = none;
  }

  -- The insertion, by the invoice that has the request key.
  abbrev pub insert_draft :
      Option Invoice
      → Invoice
      → List CalculatedItem
      → Store
      → Result FinanceError (Text × Bool × Store)
  insert_draft (some old) i items s =
      if not (text_eq old.draft_hash i.draft_hash) then err idempotency else ok (old.id, true, s)
  insert_draft none i items s =
      if not (count (has_id i.id) s.invoices == 0)
      then err unique_violation
      else ok (
        i.id,
        false,
        record s {
          invoices = s.invoices ++ (i ∷ []);
          item_rows = insert_items i.id i.partner_id items s.item_rows;
          events =
              append_event i.id i.partner_id (codes "MANUAL_DRAFT_CREATED") i.created_by s.events;
        },
      )

  abbrev pub rewrite_draft : InvoiceDraftUpdate → CheckedDraft → Invoice → Invoice
  rewrite_draft input c i = record i {
    currency = c.currency;
    payment_terms_override = input.payment_terms_days;
    customer = c.customer;
    subtotal = c.totals.subtotal;
    tax = c.totals.tax_total;
    total = c.totals.total;
    notes = trim_space input.notes;
  }

  -- The update, by the row that the transaction has locked.
  abbrev pub update_found :
      Option Invoice
      → Text
      → Text
      → Text
      → InvoiceDraftUpdate
      → CheckedDraft
      → Store
      → Result FinanceError (Text × Bool × Store)
  update_found none id partner_id actor_id input c s = err invoice_not_found
  update_found (some i) id partner_id actor_id input c s =
      if not (is_manual i.source_type) || not (is_draft i.status)
      then err invoice_state
      else ok (
        id,
        false,
        record s {
          invoices = update_where (is_invoice partner_id id) (rewrite_draft input c) s.invoices;
          item_rows =
              insert_items id partner_id c.totals.items
                (delete_where (item_of_invoice partner_id id) s.item_rows);
          events = append_event id partner_id (codes "MANUAL_DRAFT_UPDATED") actor_id s.events;
        },
      )

module _ ⦃u : Unicode⦄ (platform : PolicyState) where
  unfoldable pub check_draft :
      Text
      → Text
      → CustomerSnapshot
      → Option ℤ
      → List InvoiceItemInput
      → Store
      → Result FinanceError CheckedDraft
  check_draft partner_id raw_currency raw_customer terms items s = do
    policy ← load_policy platform partner_id s
    currency ← map_error party_error (normalize_currency raw_currency policy.default_currency)
    customer ← map_error party_error (normalize_customer raw_customer false)
    check_terms terms
    totals ← map_error item_error (calculate_items items)
    ok (record { currency = currency; customer = customer; totals = totals })

  module _ (hash : DraftEnvelope → Text) where
    unfoldable pub create_draft_tx :
        ℕ → Text → Text → Text → InvoiceInput → Store → Result FinanceError (Text × Bool × Store)
    create_draft_tx now id partner_id actor_id input s = do
      let key = trim_space input.request_key
      reject_if (is_empty partner_id || is_empty actor_id || is_empty key || ltb 200 (byte_len key))
          required_missing
      c ←
          check_draft partner_id input.currency input.customer input.payment_terms_days input.items
            s
      insert_draft (find (has_request_key partner_id key) s.invoices)
          (draft_invoice now id (hash (draft_envelope input c)) partner_id actor_id input c)
          c.totals.items s

    -- `id` is the new random identifier.
    unfoldable pub create_manual_draft :
        ℕ → Text → Text → Text → InvoiceInput → Store → Result FinanceError (Loaded × Bool) × Store
    create_manual_draft now id partner_id actor_id input s =
        read_again (trim_space partner_id) s
          (create_draft_tx now id (trim_space partner_id) (trim_space actor_id) input s)

  unfoldable pub update_draft_tx :
      Text → Text → Text → InvoiceDraftUpdate → Store → Result FinanceError (Text × Bool × Store)
  update_draft_tx partner_id actor_id id input s = do
    reject_if (is_empty partner_id || is_empty actor_id || is_empty id) required_missing
    c ← check_draft partner_id input.currency input.customer input.payment_terms_days input.items s
    update_found (find (is_invoice partner_id id) s.invoices) id partner_id actor_id input c s

  unfoldable pub update_manual_draft :
      Text → Text → Text → InvoiceDraftUpdate → Store → Result FinanceError (Loaded × Bool) × Store
  update_manual_draft partner_id actor_id id input s =
      read_again (trim_space partner_id) s
        (update_draft_tx (trim_space partner_id) (trim_space actor_id) (trim_space id) input s)
