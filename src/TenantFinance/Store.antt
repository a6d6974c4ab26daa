-- ===== src/TenantFinance/Store.antt =====
-- services/cmd/tenantfinance/storage.go: the tables of the tenants' invoices, the stored policy, and what the
-- writing operations share. The `payload` of an invoice event is left out.
pub mod Drafts
pub mod Issue
pub mod Frozen
pub mod Retry
pub mod Ready
pub mod Once
pub mod Policies
pub mod Tests
use himate_system.Base.{
  ℕ, ◌==◌, Bool, true, false, ◌&&◌, Option, none, some, List, [], ◌∷◌, ◌++◌, map, find, count,
  select, if◌then◌else◌, ℤ, Result, ok, err, ◌>>=◌, ◌>>◌, Text, codes, text_eq, Unicode, trim_space,
}
use himate_system.Automation.Picking.{sort_rows}
use himate_system.Automation.Outbox.{Outbox, OutboxError}
use himate_system.FinancePolicy.{Policy, PolicyError, normalize_policy, validate_days}
use himate_system.TenantFinance.Items.{CalculatedItem, ItemError}
use himate_system.TenantFinance.Parties.{
  PartyError, CustomerSnapshot, IssuerSnapshot, normalize_currency, normalize_invoice_prefix,
  normalize_issuer,
}

pub data FinanceError : Type 0 where
  policy_error : PolicyError → FinanceError
  party_error : PartyError → FinanceError
  item_error : ItemError → FinanceError
  outbox_error : OutboxError → FinanceError
  required_missing invoice_not_found invoice_state idempotency source_conflict : FinanceError
  profile_unavailable unique_violation : FinanceError

pub data PolicySource : Type 0 where
  platform_default partner : PolicySource

pub record PolicyState : Type 0 where
  pub policy : Policy
  pub default_currency : Text
  pub invoice_prefix : Text
  pub source : PolicySource

pub record PolicyRow : Type 0 where
  pub partner_id : Text
  pub policy : Policy
  pub default_currency : Text
  pub invoice_prefix : Text
  pub updated_by : Text

pub data InvoiceStatus : Type 0 where
  draft ready_for_issue issued paid void : InvoiceStatus

-- A row of `tenant_finance.invoices`; no operation here numbers, issues or pays an invoice.
pub record Invoice : Type 0 where
  pub id : Text
  pub partner_id : Text
  pub source_type : Text
  pub source_id : Text
  pub request_key : Text
  pub draft_hash : Text
  pub status : InvoiceStatus
  pub invoice_prefix : Text
  pub currency : Text
  pub payment_terms_override : Option ℤ
  pub payment_terms_days : Option ℤ
  pub accounting_basis : Text
  pub payment_methods : List Text
  pub issuer : Option IssuerSnapshot
  pub customer : CustomerSnapshot
  pub subtotal : ℤ
  pub tax : ℤ
  pub total : ℤ
  pub notes : Text
  pub created_by : Text
  pub finalized_by : Text
  pub created_at : ℕ
  pub ready_at : Option ℕ

pub record ItemRow : Type 0 where
  pub invoice_id : Text
  pub partner_id : Text
  pub item : CalculatedItem

pub record InvoiceEvent : Type 0 where
  pub invoice_id : Text
  pub partner_id : Text
  pub event_type : Text
  pub actor_id : Text

pub record Store : Type 0 where
  pub policies : List PolicyRow
  pub invoices : List Invoice
  pub item_rows : List ItemRow
  pub events : List InvoiceEvent
  pub outbox : Outbox

abbrev pub map_error {ℓ} : {E F A : Type ℓ} → (E → F) → Result E A → Result F A
map_error f (err e) = err (f e)
map_error f (ok a) = ok a

abbrev pub of_partner : Text → PolicyRow → Bool
of_partner id r = text_eq r.partner_id id

abbrev pub has_id : Text → Invoice → Bool
has_id id i = text_eq i.id id

abbrev pub is_invoice : Text → Text → Invoice → Bool
is_invoice partner_id id i = text_eq i.id id && text_eq i.partner_id partner_id

abbrev pub has_request_key : Text → Text → Invoice → Bool
has_request_key partner_id key i = text_eq i.partner_id partner_id && text_eq i.request_key key

abbrev pub has_source : Text → Text → Text → Invoice → Bool
has_source partner_id source_type source_id i =
    text_eq i.partner_id partner_id
    && text_eq i.source_type source_type
    && text_eq i.source_id source_id

abbrev pub item_of_invoice : Text → Text → ItemRow → Bool
item_of_invoice partner_id id r = text_eq r.invoice_id id && text_eq r.partner_id partner_id

abbrev pub item_row : Text → Text → CalculatedItem → ItemRow
item_row id partner_id item = record { invoice_id = id; partner_id = partner_id; item = item }

abbrev pub insert_items : Text → Text → List CalculatedItem → List ItemRow → List ItemRow
insert_items id partner_id items rows = rows ++ map (item_row id partner_id) items

abbrev pub append_event : Text → Text → Text → Text → List InvoiceEvent → List InvoiceEvent
append_event id partner_id event_type actor_id events =
    events
    ++ record {
      invoice_id = id;
      partner_id = partner_id;
      event_type = event_type;
      actor_id = trim_space actor_id;
    }
      ∷ []

abbrev pub Loaded : Type 0
Loaded = Invoice × List CalculatedItem

abbrev pub loaded_items : Text → Text → List ItemRow → List CalculatedItem
loaded_items partner_id id rows =
    sort_rows (λ (i : CalculatedItem). i.line_no) (λ _. 0)
      (map (λ (r : ItemRow). r.item) (select (item_of_invoice partner_id id) rows))

abbrev pub with_items : Store → Option Invoice → Result FinanceError Loaded
with_items s none = err invoice_not_found
with_items s (some i) = ok (i, loaded_items i.partner_id i.id s.item_rows)

unfoldable pub load_invoice : Text → Text → Store → Result FinanceError Loaded
load_invoice partner_id id s =
    with_items s (find (is_invoice (trim_space partner_id) (trim_space id)) s.invoices)

-- What a handler returns after its transaction: the invoice as it is read again, and whether it was
-- there before. A transaction that fails leaves the store as it was.
abbrev pub read_again :
    Text
    → Store
    → Result FinanceError (Text × Bool × Store)
    → Result FinanceError (Loaded × Bool) × Store
read_again partner_id s (err e) = (err e, s)
read_again partner_id s (ok (id, duplicate, s')) =
    (load_invoice partner_id id s' >>= λ loaded. ok (loaded, duplicate), s')

module _ ⦃u : Unicode⦄ (platform : PolicyState) where
  abbrev pub read_policy : Option PolicyRow → Result FinanceError PolicyState
  read_policy none = ok (record platform { source = platform_default })
  read_policy (some r) = do
    policy ← map_error policy_error (normalize_policy r.policy)
    currency ←
        map_error party_error (normalize_currency r.default_currency platform.default_currency)
    prefix ← map_error party_error (normalize_invoice_prefix r.invoice_prefix)
    ok (record {
      policy = policy;
      default_currency = currency;
      invoice_prefix = prefix;
      source = partner;
    })

  unfoldable pub load_policy : Text → Store → Result FinanceError PolicyState
  load_policy partner_id s = read_policy (find (of_partner (trim_space partner_id)) s.policies)

module _ ⦃u : Unicode⦄ where
  -- `INSERT ... ON CONFLICT(partner_id) DO UPDATE`
  abbrev pub upsert_policy : PolicyRow → List PolicyRow → List PolicyRow
  upsert_policy r [] = r ∷ []
  upsert_policy r (t ∷ rest) =
      if of_partner r.partner_id t then r ∷ rest else t ∷ upsert_policy r rest

  unfoldable pub save_policy :
      Text → Text → PolicyState → Store → Result FinanceError (PolicyState × Store)
  save_policy partner_id actor_id state s = do
    policy ← map_error policy_error (normalize_policy state.policy)
    currency ← map_error party_error (normalize_currency state.default_currency (codes ""))
    prefix ← map_error party_error (normalize_invoice_prefix state.invoice_prefix)
    let r : PolicyRow = record {
      partner_id = trim_space partner_id;
      policy = policy;
      default_currency = currency;
      invoice_prefix = prefix;
      updated_by = trim_space actor_id;
    }
    ok (
        (
          record {
            policy = policy;
            default_currency = currency;
            invoice_prefix = prefix;
            source = partner;
          },
          record s { policies = upsert_policy r s.policies },
        ))

  unfoldable pub check_terms : Option ℤ → Result FinanceError (Unit {0})
  check_terms none = ok tt
  check_terms (some d) = map_error policy_error (validate_days d)

  -- The partner's company profile, as the partners service gives it if it answers.
  abbrev pub issuer_of : Text → Option (Text → Option Text) → Result FinanceError IssuerSnapshot
  issuer_of partner_id none = err profile_unavailable
  issuer_of partner_id (some raw) = map_error party_error (normalize_issuer partner_id raw)
