-- ===== src/TenantFinance/Store/Tests.antt =====
-- Runs of the invoice store on concrete input.
use himate_system.Base.{
  ◌≡◌, refl, Bool, true, false, Option, none, some, [], ◌∷◌, pos, Result, ok, err, Text, codes,
  if◌then◌else◌, text_eq, arith, wrap, add64, sub64, mul64, div64, ◌+ℤ◌, ◌-ℤ◌, ◌*ℤ◌,
}
use himate_system.Base.Strings.Ascii.{ascii, ascii-UpperLaws, evaluate_texts}
use himate_system.Automation.Outbox.{insert_new, enqueue_tx}
use himate_system.FinancePolicy.{
  accounting_cash, validate_days, first_candidate, resolve_payment_terms, text_lt, insert_text,
  sort_texts, collect_methods, normalize_basis, normalize_policy,
}
use himate_system.TenantFinance.Items.{
  InvoiceItemInput, calculate_items, add_items, add_item, accumulate, line_amounts, taxed, tax_of,
  gross_net, safe_round_div,
}
use himate_system.TenantFinance.Parties.{
  CustomerSnapshot, matches_currency, matches_prefix, normalize_currency, normalize_invoice_prefix,
  normalize_customer, named_customer, is_united_states, require_billing_address, normalize_issuer,
  named_issuer, validate_source_for_service,
}
use himate_system.TenantFinance.Store.{
  FinanceError, PolicyState, platform_default, partner, Store, unique_violation, load_policy,
  save_policy, check_terms,
}
use himate_system.TenantFinance.Store.Drafts.{
  InvoiceInput, InvoiceDraftUpdate, DraftEnvelope, check_draft, create_draft_tx, update_draft_tx,
}
use himate_system.TenantFinance.Store.Issue.{
  AutomatedInvoiceIntent, finalize_draft, finalize_tx, check_intent, insert_automated, automated_tx,
}
use himate_system.TenantFinance.Store.Frozen.{
  Extends, Grown, Keyed, update_draft_tx-Grown, finalize_tx-Grown,
}
use himate_system.TenantFinance.Store.Retry.{create_draft_tx_twice}
use himate_system.TenantFinance.Store.Ready.{Issued, Announced, finalize_tx-IsIssuable}
use himate_system.TenantFinance.Store.Once.{SourceOnce, automated_tx-SourceOnce}
use himate_system.TenantFinance.Store.Policies.{save_policy-load_policy}

-- Unfolding this unfolds all that a run of the store computes with.
unfoldable pub evaluate_store : Unit {0}
unfolding evaluate_texts insert_new enqueue_tx validate_days first_candidate resolve_payment_terms
    text_lt insert_text sort_texts collect_methods normalize_basis normalize_policy calculate_items
    add_items add_item accumulate line_amounts taxed tax_of gross_net safe_round_div
    matches_currency matches_prefix normalize_currency normalize_invoice_prefix normalize_customer
    named_customer is_united_states require_billing_address normalize_issuer named_issuer
    validate_source_for_service load_policy save_policy check_terms check_draft create_draft_tx
    update_draft_tx finalize_draft finalize_tx check_intent insert_automated automated_tx wrap add64
    sub64 mul64 div64 ◌+ℤ◌ ◌-ℤ◌ ◌*ℤ◌
evaluate_store = tt

abbrev pub platform : PolicyState
platform = record {
  policy = record {
    default_payment_terms_days = pos 8;
    accounting_basis = accounting_cash;
    payment_methods = codes "CASH" ∷ [];
  };
  default_currency = codes "USD";
  invoice_prefix = codes "INV";
  source = platform_default;
}

abbrev pub start : Store
start = record {
  policies = [];
  invoices = [];
  item_rows = [];
  events = [];
  outbox = record { next_id = 1; rows = [] };
}

abbrev pub shop : CustomerSnapshot
shop = record {
  display_name = codes "Shop";
  company_name = [];
  email = [];
  phone = [];
  tax_id = [];
  country = codes "Hungary";
  state_region = [];
  city = codes "Pest";
  postal_code = [];
  address_line1 = codes "1 Fo u.";
  address_line2 = [];
}

abbrev pub repair : InvoiceItemInput
repair = record {
  description = codes "repair";
  quantity_milli = pos 2000;
  unit_price_minor = pos 150;
  discount_minor = pos 0;
  tax_rate_bps = pos 1000;
}

abbrev input : InvoiceInput
input = record {
  request_key = codes "k1 ";
  currency = [];
  customer = shop;
  items = repair ∷ [];
  payment_terms_days = none;
  notes = codes "n";
}

abbrev rewrite : InvoiceDraftUpdate
rewrite = record {
  currency = codes "eur";
  customer = shop;
  items = repair ∷ repair ∷ [];
  payment_terms_days = some (pos 30);
  notes = [];
}

abbrev intent : AutomatedInvoiceIntent
intent = record {
  partner_id = codes "p1";
  source_type = codes "workflow";
  source_id = codes "j";
  currency = [];
  customer = shop;
  items = repair ∷ [];
  payment_terms_days = none;
  notes = [];
  correlation_id = [];
  causation_id = [];
}

abbrev pub hash : DraftEnvelope → Text
hash e = e.source_id

abbrev pub profile : Text → Option Text
profile key =
    if text_eq key (codes "display_name")
    then some (codes "Garage")
    else if text_eq key (codes "country")
    then some (codes "Hungary")
    else if text_eq key (codes "city")
    then some (codes "Pest")
    else if text_eq key (codes "address_line1")
    then some (codes "2 Fo u.")
    else none

abbrev after : Result FinanceError (Text × Bool × Store) → Store
after (err _) = start
after (ok (_, _, s)) = s

abbrev created : Result FinanceError (Text × Bool × Store)
created = create_draft_tx platform hash 10 (codes "i1") (codes "p1") (codes "a1") input start

abbrev rewritten : Result FinanceError (Text × Bool × Store)
rewritten = update_draft_tx platform (codes "p1") (codes "a1") (codes "i1") rewrite (after created)

abbrev made_ready : Result FinanceError (Text × Bool × Store)
made_ready =
    finalize_tx platform (λ _. some profile) 20 (codes "p1") (codes "a1") (codes "i1") []
      (after created) (after created)

abbrev automated : Result FinanceError (Text × Bool × Store)
automated =
    automated_tx platform (λ _. some profile) hash 30 (codes "i2") (codes "workshop") (codes "w")
      intent start start

create_run : created ≡ ok (codes "i1", false, after created)
unfolding evaluate_store
create_run = refl

rewrite_run : rewritten ≡ ok (codes "i1", false, after rewritten)
unfolding evaluate_store
rewrite_run = refl

ready_run : made_ready ≡ ok (codes "i1", false, after made_ready)
unfolding evaluate_store
ready_run = refl

automated_run : automated ≡ ok (codes "i2", false, after automated)
unfolding evaluate_store
automated_run = refl

-- A draft that carries the request key of an automated invoice keeps that from being stored.
key_taken :
    automated_tx platform
      (λ _. some profile)
      hash
      30
      (codes "i2")
      (codes "workshop")
      (codes "w")
      intent
      start
      (after (
        create_draft_tx platform hash 10
          (codes "i1")
          (codes "p1")
          (codes "a1")
          (record input { request_key = codes "AUTO:WORKFLOW:j" })
          start))
    ≡ err unique_violation
unfolding evaluate_store
key_taken = refl

created-Keyed : Keyed (after created)
unfolding evaluate_store
created-Keyed = (refl, tt)

create_draft_tx_twice_example :
    create_draft_tx platform hash 99 (codes "i9") (codes "p1") (codes "a1") input (after created)
    ≡ ok (codes "i1", true, after created)
create_draft_tx_twice_example =
    create_draft_tx_twice platform hash 10 99 (codes "i1") (codes "i9") (codes "p1") (codes "a1")
      input start (after created) (codes "i1") false create_run

update_draft_tx-Grown_example :
    Grown (codes "p1") (after created).invoices (after rewritten).invoices
update_draft_tx-Grown_example =
    update_draft_tx-Grown platform (codes "p1") (codes "a1") (codes "i1") rewrite (after created)
      (after rewritten) (codes "i1") false created-Keyed rewrite_run

finalize_tx-Grown_example : Grown (codes "p1") (after created).invoices (after made_ready).invoices
finalize_tx-Grown_example =
    finalize_tx-Grown platform (λ _. some profile) 20 (codes "p1") (codes "a1") (codes "i1") []
      (after created) (after created) (after made_ready) (codes "i1") false created-Keyed ready_run

finalize_tx-IsIssuable_example :
    Issued (codes "p1") (codes "i1") (after made_ready).invoices
    × Announced 20 (codes "p1") (codes "i1") (after created).outbox (after made_ready).outbox
finalize_tx-IsIssuable_example =
    finalize_tx-IsIssuable platform (λ _. some profile) 20 (codes "p1") (codes "a1") (codes "i1") []
      (after created) (after created) (after made_ready) (codes "i1") ready_run

automated_tx-SourceOnce_example :
    SourceOnce (codes "p1") (codes "WORKFLOW") (codes "j") (after automated)
    × Extends start.invoices (after automated).invoices
automated_tx-SourceOnce_example =
    automated_tx-SourceOnce platform (λ _. some profile) hash (codes "p1") (codes "WORKFLOW")
      (codes "j") 30 (codes "i2") (codes "workshop") (codes "w") intent start start
      (after automated) (codes "i2") false (omega arith) automated_run

abbrev saved : PolicyState
saved = record platform { source = partner }

abbrev with_policy : Store
with_policy = record start {
  policies =
      record {
        partner_id = codes "p1";
        policy = platform.policy;
        default_currency = codes "USD";
        invoice_prefix = codes "INV";
        updated_by = codes "a1";
      }
      ∷ [];
}

save_run : save_policy (codes "p1 ") (codes "a1") platform start ≡ ok (saved, with_policy)
unfolding evaluate_store
save_run = refl

save_policy-load_policy_example : load_policy platform (codes "p1 ") with_policy ≡ ok saved
save_policy-load_policy_example =
    save_policy-load_policy ascii-UpperLaws platform (codes "p1 ") (codes "a1") platform saved start
      with_policy save_run
