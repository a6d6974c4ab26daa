-- ===== src/TenantFinance/Consumer.antt =====
-- services/cmd/tenantfinance/automation_consumer.go: the consumer that turns deliveries of the automation bus
-- into invoices. The bus and the catalog are called over HTTP: their answers are arguments.
pub mod Laws
mod Tests
use himate_system.Base.{
  ℕ, Bool, true, false, not, ◌&&◌, ◌||◌, Option, none, some, List, [], ◌∷◌, ◌++◌, find,
  if◌then◌else◌, ℤ, Result, ok, err, ◌>>=◌, ◌>>◌, reject_if, Text, codes, is_empty, text_eq,
  Unicode, equal_fold, trim_space,
}
use himate_system.TenantFinance.Items.{InvoiceItemInput}
use himate_system.TenantFinance.Parties.{
  CustomerSnapshot, SourceType, workflow, schedule, source_text,
}
use himate_system.TenantFinance.Store.{FinanceError, PolicyState, Store, Loaded}
use himate_system.TenantFinance.Store.Drafts.{DraftEnvelope}
use himate_system.TenantFinance.Store.Issue.{
  Profiles, AutomatedInvoiceIntent, create_automated_ready,
}

pub data ConsumerError : Type 0 where
  bad_producer bad_module unsupported_event subject_missing bad_payload : ConsumerError
  entitlement_unknown not_entitled : ConsumerError
  finance_error : FinanceError → ConsumerError

pub record InvoicePayload : Type 0 where
  pub currency : Text
  pub customer : CustomerSnapshot
  pub items : List InvoiceItemInput
  pub payment_terms_days : Option ℤ
  pub notes : Text

-- The payload is the raw JSON text.
pub record AutomationEvent : Type 0 where
  pub event_key : Text
  pub event_type : Text
  pub producer_service : Text
  pub partner_id : Text
  pub module_key : Text
  pub correlation_id : Text
  pub subject_type : Text
  pub subject_id : Text
  pub payload : Text

pub record AutomationDelivery : Type 0 where
  pub delivery_id : ℕ
  pub event : AutomationEvent

-- A module of a partner as the catalog lists it.
pub record ModuleItem : Type 0 where
  pub key : Text
  pub access_state : Text
  pub executable : Bool

abbrev pub workflow_invoice_ready : Text
workflow_invoice_ready = codes "workflow.billing_approved.v1"

abbrev pub schedule_invoice_ready : Text
schedule_invoice_ready = codes "scheduler.job_closed_invoice_ready.v1"

-- One case of the switch over the event types.
abbrev pub expect :
    AutomationEvent → Text → Text → Text → SourceType → Result ConsumerError SourceType
expect e producer module_key subject_type source = do
  reject_if (not (text_eq (trim_space e.producer_service) producer)) bad_producer
  reject_if
      (not (text_eq (trim_space e.module_key) module_key)
        || not (text_eq (trim_space e.subject_type) subject_type))
      bad_module
  ok source

unfoldable pub source_of : AutomationEvent → Result ConsumerError SourceType
source_of e =
    let event_type = trim_space e.event_type in
    if text_eq event_type workflow_invoice_ready
    then expect e (codes "workshop") (codes "workshop_workflow") (codes "workflow") workflow
    else if text_eq event_type schedule_invoice_ready
    then expect e (codes "scheduler") (codes "scheduler") (codes "scheduled_job") schedule
    else err unsupported_event

abbrev pub intent_with :
    AutomationEvent
    → SourceType
    → Option InvoicePayload
    → Result ConsumerError AutomatedInvoiceIntent
intent_with e source none = err bad_payload
intent_with e source (some p) = ok (record {
  partner_id = trim_space e.partner_id;
  source_type = source_text source;
  source_id = trim_space e.subject_id;
  currency = p.currency;
  customer = p.customer;
  items = p.items;
  payment_terms_days = p.payment_terms_days;
  notes = p.notes;
  correlation_id = e.correlation_id;
  causation_id = e.event_key;
})

-- `decode` stands for the strict decoding of the payload, which gives exactly one object or fails.
unfoldable pub intent_from_delivery :
    (Text → Option InvoicePayload) → AutomationEvent → Result ConsumerError AutomatedInvoiceIntent
intent_from_delivery decode e = do
  source ← source_of e
  reject_if (is_empty (trim_space e.partner_id) || is_empty (trim_space e.subject_id))
      subject_missing
  intent_with e source (decode e.payload)

abbrev pub invoice_module : Text
invoice_module = codes "invoice_documents"

abbrev pub has_module : Text → ModuleItem → Bool
has_module key m = text_eq (trim_space m.key) key

module _ ⦃u : Unicode⦄ where
  abbrev pub executable_module : Option ModuleItem → Bool
  executable_module none = false
  executable_module (some m) =
      m.executable && equal_fold (trim_space m.access_state) (codes "ACTIVE")

  abbrev pub entitled_by : Text → Option (List ModuleItem) → Result ConsumerError Bool
  entitled_by key none = err entitlement_unknown
  entitled_by key (some items) = ok (executable_module (find (has_module key) items))

  -- `catalog` is the answer for a partner, if it is one.
  unfoldable pub module_entitled :
      (Text → Option (List ModuleItem)) → Text → Text → Result ConsumerError Bool
  module_entitled catalog partner_id key = do
    reject_if (is_empty (trim_space partner_id) || is_empty (trim_space key)) entitlement_unknown
    entitled_by (trim_space key) (catalog (trim_space partner_id))

-- What the consumer then tells the bus.
pub data Call : Type 0 where
  ack_call fail_call : ℕ → Call

abbrev pub consumed : Result FinanceError (Loaded × Bool) → Result ConsumerError (Unit {0})
consumed (err e) = err (finance_error e)
consumed (ok _) = ok tt

abbrev pub is_ok : Result ConsumerError (Unit {0}) → Bool
is_ok (err e) = false
is_ok (ok _) = true

module _ ⦃u : Unicode⦄ (platform : PolicyState) (profiles : Profiles) (hash : DraftEnvelope → Text)
    (decode : Text → Option InvoicePayload) (catalog : Text → Option (List ModuleItem)) where
  unfoldable pub entitled_intent : AutomationEvent → Result ConsumerError AutomatedInvoiceIntent
  entitled_intent e = do
    intent ← intent_from_delivery decode e
    entitled ← module_entitled catalog intent.partner_id invoice_module
    reject_if (not entitled) not_entitled
    ok intent

  abbrev pub consume_intent :
      Result ConsumerError AutomatedInvoiceIntent
      → ℕ
      → Text
      → Text
      → Store
      → Result ConsumerError (Unit {0}) × Store
  consume_intent (err e) now id producer s = (err e, s)
  consume_intent (ok intent) now id producer s =
      let (r, s') =
        create_automated_ready platform profiles hash now id producer (codes "service:" ++ producer)
          intent s s in
      (consumed r, s')

  unfoldable pub consume_invoice_delivery :
      ℕ → Text → AutomationDelivery → Store → Result ConsumerError (Unit {0}) × Store
  consume_invoice_delivery now id d s =
      consume_intent (entitled_intent d.event) now id (trim_space d.event.producer_service) s

  -- The loop over the claimed deliveries: a delivery that cannot be turned into an invoice is failed and the
  -- next one follows; an acknowledgement that the bus does not take ends the round. `ids` gives the
  -- random identifier for a delivery.
  unfoldable pub consume_all :
      ℕ → (ℕ → Text) → (ℕ → Bool) → List AutomationDelivery → Store → List Call × Bool × Store
  consume_all now ids acked [] s = ([], true, s)
  consume_all now ids acked (d ∷ rest) s =
      let (r, s') = consume_invoice_delivery now (ids d.delivery_id) d s in
      let (calls, complete, last) = consume_all now ids acked rest s' in
      if is_ok r
      then (if acked d.delivery_id
          then (ack_call d.delivery_id ∷ calls, complete, last)
          else (ack_call d.delivery_id ∷ [], false, s'))
      else (fail_call d.delivery_id ∷ calls, complete, last)
