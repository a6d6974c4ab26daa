-- ===== src/TenantFinance/Consumer/Tests.antt =====
-- Runs of the consumer on concrete deliveries.
use himate_system.Base.{
  ℕ, ◌≡◌, refl, true, false, Option, none, some, List, [], ◌∷◌, ok, Text, codes, is_empty, map,
  arith, trim_space,
}
use himate_system.Base.Strings.Ascii.{ascii}
use himate_system.TenantFinance.Parties.{validate_source_for_service}
use himate_system.TenantFinance.Store.{load_invoice}
use himate_system.TenantFinance.Store.Issue.{
  AutomatedInvoiceIntent, Profiles, create_automated_ready,
}
use himate_system.TenantFinance.Store.Once.{SourceOnce}
use himate_system.TenantFinance.Store.Tests.{
  platform, start, shop, repair, hash, profile, evaluate_store,
}
use himate_system.TenantFinance.Consumer.{
  InvoicePayload, AutomationEvent, AutomationDelivery, ModuleItem, workflow_invoice_ready,
  source_of, intent_from_delivery, module_entitled, entitled_intent, consume_invoice_delivery,
  ack_call, fail_call, consume_all,
}
use himate_system.TenantFinance.Consumer.Laws.{
  call_id, intent_from_delivery-validate, consume_all-SourceOnce, consume_all-answers,
}

abbrev approved : AutomationEvent
approved = record {
  event_key = codes "job:j";
  event_type = workflow_invoice_ready;
  producer_service = codes "workshop";
  partner_id = codes "p1 ";
  module_key = codes "workshop_workflow";
  correlation_id = [];
  subject_type = codes "workflow";
  subject_id = codes "j";
  payload = codes "{}";
}

abbrev decode : Text → Option InvoicePayload
decode _ = some (record {
  currency = [];
  customer = shop;
  items = repair ∷ [];
  payment_terms_days = none;
  notes = [];
})

abbrev catalog : Text → Option (List ModuleItem)
catalog _ = some (
    record { key = codes "invoice_documents"; access_state = codes "active"; executable = true }
    ∷ [])

abbrev profiles : Profiles
profiles _ = some profile

-- The bus hands out one event twice, and an event of another type.
abbrev deliveries : List AutomationDelivery
deliveries =
    record { delivery_id = 1; event = approved }
    ∷ record { delivery_id = 2; event = approved }
    ∷ record { delivery_id = 3; event = record approved { event_type = codes "other" } }
    ∷ []

abbrev ids : ℕ → Text
ids n = codes "i"

abbrev read_intent : AutomatedInvoiceIntent
read_intent = record {
  partner_id = codes "p1";
  source_type = codes "WORKFLOW";
  source_id = codes "j";
  currency = [];
  customer = shop;
  items = repair ∷ [];
  payment_terms_days = none;
  notes = [];
  correlation_id = [];
  causation_id = codes "job:j";
}

read_approved : intent_from_delivery decode approved ≡ ok read_intent
unfolding evaluate_store intent_from_delivery source_of
read_approved = refl

answers :
    (consume_all platform profiles hash decode catalog 30 ids (λ _. true) deliveries start).0
    ≡ ack_call 1 ∷ ack_call 2 ∷ fail_call 3 ∷ []
unfolding evaluate_store intent_from_delivery source_of module_entitled entitled_intent
    consume_invoice_delivery consume_all load_invoice create_automated_ready
answers = refl

intent_from_delivery-validate_example :
    (validate_source_for_service (trim_space approved.producer_service) read_intent.source_type
      ≡ ok tt)
    × (is_empty read_intent.partner_id ≡ false)
    × (is_empty read_intent.source_id ≡ false)
intent_from_delivery-validate_example =
    intent_from_delivery-validate decode approved read_intent read_approved

consume_all-SourceOnce_example :
    SourceOnce
      (codes "p1")
      (codes "WORKFLOW")
      (codes "j")
      (consume_all platform profiles hash decode catalog 30 ids (λ _. true) deliveries start).2
consume_all-SourceOnce_example =
    consume_all-SourceOnce platform profiles hash decode catalog (codes "p1") (codes "WORKFLOW")
      (codes "j") 30 ids (λ _. true) deliveries start (omega arith)

consume_all-answers_example :
    ((consume_all platform profiles hash decode catalog 30 ids (λ _. true) deliveries start).1
      ≡ true)
    × (map call_id
          (consume_all platform profiles hash decode catalog 30 ids (λ _. true) deliveries start).0
        ≡ map (λ (d : AutomationDelivery). d.delivery_id) deliveries)
consume_all-answers_example =
    consume_all-answers platform profiles hash decode catalog 30 ids (λ _. true) deliveries start
      (refl, (refl, (refl, tt)))
