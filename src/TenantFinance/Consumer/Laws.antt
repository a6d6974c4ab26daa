-- ===== src/TenantFinance/Consumer/Laws.antt =====
-- What the consumer guarantees of the invoices it makes and of the deliveries it was given.
use himate_system.Base.{
  ℕ, ◌≡◌, refl, ap, Bool, true, false, ◌||◌, Option, none, some, List, [], ◌∷◌, ◌++◌, map, arith,
  inl, inr, Bool-cases, Result, ok, err, reject_if-eq-ok, >>=-eq-ok, Text, codes, is_empty, text_eq,
  text_eq_iff, Unicode, to_upper, upper_rune, is_space, trim_left, trim_right, trim_space,
  trim_space-trim_space, All,
}
use himate_system.TenantFinance.Parties.{
  SourceType, manual, workflow, schedule, source_text, validate_source_for_service,
}
use himate_system.TenantFinance.Store.{PolicyState, Store, FinanceError, read_again}
use himate_system.TenantFinance.Store.Drafts.{DraftEnvelope}
use himate_system.TenantFinance.Store.Issue.{
  Profiles, AutomatedInvoiceIntent, automated_tx, create_automated_ready,
}
use himate_system.TenantFinance.Store.Once.{SourceOnce, automated_tx-SourceOnce}
use himate_system.TenantFinance.Consumer.{
  ConsumerError, subject_missing, InvoicePayload, AutomationEvent, AutomationDelivery, ModuleItem,
  source_of, intent_with, intent_from_delivery, entitled_intent, consume_intent,
  consume_invoice_delivery, Call, ack_call, fail_call, is_ok, consume_all,
}

abbrev pub call_id : Call → ℕ
call_id (ack_call n) = n
call_id (fail_call n) = n

-- The only pairs of a source and a producer that the switch lets through.
data Produced : SourceType → Text → Type 0 where
  by_workshop : (producer : Text) → producer ≡ codes "workshop" → Produced workflow producer
  by_scheduler : (producer : Text) → producer ≡ codes "scheduler" → Produced schedule producer

source_of-Produced :
    (e : AutomationEvent) (source : SourceType)
    → source_of e ≡ ok source
    → Produced source (trim_space e.producer_service)
unfolding source_of
source_of-Produced e workflow h =
    by_workshop (trim_space e.producer_service)
      (ground (arith, text_eq_iff (trim_space e.producer_service) (codes "workshop")))
source_of-Produced e schedule h =
    by_scheduler (trim_space e.producer_service)
      (ground (arith, text_eq_iff (trim_space e.producer_service) (codes "scheduler")))
source_of-Produced e manual h = ground arith

intent_with-eq-ok :
    (e : AutomationEvent) (source : SourceType) (o : Option InvoicePayload)
    (i : AutomatedInvoiceIntent)
    → intent_with e source o ≡ ok i
    → (i.source_type ≡ source_text source)
      × (i.partner_id ≡ trim_space e.partner_id)
      × (i.source_id ≡ trim_space e.subject_id)
intent_with-eq-ok e source none i h = cc
intent_with-eq-ok e source (some p) i h = (ground arith, ground arith, ground arith)

module _ ⦃u : Unicode⦄ where
  Produced-validate :
      (source : SourceType) (producer : Text)
      → Produced source (trim_space producer)
      → validate_source_for_service (trim_space producer) (source_text source) ≡ ok tt
  unfolding validate_source_for_service to_upper upper_rune is_space trim_left trim_right trim_space
      text_eq
  Produced-validate workflow producer (by_workshop _ h) = rw (trim_space-trim_space producer, h)
  Produced-validate schedule producer (by_scheduler _ h) = rw (trim_space-trim_space producer, h)
  Produced-validate manual producer x = elim x [ ]

  -- An intent that the consumer reads from a delivery names a partner and a source, and its source is one
  -- that the event's producer may bill: the invoice service does not refuse it for its origin.
  pub intent_from_delivery-validate :
      (decode : Text → Option InvoicePayload) (e : AutomationEvent) (i : AutomatedInvoiceIntent)
      → intent_from_delivery decode e ≡ ok i
      → (validate_source_for_service (trim_space e.producer_service) i.source_type ≡ ok tt)
        × (is_empty i.partner_id ≡ false)
        × (is_empty i.source_id ≡ false)
  unfolding intent_from_delivery
  intent_from_delivery-validate decode e i h =
      let (source, allowed, h1) = >>=-eq-ok (source_of e) _ h in
      let missing = is_empty (trim_space e.partner_id) || is_empty (trim_space e.subject_id) in
      let (present, h2) = reject_if-eq-ok missing subject_missing _ h1 in
      let (same, partner_id, source_id) = intent_with-eq-ok e source (decode e.payload) i h2 in
      (
        rw same (Produced-validate source e.producer_service (source_of-Produced e source allowed)),
        rw partner_id (ground arith),
        rw source_id (ground arith),
      )

module _ ⦃u : Unicode⦄ (platform : PolicyState) (profiles : Profiles) (hash : DraftEnvelope → Text)
    (decode : Text → Option InvoicePayload) (catalog : Text → Option (List ModuleItem)) where
  read_again-SourceOnce :
      (p t source partner_id : Text) (s : Store) (r : Result FinanceError (Text × Bool × Store))
      → SourceOnce p t source s
      → ((out : Text) (d : Bool) (s' : Store) → r ≡ ok (out, d, s') → SourceOnce p t source s')
      → SourceOnce p t source (read_again partner_id s r).1
  read_again-SourceOnce p t source partner_id s (err e) h k = h
  read_again-SourceOnce p t source partner_id s (ok (out, d, s')) h k = k out d s' refl

  consume_intent-SourceOnce :
      (p t source : Text) (r : Result ConsumerError AutomatedInvoiceIntent) (now : ℕ)
      (id producer : Text) (s : Store)
      → SourceOnce p t source s
      → SourceOnce p t source
          (consume_intent platform profiles hash decode catalog r now id producer s).1
  unfolding create_automated_ready
  consume_intent-SourceOnce p t source (err e) now id producer s h = h
  consume_intent-SourceOnce p t source (ok intent) now id producer s h =
      read_again-SourceOnce p t source (trim_space intent.partner_id) s
        (automated_tx platform profiles hash now id producer (codes "service:" ++ producer) intent s
          s)
        h
        (λ out d s' e.
          (automated_tx-SourceOnce platform profiles hash p t source now id producer
            (codes "service:" ++ producer) intent s s s' out d h e).0)

  -- However often and in whatever order the bus hands out its deliveries, a round of the consumer leaves no
  -- source of a partner with two invoices, if none had two before.
  pub consume_all-SourceOnce :
      (p t source : Text) (now : ℕ) (ids : ℕ → Text) (acked : ℕ → Bool)
      (ds : List AutomationDelivery) (s : Store)
      → SourceOnce p t source s
      → SourceOnce p t source
          (consume_all platform profiles hash decode catalog now ids acked ds s).2
  unfolding consume_all consume_invoice_delivery
  consume_all-SourceOnce p t source now ids acked [] s h = h
  consume_all-SourceOnce p t source now ids acked (d ∷ rest) s h =
      let r =
        consume_intent platform profiles hash decode catalog
          (entitled_intent platform profiles hash decode catalog d.event) now (ids d.delivery_id)
          (trim_space d.event.producer_service) s in
      let once =
        consume_intent-SourceOnce p t source
          (entitled_intent platform profiles hash decode catalog d.event) now (ids d.delivery_id)
          (trim_space d.event.producer_service) s h in
      let later = consume_all-SourceOnce p t source now ids acked rest r.1 once in
      elim (Bool-cases (is_ok r.0)) [
        | inr failed ↦ rw failed later
        | inl fine ↦ elim (Bool-cases (acked d.delivery_id)) [
          | inl heard ↦ rw (fine, heard) later
          | inr lost ↦ rw (fine, lost) once
        ]
      ]

  -- If the bus takes the acknowledgement of each of the deliveries, a round goes through to its end and answers
  -- every delivery exactly once, in order, with an acknowledgement or a failure, whichever of them
  -- cannot be turned into an invoice.
  pub consume_all-answers :
      (now : ℕ) (ids : ℕ → Text) (acked : ℕ → Bool) (ds : List AutomationDelivery) (s : Store)
      → let r = consume_all platform profiles hash decode catalog now ids acked ds s in
        All (λ (d : AutomationDelivery). acked d.delivery_id ≡ true) ds
        → (r.1 ≡ true) × (map call_id r.0 ≡ map (λ (d : AutomationDelivery). d.delivery_id) ds)
  unfolding consume_all
  consume_all-answers now ids acked [] s h = (refl, refl)
  consume_all-answers now ids acked (d ∷ rest) s h =
      let r =
        consume_invoice_delivery platform profiles hash decode catalog now (ids d.delivery_id) d
          s in
      let (complete, answered) = consume_all-answers now ids acked rest r.1 h.1 in
      elim (Bool-cases (is_ok r.0)) [
        | inr failed ↦ rw failed (complete, ap (λ ns. d.delivery_id ∷ ns) answered)
        | inl fine ↦ rw (fine, h.0) (complete, ap (λ ns. d.delivery_id ∷ ns) answered)
      ]
