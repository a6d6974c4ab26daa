-- ===== src/Automation/Bus/Tests.antt =====
-- Runs of the event bus on concrete input.
use himate_system.Base.{
  ◌≡◌, refl, none, some, [], ◌∷◌, pos, negsuc, ok, true, false, arith, map, codes, Text, Pointwise,
  count, min, ◌+◌, ◌*◌,
}
use himate_system.Base.Strings.Ascii.{evaluate_texts}
use himate_system.Automation.Picking.{mem, insert_row, sort_rows, picked, update_picked, returned}
use himate_system.Automation.Outbox.{second}
use himate_system.Automation.Bus.{
  Bus, BusEvent, Subscription, SubscriptionInput, Delivery, pending, Envelope, EventInput,
  Published, upsert_subscription, register_types, subscribe, matches_event_type, db_timestamp,
  add_consumer, consumers, new_deliveries, store_event, publish_event,
}
use himate_system.Automation.Bus.Deliveries.{claim, lease_delivery, delivery_action, fail}
use himate_system.Automation.Bus.Replay.{publish_event_twice, first_envelope}
use himate_system.Automation.Bus.FanOut.{publish_event-delivered, delivered, subscribed}
use himate_system.Automation.Bus.Steps.{ActionStep, delivery_action-ActionStep, claim_exclusive}

abbrev hash : Envelope → Text
hash e = e.event_type

abbrev start : Bus
start = record {
  subscriptions = [];
  events = [];
  next_event_id = 1;
  deliveries = [];
  next_delivery_id = 1;
}

abbrev finance : Subscription
finance = record {
  consumer_service = codes "tenant-finance";
  event_type = codes "workshop.completed";
  partner_id = [];
  module_key = [];
  active = true;
  max_attempts = 8;
}

abbrev subscribed_bus : Bus
subscribed_bus = record start { subscriptions = finance ∷ [] }

abbrev wish : SubscriptionInput
wish = record {
  event_types = codes " workshop.completed" ∷ [];
  partner_id = [];
  module_key = [];
  max_attempts = pos 0;
}

subscribe_finance :
    subscribe true (some (codes "tenant-finance")) (some wish) start ≡ ok subscribed_bus
unfolding subscribe register_types upsert_subscription matches_event_type evaluate_texts
subscribe_finance = refl

abbrev completed : EventInput
completed = record {
  event_key = codes "job:7";
  event_type = codes "workshop.completed";
  event_version = pos 0;
  partner_id = codes "p1";
  module_key = [];
  correlation_id = [];
  causation_id = [];
  subject_type = [];
  subject_id = [];
  payload = [];
  occurred_at = none;
  available_at = some 5_500;
  correlation_header = codes "c";
  causation_header = [];
}

abbrev stored : BusEvent
stored = record {
  id = 1;
  envelope = record {
    event_key = codes "job:7";
    event_type = codes "workshop.completed";
    event_version = pos 1;
    producer_service = codes "workshop";
    partner_id = codes "p1";
    module_key = [];
    correlation_id = codes "c";
    causation_id = [];
    subject_type = [];
    subject_id = [];
    payload = [];
    occurred_at = 9_000;
    available_at = 5_000;
  };
  envelope_hash = codes "workshop.completed";
}

abbrev waiting : Delivery
waiting = record {
  id = 1;
  event_id = 1;
  consumer_service = codes "tenant-finance";
  status = pending;
  attempts = 0;
  max_attempts = 8;
  available_at = 5_000;
  lease_until = none;
  last_error = [];
  acked_at = none;
}

abbrev published_bus : Bus
published_bus = record {
  subscriptions = finance ∷ [];
  events = stored ∷ [];
  next_event_id = 2;
  deliveries = waiting ∷ [];
  next_delivery_id = 2;
}

abbrev accepted : Published
accepted = record { id = 1; duplicate = false; available_at = 5_000 }

publish_completed :
    publish_event hash 9_999 true (some (codes "workshop")) (some completed) subscribed_bus
    ≡ ok (accepted, published_bus)
unfolding publish_event store_event new_deliveries consumers add_consumer matches_event_type
    db_timestamp evaluate_texts
publish_completed = refl

abbrev held : Delivery
held = lease_delivery 10_000 waiting

abbrev claimed_bus : Bus
claimed_bus = record published_bus { deliveries = held ∷ [] }

claim_first :
    claim 10_000 true (some (codes "tenant-finance")) (some (pos 0)) published_bus
    ≡ ok (held ∷ [], claimed_bus)
unfolding claim update_picked returned picked sort_rows insert_row evaluate_texts
claim_first = refl

claim_second :
    claim 11_000 true (some (codes "tenant-finance")) (some (negsuc 2)) claimed_bus
    ≡ ok ([], claimed_bus)
unfolding claim update_picked returned picked sort_rows insert_row evaluate_texts
claim_second = refl

abbrev returned_delivery : Delivery
returned_delivery = record held {
  status = pending;
  last_error = codes "offline";
  lease_until = none;
  available_at = 12_000 + 5 * second;
}

abbrev failed_bus : Bus
failed_bus = record published_bus { deliveries = returned_delivery ∷ [] }

fail_first :
    delivery_action 12_000 true
      (some (codes "tenant-finance"))
      (some 1)
      (fail (some (codes " offline", pos 0)))
      claimed_bus
    ≡ ok (pending, failed_bus)
unfolding delivery_action evaluate_texts
fail_first = refl

publish_event_twice_example :
    publish_event hash 77_777 true (some (codes "workshop")) (some completed) published_bus
    ≡ ok (record { id = 1; duplicate = true; available_at = 5_000 }, published_bus)
publish_event_twice_example =
    publish_event_twice hash 9_999 77_777 (codes "workshop") completed subscribed_bus published_bus
      accepted publish_completed

publish_event-delivered_example :
    count (delivered 1 (codes "tenant-finance")) published_bus.deliveries
    ≡ min 1 (
        count
          (subscribed
            (first_envelope hash 9_999 (codes "workshop") completed)
            (codes "tenant-finance"))
          subscribed_bus.subscriptions)
publish_event-delivered_example =
    publish_event-delivered hash 9_999 (codes "workshop") completed subscribed_bus published_bus
      accepted (codes "tenant-finance") tt publish_completed refl

delivery_action-ActionStep_example :
    Pointwise
      (ActionStep (codes "tenant-finance") 12_000 1)
      claimed_bus.deliveries
      failed_bus.deliveries
delivery_action-ActionStep_example =
    delivery_action-ActionStep 12_000 (codes "tenant-finance") 1
      (fail (some (codes " offline", pos 0))) claimed_bus failed_bus pending (refl, tt) fail_first

claim_exclusive_example : mem 1 (map (λ (r : Delivery). r.id) []) ≡ false
claim_exclusive_example =
    claim_exclusive 10_000 11_000 (codes "tenant-finance") (codes "tenant-finance") (pos 0)
      (negsuc 2) published_bus claimed_bus claimed_bus (held ∷ []) [] 1 (omega arith) claim_first
      claim_second refl
