-- ===== src/Automation/Bus/FanOut.antt =====
-- Which consumers get a delivery of a new event.
use mathlib.Core.Path.{subst}
use himate_system.Base.{
  ℕ, ◌+◌, ◌<◌, ◌≡◌, refl, ap, Bool, true, false, ◌&&◌, Option, none, some, List, [], ◌∷◌, arith,
  inl, inr, Bool-cases, find, if◌then◌else◌, count, count-append, min, max, ◌==◌, ==_iff, All, ok,
  Text, text_eq, text_eq_refl, text_eq_iff, trim_space,
}
use himate_system.Automation.Bus.{
  Bus, BusEvent, EventInput, Envelope, Published, Subscription, Delivery, matching, add_consumer,
  consumers, new_deliveries, has_event_key, store_event, store_or_replay, publish_event,
}
use himate_system.Automation.Bus.Replay.{publish_event-eq-ok, replay_event-eq-ok, first_envelope}

abbrev named : Text → (Text × ℕ) → Bool
named c x = text_eq x.0 c

abbrev pub subscribed : Envelope → Text → Subscription → Bool
subscribed e c s = matching e s && text_eq s.consumer_service c

abbrev pub delivered : ℕ → Text → Delivery → Bool
delivered event_id c d = d.event_id == event_id && text_eq d.consumer_service c

count-add_consumer :
    (c d : Text) (n : ℕ) (xs : List (Text × ℕ))
    → count (named c) (add_consumer d n xs)
      ≡ (if text_eq d c then max 1 (count (named c) xs) else count (named c) xs)
unfolding add_consumer
count-add_consumer c d n [] = ground arith
count-add_consumer c d n ((x, m) ∷ xs) = elim (Bool-cases (text_eq x d)) [
  | inl same ↦ rw (same, (text_eq_iff x d).0 same) (ground arith)
  | inr other ↦ elim (Bool-cases (text_eq x c)) [
    | inl hit ↦
        let apart : text_eq d c ≡ false = elim (Bool-cases (text_eq d c)) [
          | inl e ↦ cc (text_eq_refl c, (text_eq_iff d c).0 e, (text_eq_iff x c).0 hit)
          | inr f ↦ f
        ] in
        rw (other, hit, apart) (ground (arith, count-add_consumer c d n xs))
    | inr miss ↦ rw (other, miss) (count-add_consumer c d n xs)
  ]
]

-- A consumer is listed once, if one of its active subscriptions matches the event.
count-consumers :
    (e : Envelope) (c : Text) (subs : List Subscription)
    → count (named c) (consumers e subs) ≡ min 1 (count (subscribed e c) subs)
unfolding consumers
count-consumers e c [] = refl
count-consumers e c (s ∷ rest) =
    let step = count-add_consumer c s.consumer_service s.max_attempts (consumers e rest) in
    ground (arith, step, count-consumers e c rest)

count-new_deliveries :
    (id available next : ℕ) (c : Text) (xs : List (Text × ℕ))
    → count (delivered id c) (new_deliveries id available next xs) ≡ count (named c) xs
unfolding new_deliveries
count-new_deliveries id available next c [] = refl
count-new_deliveries id available next c ((d, n) ∷ xs) =
    rw ((==_iff id id).1 refl) (ground (arith, count-new_deliveries id available (next + 1) c xs))

-- The deliveries belong to events that were stored before.
abbrev pub DeliveriesStored : Bus → Type 0
DeliveriesStored b = All (λ d. d.event_id < b.next_event_id) b.deliveries

count-old :
    (id : ℕ) (c : Text) (ds : List Delivery)
    → All (λ (d : Delivery). d.event_id < id) ds
    → count (delivered id c) ds ≡ 0
count-old id c [] h = refl
count-old id c (d ∷ ds) h = ground (arith, h.0, count-old id c ds h.1)

module _ (hash : Envelope → Text) where
  store_event-delivered :
      (e : Envelope) (c : Text) (b : Bus)
      → DeliveriesStored b
      → let (p, b') = store_event hash e b in
        count (delivered p.id c) b'.deliveries ≡ min 1 (count (subscribed e c) b.subscriptions)
  unfolding store_event
  store_event-delivered e c b h =
      let id = b.next_event_id in
      let fresh =
        new_deliveries id e.available_at b.next_delivery_id (consumers e b.subscriptions) in
      omega (
        arith,
        count-append (delivered id c) b.deliveries fresh,
        count-old id c b.deliveries h,
        count-new_deliveries id e.available_at b.next_delivery_id c (consumers e b.subscriptions),
        count-consumers e c b.subscriptions,
      )

  new_delivered :
      (o : Option BusEvent) (now : ℕ) (service : Text) (input : EventInput) (b b' : Bus)
      (p : Published) (c : Text)
      → DeliveriesStored b
      → store_or_replay hash o service input (first_envelope hash now service input) b ≡ ok (p, b')
      → p.duplicate ≡ false
      → count (delivered p.id c) b'.deliveries
        ≡ min 1 (count (subscribed (first_envelope hash now service input) c) b.subscriptions)
  new_delivered none now service input b b' p c stored h new =
      let e = first_envelope hash now service input in
      let same : store_event hash e b ≡ (p, b') = ground arith in
      subst
        (λ r.
          count (delivered r.0.id c) r.1.deliveries
          ≡ min 1 (count (subscribed e c) b.subscriptions))
        same (store_event-delivered e c b stored)
  new_delivered (some old) now service input b b' p c stored h new = cc (
    new,
    ap (λ (q : Published). q.duplicate) (replay_event-eq-ok hash service input old b b' p h).1,
  )

  -- Each consumer with an active subscription for the event gets one delivery of it, whatever the number of
  -- its subscriptions, and no other consumer gets any.
  pub publish_event-delivered :
      (now : ℕ) (service : Text) (input : EventInput) (b b' : Bus) (p : Published) (c : Text)
      → DeliveriesStored b
      → publish_event hash now true (some service) (some input) b ≡ ok (p, b')
      → p.duplicate ≡ false
      → count (delivered p.id c) b'.deliveries
        ≡ min 1 (count (subscribed (first_envelope hash now service input) c) b.subscriptions)
  publish_event-delivered now service input b b' p c stored h new =
      new_delivered (find (has_event_key service (trim_space input.event_key)) b.events) now service
        input b b' p c stored (publish_event-eq-ok hash now service input b (p, b') h).1 new
