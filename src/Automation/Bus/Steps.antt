-- ===== src/Automation/Bus/Steps.antt =====
-- How an action changes a delivery's row, and that two consumers never hold one delivery.
use himate_system.Base.{
  ℕ, ◌+◌, ◌*◌, ◌≤◌, ◌≡◌, refl, ap, inl, inr, Bool, true, false, ==_iff, Option, none, some, List,
  [], ◌∷◌, map, arith, Bool-cases, update_where-Pointwise_cases, leb, trim_space, find,
  update_where, All, All-every, ok, Text, text_eq_iff, ℤ, Pointwise,
}
use himate_system.Automation.Picking.{mem, update_picked, returned}
use himate_system.Automation.Picking.Laws.{KeyedById, picked_disjoint, returned-mem}
use himate_system.Automation.Outbox.{second}
use himate_system.Automation.Bus.{
  Bus, Delivery, DeliveryStatus, pending, processing, acked, dead_letter,
}
use himate_system.Automation.Bus.Deliveries.{
  claimable, claim_limit, lease_delivery, claim, retry_seconds, owned, owned_processing,
  ack_delivery, ack_action, fail_status, fail_delivery, fail_found, delivery_action, Action, ack,
  fail, other,
}

abbrev pub DeliveriesKeyed : Bus → Type 0
DeliveriesKeyed b = KeyedById (λ (r : Delivery). r.available_at) (λ r. r.id) b.deliveries

claim-eq-ok :
    (now : ℕ) (service : Text) (limit : ℤ) (b b' : Bus) (got : List Delivery)
    → claim now true (some service) (some limit) b ≡ ok (got, b')
    → (returned
          (λ (r : Delivery). r.available_at)
          (λ r. r.id)
          (claimable service now)
          (claim_limit limit)
          (lease_delivery now)
          b.deliveries
        ≡ got)
      × (update_picked
            (λ (r : Delivery). r.available_at)
            (λ r. r.id)
            (claimable service now)
            (claim_limit limit)
            (lease_delivery now)
            b.deliveries
          ≡ b'.deliveries)
unfolding claim
claim-eq-ok now service limit b b' got h = (ground arith, ground arith)

-- What an acknowledgement or a failure that names the delivery `id` does to a row at the time `now`: it leaves
-- it, unless the row has that id, belongs to the caller and is being processed; such a row it acknowledges, or
-- it gives it up if its attempts are used up, or else returns it to the queue.
pub data ActionStep (service : Text) (now id : ℕ) (r s : Delivery) : Type 0 where
  kept :
      ¬ ((r.id ≡ id) × (r.consumer_service ≡ service) × (r.status ≡ processing))
      → s ≡ r
      → ActionStep service now id r s
  acknowledged :
      r.id ≡ id
      → r.consumer_service ≡ service
      → r.status ≡ processing
      → s ≡ record r { status = acked; acked_at = some now; lease_until = none; last_error = [] }
      → ActionStep service now id r s
  given_up :
      (message : Text)
      → r.id ≡ id
      → r.consumer_service ≡ service
      → r.status ≡ processing
      → leb r.max_attempts r.attempts ≡ true
      → s ≡ record r { status = dead_letter; last_error = message; lease_until = none }
      → ActionStep service now id r s
  queued_again :
      (message : Text) (wait : ℕ)
      → r.id ≡ id
      → r.consumer_service ≡ service
      → r.status ≡ processing
      → leb r.max_attempts r.attempts ≡ false
      → s ≡ record r {
        status = pending;
        last_error = message;
        lease_until = none;
        available_at = now + wait;
      }
      → ActionStep service now id r s

unnamed-ActionStep :
    (service : Text) (now id : ℕ) (r : Delivery)
    → owned_processing id service r ≡ false
    → ActionStep service now id r r
unnamed-ActionStep service now id r h =
    kept
      (λ (same, mine, held).
        ground (arith, same, mine, held, ==_iff r.id id, text_eq_iff r.consumer_service service))
      refl

unowned-ActionStep :
    (service : Text) (now id : ℕ) (r : Delivery)
    → owned id service r ≡ false
    → ActionStep service now id r r
unowned-ActionStep service now id r h =
    kept
      (λ (same, mine, held).
        ground (arith, same, mine, ==_iff r.id id, text_eq_iff r.consumer_service service))
      refl

ack-ActionStep :
    (service : Text) (now id : ℕ) (r : Delivery)
    → owned_processing id service r ≡ true
    → ActionStep service now id r (ack_delivery now r)
ack-ActionStep service now id r h =
    acknowledged (ground (arith, ==_iff r.id id))
      ((text_eq_iff r.consumer_service service).0 (ground arith)) (ground arith) refl

fail-ActionStep :
    (service : Text) (now id : ℕ) (message : Text) (seconds : ℤ) (r : Delivery)
    → owned_processing id service r ≡ true
    → ActionStep service now id r
        (fail_delivery now (fail_status r.attempts r.max_attempts) message seconds r)
fail-ActionStep service now id message seconds r h =
    let same : r.id ≡ id = ground (arith, ==_iff r.id id) in
    let mine = (text_eq_iff r.consumer_service service).0 (ground arith) in
    let held : r.status ≡ processing = ground arith in
    elim (Bool-cases (leb r.max_attempts r.attempts)) [
      | inl spent ↦ rw spent (given_up (trim_space message) same mine held spent refl)
      | inr more ↦ rw more (
          queued_again (trim_space message) (retry_seconds seconds * second) same mine held more
            refl)
    ]

found-mem :
    (id : ℕ) (service : Text) (d : Delivery) (xs : List Delivery)
    → find (owned_processing id service) xs ≡ some d
    → mem id (map (λ (r : Delivery). r.id) xs) ≡ true
found-mem id service d [] h = cc
found-mem id service d (x ∷ xs) h =
    ground (arith, ==_iff id x.id, ==_iff x.id id, found-mem id service d xs)

absent-owned :
    (id : ℕ) (service : Text) (d : Delivery) (xs : List Delivery)
    → mem id (map (λ (r : Delivery). r.id) xs) ≡ false
    → All (λ r. owned id service r ≡ true → r ≡ d) xs
absent-owned id service d [] h = tt
absent-owned id service d (x ∷ xs) h = (
  (λ o. ground (arith, ==_iff id x.id, ==_iff x.id id)),
  absent-owned id service d xs (ground arith),
)

-- The only row with the id is the one that the query found.
owned-found :
    (id : ℕ) (service : Text) (d : Delivery) (xs : List Delivery)
    → KeyedById (λ (r : Delivery). r.available_at) (λ r. r.id) xs
    → find (owned_processing id service) xs ≡ some d
    → All (λ r. owned id service r ≡ true → r ≡ d) xs
owned-found id service d [] k h = tt
owned-found id service d (x ∷ xs) k h = elim (Bool-cases (owned_processing id service x)) [
  | inl hit ↦
      let found : x ≡ d = ground arith in
      let same : x.id ≡ id = ground (arith, ==_iff x.id id) in
      ((λ _. found), absent-owned id service d xs (rw same at k.0))
  | inr miss ↦
      let later = (rw miss at h) in
      (
        (λ o. ground (
          arith,
          ==_iff x.id id,
          k.0,
          found-mem id service d xs later,
          ap (λ n. mem n (map (λ (r : Delivery). r.id) xs)) ((==_iff x.id id).0 (ground arith)),
        )),
        owned-found id service d xs k.1 later,
      )
]

All-same :
    (P : Delivery → Delivery → Type 0) (xs : List Delivery) (q : Delivery → Bool)
    (f : Delivery → Delivery) (d : Delivery)
    → P d (f d)
    → All (λ r. q r ≡ true → r ≡ d) xs
    → All (λ r. q r ≡ true → P r (f r)) xs
All-same P [] q f d step h = tt
All-same P (x ∷ xs) q f d step h = ((λ m. rw (h.0 m) step), All-same P xs q f d step h.1)

found-owned :
    (id : ℕ) (service : Text) (d : Delivery) (xs : List Delivery)
    → find (owned_processing id service) xs ≡ some d
    → owned_processing id service d ≡ true
found-owned id service d [] h = cc
found-owned id service d (x ∷ xs) h = ground (arith, found-owned id service d xs)

fail_found-ActionStep :
    (now : ℕ) (service : Text) (id : ℕ) (message : Text) (seconds : ℤ) (o : Option Delivery)
    (b b' : Bus) (st : DeliveryStatus)
    → DeliveriesKeyed b
    → find (owned_processing id service) b.deliveries ≡ o
    → fail_found now service id message seconds o b ≡ ok (st, b')
    → Pointwise (ActionStep service now id) b.deliveries b'.deliveries
fail_found-ActionStep now service id message seconds none b b' st keyed f h = cc
fail_found-ActionStep now service id message seconds (some d) b b' st keyed f h =
    let write = fail_delivery now (fail_status d.attempts d.max_attempts) message seconds in
    let table : update_where (owned id service) write b.deliveries ≡ b'.deliveries = ground arith in
    let mine = found-owned id service d b.deliveries f in
    rw (← table) (
      update_where-Pointwise_cases (ActionStep service now id) (owned id service) write b.deliveries
        (All-same (ActionStep service now id) b.deliveries (owned id service) write d
          (fail-ActionStep service now id message seconds d mine)
          (owned-found id service d b.deliveries keyed f))
        (unowned-ActionStep service now id))

ack_action-ActionStep :
    (now : ℕ) (service : Text) (id : ℕ) (b b' : Bus) (st : DeliveryStatus)
    → ack_action now service id b ≡ ok (st, b')
    → Pointwise (ActionStep service now id) b.deliveries b'.deliveries
unfolding ack_action
ack_action-ActionStep now service id b b' st h =
    let table : update_where (owned_processing id service) (ack_delivery now) b.deliveries
        ≡ b'.deliveries =
      ground arith in
    rw (← table) (
      update_where-Pointwise_cases (ActionStep service now id) (owned_processing id service)
        (ack_delivery now) b.deliveries
        (All-every _ b.deliveries (λ r. ack-ActionStep service now id r))
        (unnamed-ActionStep service now id))

-- An accepted action on the delivery `id` leaves every row but the one that has that id, belongs to the caller and
-- is being processed as it was, provided the rows have distinct identifiers; that row it acknowledges, gives up
-- if its attempts are used up, or returns to the queue. None is added or dropped.
pub delivery_action-ActionStep :
    (now : ℕ) (service : Text) (id : ℕ) (action : Action) (b b' : Bus) (st : DeliveryStatus)
    → DeliveriesKeyed b
    → delivery_action now true (some service) (some id) action b ≡ ok (st, b')
    → Pointwise (ActionStep service now id) b.deliveries b'.deliveries
unfolding delivery_action
delivery_action-ActionStep now service id ack b b' st keyed h =
    ack_action-ActionStep now service id b b' st h
delivery_action-ActionStep now service id (fail none) b b' st keyed h = cc
delivery_action-ActionStep now service id (fail (some (message, seconds))) b b' st keyed h =
    fail_found-ActionStep now service id message seconds
      (find (owned_processing id service) b.deliveries) b b' st keyed refl h
delivery_action-ActionStep now service id other b b' st keyed h = cc

unexpired :
    (service : Text) (now later : ℕ) (r : Delivery)
    → later ≤ now + 60 * second
    → claimable service later (lease_delivery now r) ≡ false
unexpired service now later r h = ground arith

-- A claim of any consumer that comes directly after another, before the lease of one minute has run out, returns
-- none of the deliveries that the first one returned.
pub claim_exclusive :
    (now later : ℕ) (service rival : Text) (limit limit' : ℤ) (b b' b'' : Bus)
    (got got' : List Delivery) (k : ℕ)
    → later ≤ now + 60 * second
    → claim now true (some service) (some limit) b ≡ ok (got, b')
    → claim later true (some rival) (some limit') b' ≡ ok (got', b'')
    → mem k (map (λ (r : Delivery). r.id) got) ≡ true
    → mem k (map (λ (r : Delivery). r.id) got') ≡ false
claim_exclusive now later service rival limit limit' b b' b'' got got' k soon h h' m =
    let (rows, table) = claim-eq-ok now service limit b b' got h in
    let (rows', _) = claim-eq-ok later rival limit' b' b'' got' h' in
    let p = claimable service now in
    let p' = claimable rival later in
    let first =
      returned-mem (λ (r : Delivery). r.available_at) (λ r. r.id) k p (claim_limit limit)
        (lease_delivery now) b.deliveries (λ r. refl) (rw (← rows) at m) in
    let apart =
      picked_disjoint (λ (r : Delivery). r.available_at) (λ r. r.id) k p p' (claim_limit limit)
        (claim_limit limit') (lease_delivery now) b.deliveries
        (λ r. unexpired rival now later r soon) first in
    elim (Bool-cases (mem k (map (λ (r : Delivery). r.id) got'))) [
      | inl again ↦
          let second_pick =
            returned-mem (λ (r : Delivery). r.available_at) (λ r. r.id) k p' (claim_limit limit')
              (lease_delivery later) b'.deliveries (λ r. refl) (rw (← rows') at again) in
          cc (second_pick, rw table at apart)
      | inr free ↦ free
    ]
