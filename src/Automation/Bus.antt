-- ===== src/Automation/Bus.antt =====
-- services/cmd/automation/main.go: the event bus, its tables and its handlers for subscriptions and
-- events. A handler gets the method test, the verified caller and the decoded body.
pub mod Deliveries
pub mod Replay
pub mod FanOut
pub mod Steps
mod Tests
use himate_system.Base.{
  ℕ, ◌+◌, ◌-◌, ◌%◌, max, ◌==◌, Bool, true, false, not, ◌&&◌, ◌||◌, Option, none, some, List, [],
  ◌∷◌, ◌++◌, ltb, leb, if◌then◌else◌, length, find, ℤ, pos, negsuc, pos_part, leb_ℤ, ltb_ℤ, Result,
  ok, err, ◌>>=◌, ◌>>◌, reject_if, Text, is_empty, byte_len, text_eq, trim_space,
}
use himate_system.Automation.Outbox.{Payload, or_time}

pub record Subscription : Type 0 where
  pub consumer_service : Text
  pub event_type : Text
  pub partner_id : Text
  pub module_key : Text
  pub active : Bool
  pub max_attempts : ℕ

-- What `hashEnvelope` is applied to.
pub record Envelope : Type 0 where
  pub event_key : Text
  pub event_type : Text
  pub event_version : ℤ
  pub producer_service : Text
  pub partner_id : Text
  pub module_key : Text
  pub correlation_id : Text
  pub causation_id : Text
  pub subject_type : Text
  pub subject_id : Text
  pub payload : Payload
  pub occurred_at : ℕ
  pub available_at : ℕ

-- A row of `automation.events`: the envelope, its hash and its id.
pub record BusEvent : Type 0 where
  pub id : ℕ
  pub envelope : Envelope
  pub envelope_hash : Text

pub data DeliveryStatus : Type 0 where
  pending processing acked dead_letter : DeliveryStatus

pub record Delivery : Type 0 where
  pub id : ℕ
  pub event_id : ℕ
  pub consumer_service : Text
  pub status : DeliveryStatus
  pub attempts : ℕ
  pub max_attempts : ℕ
  pub available_at : ℕ
  pub lease_until : Option ℕ
  pub last_error : Text
  pub acked_at : Option ℕ

pub record Bus : Type 0 where
  pub subscriptions : List Subscription
  pub events : List BusEvent
  pub next_event_id : ℕ
  pub deliveries : List Delivery
  pub next_delivery_id : ℕ

pub data BusError : Type 0 where
  method_not_allowed service_identity bad_json validation event_key_conflict : BusError
  delivery_state not_found : BusError

abbrev pub is_letter : ℕ → Bool
is_letter c = (leb b'A' c && leb c b'Z') || (leb b'a' c && leb c b'z')

abbrev pub is_type_rune : ℕ → Bool
is_type_rune c =
    is_letter c || (leb b'0' c && leb c b'9') || c == b'_' || c == b'.' || c == b':' || c == b'-'

abbrev pub all_type_runes : Text → Bool
all_type_runes [] = true
all_type_runes (c ∷ s) = is_type_rune c && all_type_runes s

-- `^[A-Za-z][A-Za-z0-9_.:-]{2,159}$`
unfoldable pub matches_event_type : Text → Bool
matches_event_type [] = false
matches_event_type (c ∷ s) =
    is_letter c && leb 2 (length s) && leb (length s) 159 && all_type_runes s

-- dbTimestamp: truncation to microseconds.
unfoldable pub db_timestamp : ℕ → ℕ
db_timestamp t = t - t % 1000

pub record SubscriptionInput : Type 0 where
  pub event_types : List Text
  pub partner_id : Text
  pub module_key : Text
  pub max_attempts : ℤ

abbrev pub same_subscription : Subscription → Subscription → Bool
same_subscription s t =
    text_eq t.consumer_service s.consumer_service
    && text_eq t.event_type s.event_type
    && text_eq t.partner_id s.partner_id
    && text_eq t.module_key s.module_key

-- `INSERT ... ON CONFLICT DO UPDATE SET active=TRUE,max_attempts=EXCLUDED.max_attempts`
unfoldable pub upsert_subscription : Subscription → List Subscription → List Subscription
upsert_subscription s [] = s ∷ []
upsert_subscription s (t ∷ rest) =
    if same_subscription s t
    then record t { active = true; max_attempts = s.max_attempts } ∷ rest
    else t ∷ upsert_subscription s rest

abbrev pub contains : Text → List Text → Bool
contains x [] = false
contains x (y ∷ ys) = text_eq x y || contains x ys

-- The loop over the event types, inside one transaction.
unfoldable pub register_types :
    Text
    → SubscriptionInput
    → ℕ
    → List Text
    → List Text
    → List Subscription
    → Result BusError (List Subscription)
register_types service input attempts seen [] subs = ok subs
register_types service input attempts seen (raw ∷ rest) subs =
    let event_type = trim_space raw in
    let s : Subscription = record {
      consumer_service = service;
      event_type = event_type;
      partner_id = trim_space input.partner_id;
      module_key = trim_space input.module_key;
      active = true;
      max_attempts = attempts;
    } in
    reject_if (not (matches_event_type event_type) || contains event_type seen) validation
    >> register_types service input attempts (event_type ∷ seen) rest (upsert_subscription s subs)

abbrev pub is_zero_attempts : ℤ → Bool
is_zero_attempts n = leb_ℤ n (pos 0) && leb_ℤ (pos 0) n

unfoldable pub subscribe : Bool → Option Text → Option SubscriptionInput → Bus → Result BusError Bus
subscribe false caller body b = err method_not_allowed
subscribe true none body b = err service_identity
subscribe true (some service) none b = err validation
subscribe true (some service) (some input) b = do
  reject_if (length input.event_types == 0) validation
  let attempts = (if is_zero_attempts input.max_attempts then pos 8 else input.max_attempts)
  reject_if (ltb_ℤ attempts (pos 1) || ltb_ℤ (pos 50) attempts) validation
  subs ← register_types service input (pos_part attempts) [] input.event_types b.subscriptions
  ok (record b { subscriptions = subs })

pub record EventInput : Type 0 where
  pub event_key : Text
  pub event_type : Text
  pub event_version : ℤ
  pub partner_id : Text
  pub module_key : Text
  pub correlation_id : Text
  pub causation_id : Text
  pub subject_type : Text
  pub subject_id : Text
  pub payload : Payload
  pub occurred_at : Option ℕ
  pub available_at : Option ℕ
  pub correlation_header : Text
  pub causation_header : Text

abbrev pub or_header : Text → Text → Text
or_header given header = if is_empty (trim_space given) then trim_space header else trim_space given

abbrev pub db_time : Option ℕ → ℕ → ℕ
db_time none t = t
db_time (some x) t = db_timestamp x

-- The normalised envelope; the times are passed, since a replay replaces them.
abbrev pub normalized : Text → EventInput → ℕ → ℕ → Envelope
normalized service input occurred available = record {
  event_key = trim_space input.event_key;
  event_type = trim_space input.event_type;
  event_version = if is_zero_attempts input.event_version then pos 1 else input.event_version;
  producer_service = service;
  partner_id = trim_space input.partner_id;
  module_key = trim_space input.module_key;
  correlation_id = or_header input.correlation_id input.correlation_header;
  causation_id = or_header input.causation_id input.causation_header;
  subject_type = trim_space input.subject_type;
  subject_id = trim_space input.subject_id;
  payload = input.payload;
  occurred_at = occurred;
  available_at = available;
}

abbrev pub has_event_key : Text → Text → BusEvent → Bool
has_event_key service key e =
    text_eq e.envelope.producer_service service && text_eq e.envelope.event_key key

-- The subscriptions that the fan-out reads.
abbrev pub matching : Envelope → Subscription → Bool
matching e s =
    s.active
    && text_eq s.event_type e.event_type
    && (is_empty s.partner_id || text_eq s.partner_id e.partner_id)
    && (is_empty s.module_key || text_eq s.module_key e.module_key)

-- `GROUP BY s.consumer_service` with `MAX(s.max_attempts)`.
unfoldable pub add_consumer : Text → ℕ → List (Text × ℕ) → List (Text × ℕ)
add_consumer c n [] = (c, n) ∷ []
add_consumer c n ((d, m) ∷ rest) =
    if text_eq d c then (d, max m n) ∷ rest else (d, m) ∷ add_consumer c n rest

unfoldable pub consumers : Envelope → List Subscription → List (Text × ℕ)
consumers e [] = []
consumers e (s ∷ rest) =
    let others = consumers e rest in
    if matching e s then add_consumer s.consumer_service s.max_attempts others else others

-- `INSERT INTO automation.deliveries ... SELECT`; the event is new, so no row conflicts.
unfoldable pub new_deliveries : ℕ → ℕ → ℕ → List (Text × ℕ) → List Delivery
new_deliveries event_id available next [] = []
new_deliveries event_id available next ((c, n) ∷ rest) =
    record {
      id = next;
      event_id = event_id;
      consumer_service = c;
      status = pending;
      attempts = 0;
      max_attempts = n;
      available_at = available;
      lease_until = none;
      last_error = [];
      acked_at = none;
    }
    ∷ new_deliveries event_id available (next + 1) rest

pub record Published : Type 0 where
  pub id : ℕ
  pub duplicate : Bool
  pub available_at : ℕ

-- `hash` stands for the SHA-256 of the envelope's JSON.
module _ (hash : Envelope → Text) where
  unfoldable pub store_event : Envelope → Bus → Published × Bus
  store_event e b =
      let fan = consumers e b.subscriptions in
      (
        record { id = b.next_event_id; duplicate = false; available_at = e.available_at },
        record b {
          events =
              b.events
              ++ (record { id = b.next_event_id; envelope = e; envelope_hash = hash e } ∷ []);
          next_event_id = b.next_event_id + 1;
          deliveries =
              b.deliveries ++ new_deliveries b.next_event_id e.available_at b.next_delivery_id fan;
          next_delivery_id = b.next_delivery_id + length fan;
        },
      )

  -- stableReplayTimes, and the comparison of the hashes.
  unfoldable pub replay_event :
      Text → EventInput → BusEvent → Bus → Result BusError (Published × Bus)
  replay_event service input old b = do
    let occurred = db_timestamp (db_time input.occurred_at old.envelope.occurred_at)
    let available = db_timestamp (db_time input.available_at old.envelope.available_at)
    reject_if (not (text_eq old.envelope_hash (hash (normalized service input occurred available))))
        event_key_conflict
    ok (record { id = old.id; duplicate = true; available_at = available }, b)

  abbrev pub store_or_replay :
      Option BusEvent → Text → EventInput → Envelope → Bus → Result BusError (Published × Bus)
  store_or_replay none service input e b = ok (store_event e b)
  store_or_replay (some old) service input e b = replay_event service input old b

  unfoldable pub publish_event :
      ℕ → Bool → Option Text → Option EventInput → Bus → Result BusError (Published × Bus)
  publish_event now false caller body b = err method_not_allowed
  publish_event now true none body b = err service_identity
  publish_event now true (some service) none b = err bad_json
  publish_event now true (some service) (some input) b = do
    let key = trim_space input.event_key
    reject_if
        (is_empty key
          || ltb 200 (byte_len key)
          || not (matches_event_type (trim_space input.event_type)))
        validation
    reject_if (ltb_ℤ input.event_version (pos 0)) validation
    let occurred = db_time input.occurred_at (db_timestamp now)
    let available = db_time input.available_at occurred
    store_or_replay (find (has_event_key service key) b.events) service input
        (normalized service input occurred available) b
