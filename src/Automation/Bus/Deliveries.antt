-- ===== src/Automation/Bus/Deliveries.antt =====
-- services/cmd/automation/main.go: claiming deliveries, acknowledging them and failing them.
use himate_system.Base.{
  ℕ, ◌+◌, ◌*◌, ◌==◌, Bool, true, false, ◌&&◌, ◌||◌, Option, none, some, List, [], ltb, leb,
  if◌then◌else◌, count, find, update_where, ℤ, pos, pos_part, leb_ℤ, ltb_ℤ, Result, ok, err, ◌>>◌,
  reject_if, Text, text_eq, trim_space,
}
use himate_system.Automation.Picking.{update_picked, returned}
use himate_system.Automation.Outbox.{second, expired}
use himate_system.Automation.Bus.{
  Bus, BusError, method_not_allowed, service_identity, bad_json, validation, delivery_state,
  not_found, Delivery, DeliveryStatus, pending, processing, acked, dead_letter,
}

abbrev pub is_pending : DeliveryStatus → Bool
is_pending pending = true
is_pending _ = false

abbrev pub is_processing : DeliveryStatus → Bool
is_processing processing = true
is_processing _ = false

abbrev pub is_dead : DeliveryStatus → Bool
is_dead dead_letter = true
is_dead _ = false

abbrev pub claimable : Text → ℕ → Delivery → Bool
claimable service now d =
    text_eq d.consumer_service service
    && leb d.available_at now
    && (is_pending d.status || (is_processing d.status && expired now d.lease_until))

abbrev pub claim_limit : ℤ → ℕ
claim_limit limit =
    let n = (if leb_ℤ limit (pos 0) then 10 else pos_part limit) in if ltb 100 n then 100 else n

abbrev pub lease_delivery : ℕ → Delivery → Delivery
lease_delivery now d = record d {
  status = processing;
  attempts = d.attempts + 1;
  lease_until = some (now + 60 * second);
}

-- The body may be empty, which leaves the limit zero.
unfoldable pub claim :
    ℕ → Bool → Option Text → Option ℤ → Bus → Result BusError (List Delivery × Bus)
claim now false caller limit b = err method_not_allowed
claim now true none limit b = err service_identity
claim now true (some service) none b = err bad_json
claim now true (some service) (some limit) b =
    let p = claimable service now in
    ok (
      returned (λ d. d.available_at) (λ d. d.id) p (claim_limit limit) (lease_delivery now)
          b.deliveries,
      record b {
        deliveries =
            update_picked (λ d. d.available_at) (λ d. d.id) p (claim_limit limit)
              (lease_delivery now) b.deliveries;
      },
    )

-- `WHERE id=$1 AND consumer_service=$2`
abbrev pub owned : ℕ → Text → Delivery → Bool
owned id service d = d.id == id && text_eq d.consumer_service service

abbrev pub owned_processing : ℕ → Text → Delivery → Bool
owned_processing id service d = owned id service d && is_processing d.status

abbrev pub ack_delivery : ℕ → Delivery → Delivery
ack_delivery now d = record d {
  status = acked;
  acked_at = some now;
  lease_until = none;
  last_error = [];
}

abbrev pub retry_seconds : ℤ → ℕ
retry_seconds n = if ltb_ℤ n (pos 5) then 5 else if ltb_ℤ (pos 86400) n then 86400 else pos_part n

abbrev pub fail_status : ℕ → ℕ → DeliveryStatus
fail_status attempts max_attempts = if leb max_attempts attempts then dead_letter else pending

abbrev pub fail_delivery : ℕ → DeliveryStatus → Text → ℤ → Delivery → Delivery
fail_delivery now status message seconds d = record d {
  status = status;
  last_error = trim_space message;
  lease_until = none;
  available_at = if is_pending status then now + retry_seconds seconds * second else d.available_at;
}

pub data Action : Type 0 where
  ack : Action
  fail : Option (Text × ℤ) → Action
  other : Action

unfoldable pub ack_action : ℕ → Text → ℕ → Bus → Result BusError (DeliveryStatus × Bus)
ack_action now service id b = do
  reject_if (count (owned_processing id service) b.deliveries == 0) delivery_state
  ok (
    acked,
    record b {
      deliveries = update_where (owned_processing id service) (ack_delivery now) b.deliveries;
    },
  )

-- The second statement repeats the owner but not the status.
abbrev pub fail_found :
    ℕ → Text → ℕ → Text → ℤ → Option Delivery → Bus → Result BusError (DeliveryStatus × Bus)
fail_found now service id message seconds none b = err delivery_state
fail_found now service id message seconds (some d) b =
    let status = fail_status d.attempts d.max_attempts in
    ok (
      status,
      record b {
        deliveries =
            update_where (owned id service) (fail_delivery now status message seconds) b.deliveries;
      },
    )

-- `id` is none where the path holds no number; the action is that of the path's last part.
unfoldable pub delivery_action :
    ℕ → Bool → Option Text → Option ℕ → Action → Bus → Result BusError (DeliveryStatus × Bus)
delivery_action now false caller id action b = err method_not_allowed
delivery_action now true none id action b = err service_identity
delivery_action now true (some service) none action b = err validation
delivery_action now true (some service) (some id) ack b = ack_action now service id b
delivery_action now true (some service) (some id) (fail none) b = err bad_json
delivery_action now true (some service) (some id) (fail (some (message, seconds))) b =
    fail_found now service id message seconds (find (owned_processing id service) b.deliveries) b
delivery_action now true (some service) (some id) other b = err not_found
