-- ===== src/Automation/Outbox.antt =====
-- services/internal/automation/outbox.go: the outbox that a service fills in the transaction of its own
-- change, and that a publisher drains. Times and durations are in nanoseconds; a zero time is `none`.
pub mod Laws
pub mod Steps
mod Tests
use himate_system.Base.{
  ℕ, ◌+◌, ◌*◌, ◌/◌, ◌==◌, Bool, true, false, ◌&&◌, ◌||◌, Option, none, some, List, [], ◌∷◌, ◌++◌,
  ltb, leb, if◌then◌else◌, ℤ, pos, negsuc, pos_part, leb_ℤ, ltb_ℤ, count, find, update_where,
  Result, ok, err, ◌>>=◌, ◌>>◌, reject_if, Text, is_empty, text_eq, trim_space,
}
use himate_system.Automation.Picking.{update_picked, returned}

abbrev pub second : ℕ
second = 1_000_000_000

abbrev pub millisecond : ℕ
millisecond = 1_000_000

-- `map[string]any` with the texts that are enqueued here.
abbrev pub Payload : Type 0
Payload = List (Text × Text)

pub record OutboxEvent : Type 0 where
  pub producer_service : Text
  pub event_key : Text
  pub event_type : Text
  pub event_version : ℤ
  pub partner_id : Text
  pub module_key : Text
  pub correlation_id : Text
  pub causation_id : Text
  pub subject_type : Text
  pub subject_id : Text
  pub payload : Payload
  pub occurred_at : Option ℕ
  pub available_at : Option ℕ

pub data OutboxStatus : Type 0 where
  pending processing published : OutboxStatus

-- A row of `automation_outbox.events`.
pub record OutboxRow : Type 0 where
  pub id : ℕ
  pub producer_service : Text
  pub event_key : Text
  pub event_type : Text
  pub event_version : ℤ
  pub partner_id : Text
  pub module_key : Text
  pub correlation_id : Text
  pub causation_id : Text
  pub subject_type : Text
  pub subject_id : Text
  pub payload : Payload
  pub occurred_at : ℕ
  pub available_at : ℕ
  pub status : OutboxStatus
  pub attempts : ℕ
  pub lease_until : Option ℕ
  pub last_error : Text
  pub published_at : Option ℕ

-- The table and the next value of its serial.
pub record Outbox : Type 0 where
  pub next_id : ℕ
  pub rows : List OutboxRow

pub data OutboxError : Type 0 where
  event_identity_required producer_required not_processing : OutboxError

abbrev pub has_key : Text → Text → OutboxRow → Bool
has_key producer key r = text_eq r.producer_service producer && text_eq r.event_key key

abbrev pub or_time : Option ℕ → ℕ → ℕ
or_time none t = t
or_time (some x) t = x

-- The row that `INSERT` writes, with the defaults of the struct's zero values.
abbrev pub row_of : ℕ → ℕ → OutboxEvent → OutboxRow
row_of id now e = record {
  id = id;
  producer_service = trim_space e.producer_service;
  event_key = trim_space e.event_key;
  event_type = trim_space e.event_type;
  event_version = if leb_ℤ e.event_version (pos 0) then pos 1 else e.event_version;
  partner_id = trim_space e.partner_id;
  module_key = trim_space e.module_key;
  correlation_id = trim_space e.correlation_id;
  causation_id = trim_space e.causation_id;
  subject_type = trim_space e.subject_type;
  subject_id = trim_space e.subject_id;
  payload = e.payload;
  occurred_at = or_time e.occurred_at now;
  available_at = or_time e.available_at (or_time e.occurred_at now);
  status = pending;
  attempts = 0;
  lease_until = none;
  last_error = [];
  published_at = none;
}

-- `INSERT ... ON CONFLICT(producer_service,event_key) DO NOTHING`, by the row that has the key.
abbrev pub insert_unless : Option OutboxRow → OutboxRow → Outbox → Outbox
insert_unless (some _) r o = o
insert_unless none r o = record { next_id = o.next_id + 1; rows = o.rows ++ (r ∷ []) }

unfoldable pub insert_new : OutboxRow → Outbox → Outbox
insert_new r o = insert_unless (find (has_key r.producer_service r.event_key) o.rows) r o

unfoldable pub enqueue_tx : ℕ → OutboxEvent → Outbox → Result OutboxError Outbox
enqueue_tx now e o = do
  let r = row_of o.next_id now e
  reject_if (is_empty r.producer_service || is_empty r.event_key || is_empty r.event_type)
      event_identity_required
  ok (insert_new r o)

abbrev pub is_pending : OutboxStatus → Bool
is_pending pending = true
is_pending _ = false

abbrev pub is_processing : OutboxStatus → Bool
is_processing processing = true
is_processing _ = false

-- `lease_until<NOW()`, which is not true of NULL.
abbrev pub expired : ℕ → Option ℕ → Bool
expired now none = false
expired now (some t) = ltb t now

abbrev pub claimable : Text → ℕ → OutboxRow → Bool
claimable producer now r =
    text_eq r.producer_service producer
    && leb r.available_at now
    && (is_pending r.status || (is_processing r.status && expired now r.lease_until))

-- The bounds on the number of rows and the default of the lease.
abbrev pub claim_limit : ℤ → ℕ
claim_limit limit =
    let n = (if leb_ℤ limit (pos 0) then 20 else pos_part limit) in if ltb 200 n then 200 else n

abbrev pub claim_lease : ℤ → ℕ
claim_lease lease = if leb_ℤ lease (pos 0) then 60 * second else pos_part lease

abbrev pub leased : ℕ → ℕ → OutboxRow → OutboxRow
leased now lease r = record r {
  status = processing;
  attempts = r.attempts + 1;
  lease_until = some (now + lease / millisecond * millisecond);
}

unfoldable pub claim_outbox :
    ℕ → Text → ℤ → ℤ → Outbox → Result OutboxError (List OutboxRow × Outbox)
claim_outbox now raw_producer limit lease o = do
  let producer = trim_space raw_producer
  reject_if (is_empty producer) producer_required
  let p = claimable producer now
  let f = leased now (claim_lease lease)
  ok (
    returned (λ r. r.available_at) (λ r. r.id) p (claim_limit limit) f o.rows,
    record o {
      rows = update_picked (λ r. r.available_at) (λ r. r.id) p (claim_limit limit) f o.rows;
    },
  )

abbrev pub in_process : ℕ → OutboxRow → Bool
in_process id r = r.id == id && is_processing r.status

abbrev pub publish : ℕ → OutboxRow → OutboxRow
publish now r = record r {
  status = published;
  published_at = some now;
  lease_until = none;
  last_error = [];
}

unfoldable pub mark_outbox_published : ℕ → ℕ → Outbox → Result OutboxError (Unit {0}) × Outbox
mark_outbox_published now id o = (
  if count (in_process id) o.rows == 1 then ok tt else err not_processing,
  record o { rows = update_where (in_process id) (publish now) o.rows },
)

-- `if retryAfter<5*time.Second{retryAfter=5*time.Second}`
abbrev pub retry_after : ℤ → ℕ
retry_after d = if ltb_ℤ d (pos (5 * second)) then 5 * second else pos_part d

abbrev pub returned_to_queue : ℕ → Text → ℤ → OutboxRow → OutboxRow
returned_to_queue now message after r = record r {
  status = pending;
  lease_until = none;
  last_error = trim_space message;
  available_at = now + retry_after after / millisecond * millisecond;
}

unfoldable pub fail_outbox : ℕ → ℕ → Text → ℤ → Outbox → Outbox
fail_outbox now id message after o = record o {
  rows = update_where (in_process id) (returned_to_queue now message after) o.rows;
}
