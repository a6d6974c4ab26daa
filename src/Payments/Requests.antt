-- ===== src/Payments/Requests.antt =====
-- services/cmd/payments/main.go: ensureProfile, the update of a profile, createCharge and what they use.
use himate_system.Base.{
  ℕ, ◌==◌, Bool, true, false, not, ◌&&◌, ◌||◌, Option, none, some, List, [], ◌∷◌, ◌++◌,
  if◌then◌else◌, find, count, update_where, Result, ok, err, ◌>>◌, reject_if, Text, codes, is_empty,
  byte_len, text_eq, Unicode, to_upper, to_lower, trim_space,
}
use himate_system.Automation.Picking.{take}
use himate_system.Payments.{
  Attempt, AttemptStatus, Charge, ChargeRequest, Money, PaymentError, PaymentProfile, PaymentStore,
  ProfileInput, ProfileStatus, Purpose, activation_license, attempt_not_found, autopay_disabled,
  bad_json, database, failed, invoice, method_not_allowed, payment_method_required, pending,
  processing, profile_not_ready, provider_failed, provider_unconfigured, ready, requires_action,
  retryable, unconfigured, validation,
}

abbrev pub is_ready : ProfileStatus → Bool
is_ready unconfigured = false
is_ready ready = true

abbrev pub is_retryable : AttemptStatus → Bool
is_retryable retryable = true
is_retryable _ = false

abbrev pub is_invoice : Purpose → Bool
is_invoice invoice = true
is_invoice activation_license = false

abbrev pub of_partner : Text → PaymentProfile → Bool
of_partner id p = text_eq p.partner_id id

abbrev pub has_id : {m : Money} → Text → Attempt m → Bool
has_id id a = text_eq a.id id

abbrev pub has_key : {m : Money} → Text → Attempt m → Bool
has_key key a = text_eq a.idempotency_key key

abbrev pub new_profile : Text → Text → PaymentProfile
new_profile provider partner_id = record {
  partner_id = partner_id;
  provider = provider;
  provider_customer_id = [];
  payment_method_id = [];
  autopay_enabled = false;
  status = unconfigured;
}

abbrev pub trimmed_or : Option Text → Text → Text
trimmed_or none old = old
trimmed_or (some t) old = trim_space t

abbrev pub or_flag : Option Bool → Bool → Bool
or_flag none old = old
or_flag (some b) old = b

-- `strings.TrimPrefix(id,"pay_")`
abbrev pub without_prefix : Text → Text
without_prefix (a ∷ b ∷ c ∷ d ∷ rest) =
    if a == b'p' && b == b'a' && c == b'y' && d == b'_' then rest else a ∷ b ∷ c ∷ d ∷ rest
without_prefix short = short

-- trimError
abbrev pub trim_error : List ℕ → List ℕ
trim_error message = take 500 message

abbrev pub changed_profile : Text → ProfileInput → PaymentProfile → PaymentProfile
changed_profile provider input p =
    let customer = trimmed_or input.provider_customer_id p.provider_customer_id in
    let method = trimmed_or input.payment_method_id p.payment_method_id in
    record p {
      provider = provider;
      provider_customer_id = customer;
      payment_method_id = method;
      autopay_enabled = or_flag input.autopay_enabled p.autopay_enabled;
      status = if not (is_empty customer) && not (is_empty method) then ready else unconfigured;
    }

abbrev pub read_purpose : ⦃u : Unicode⦄ → Text → Option Purpose
read_purpose raw =
    let p = to_upper (trim_space raw) in
    if text_eq p (codes "ACTIVATION_LICENSE")
    then some activation_license
    else if text_eq p (codes "INVOICE")
    then some invoice
    else none

-- The status that a provider's status stands for.
unfoldable pub status_of : ⦃u : Unicode⦄ → Text → AttemptStatus
status_of raw =
    let st = to_lower raw in
    if text_eq st (codes "requires_action")
      || text_eq st (codes "requires_payment_method")
      || text_eq st (codes "requires_confirmation")
    then requires_action
    else if text_eq st (codes "canceled")
    then failed
    else processing

-- `sha10` gives the hex text of the first ten bytes of the hash.
unfoldable pub attempt_id : (Text → Text) → Text → Text
attempt_id sha10 key = codes "pay_" ++ sha10 key

module _ {m : Money} where
  -- `INSERT ... ON CONFLICT DO NOTHING`, and the row that is then there.
  abbrev pub profile_found :
      Option PaymentProfile → Text → Text → PaymentStore m → PaymentProfile × PaymentStore m
  profile_found (some p) provider partner_id s = (p, s)
  profile_found none provider partner_id s = (
    new_profile provider partner_id,
    record s { profiles = s.profiles ++ (new_profile provider partner_id ∷ []) },
  )

  unfoldable pub ensure_profile : Text → Text → PaymentStore m → PaymentProfile × PaymentStore m
  ensure_profile provider partner_id s =
      profile_found (find (of_partner partner_id) s.profiles) provider partner_id s

  -- The `PUT` of a profile. The profile that is read first stays, whatever the tests say.
  unfoldable pub update_profile :
      Text
      → Text
      → Option ProfileInput
      → PaymentStore m
      → Result PaymentError PaymentProfile × PaymentStore m
  update_profile provider partner_id none s = (err bad_json, s)
  update_profile provider partner_id (some input) s =
      let (p, s1) = ensure_profile provider partner_id s in
      let q = changed_profile provider input p in
      if q.autopay_enabled && not (is_ready q.status) then (err payment_method_required, s1) else (
        ok q,
        record s1 { profiles = update_where (of_partner partner_id) (λ _. q) s1.profiles },
      )

  module _ ⦃u : Unicode⦄ where
    abbrev pub with_purpose : ChargeRequest m → Option Purpose → Result PaymentError (Charge m)
    with_purpose r none = err validation
    with_purpose r (some p) =
        if is_invoice p && is_empty (trim_space r.invoice_id)
        then err validation
        else ok (record {
          partner_id = trim_space r.partner_id;
          invoice_id = trim_space r.invoice_id;
          purpose = p;
          amount = r.amount;
          currency = to_upper (trim_space r.currency);
          idempotency_key = trim_space r.idempotency_key;
        })

    unfoldable pub validate_charge : ChargeRequest m → Result PaymentError (Charge m)
    validate_charge r = do
      reject_if
          (is_empty (trim_space r.partner_id)
            || is_empty (trim_space r.idempotency_key)
            || not (m.is_positive r.amount)
            || not (byte_len (to_upper (trim_space r.currency)) == 3))
          validation
      with_purpose r (read_purpose r.purpose)

  abbrev pub new_attempt : Text → Text → Charge m → Attempt m
  new_attempt provider id c = record {
    id = id;
    partner_id = c.partner_id;
    invoice_id = c.invoice_id;
    purpose = c.purpose;
    amount = m.round_cents c.amount;
    currency = c.currency;
    provider = provider;
    provider_payment_id = [];
    status = pending;
    failure_code = [];
    failure_message = [];
    idempotency_key = c.idempotency_key;
  }

  -- The attempt that the provider is asked for: the one to retry, or a new row. The key has been looked
  -- up, so the insertion fails only on the identifier.
  abbrev pub begin_attempt :
      Option (Attempt m)
      → Text
      → Text
      → Charge m
      → PaymentStore m
      → Result PaymentError (Text × PaymentStore m)
  begin_attempt (some x) provider id c s = ok (x.id, s)
  begin_attempt none provider id c s =
      if not (count (has_id id) s.attempts == 0)
      then err database
      else ok (id, record s { attempts = s.attempts ++ (new_attempt provider id c ∷ []) })

  abbrev pub begun :
      PaymentProfile
      → PaymentStore m
      → Result PaymentError (Text × PaymentStore m)
      → Result PaymentError (Text × PaymentProfile) × PaymentStore m
  begun p s1 (err e) = (err e, s1)
  begun p s1 (ok (id, s2)) = (ok (id, p), s2)

  -- Up to the call of the provider.
  abbrev pub prepare_charge :
      Option (Attempt m)
      → Text
      → Text
      → Charge m
      → PaymentStore m
      → Result PaymentError (Text × PaymentProfile) × PaymentStore m
  prepare_charge o provider id c s =
      let (p, s1) = ensure_profile provider c.partner_id s in
      if not (is_ready p.status)
      then (err profile_not_ready, s1)
      else if is_invoice c.purpose && not p.autopay_enabled
      then (err autopay_disabled, s1)
      else begun p s1 (begin_attempt o provider id c s1)

  abbrev pub retry_later : List ℕ → Attempt m → Attempt m
  retry_later message a = record a {
    status = retryable;
    failure_code = codes "PROVIDER_REQUEST_FAILED";
    failure_message = trim_error message;
  }

  abbrev pub answered : ⦃u : Unicode⦄ → Text → Text → Attempt m → Attempt m
  answered provider_id provider_status a = record a {
    provider_payment_id = provider_id;
    status = status_of provider_status;
  }

  abbrev pub attempt_found : Option (Attempt m) → Result PaymentError (Attempt m)
  attempt_found none = err attempt_not_found
  attempt_found (some x) = ok x

  -- After the call: the store is the one that is then there.
  unfoldable pub finish_charge :
      ⦃u : Unicode⦄
      → Text
      → Result (List ℕ) (Text × Text)
      → PaymentStore m
      → Result PaymentError (Attempt m) × PaymentStore m
  finish_charge id (err message) s = (
    err provider_failed,
    record s { attempts = update_where (has_id id) (retry_later message) s.attempts },
  )
  finish_charge id (ok (provider_id, provider_status)) s =
      let attempts = update_where (has_id id) (answered provider_id provider_status) s.attempts in
      (attempt_found (find (has_id id) attempts), record s { attempts = attempts })

-- What one request for a charge gets: `provider` is the configured one, and `ask` the provider's answer or an error's message.
module _ ⦃u : Unicode⦄ {m : Money} (provider : Text) (sha10 : Text → Text)
    (ask : Text → Charge m → PaymentProfile → Result (List ℕ) (Text × Text)) where
  -- The branch for the `mock` provider, which is not asked.
  unfoldable pub provider_charge : Text → Charge m → PaymentProfile → Result (List ℕ) (Text × Text)
  provider_charge id c p =
      if text_eq provider (codes "mock")
      then ok (codes "pi_mock_" ++ without_prefix id, codes "processing")
      else ask id c p

  abbrev pub charged :
      Charge m
      → Result PaymentError (Text × PaymentProfile) × PaymentStore m
      → Result PaymentError (Attempt m) × PaymentStore m
  charged c (err e, s) = (err e, s)
  charged c (ok (id, p), s) = finish_charge id (provider_charge id c p) s

  -- By the attempt that has the key.
  abbrev pub charge_known :
      Option (Attempt m)
      → Charge m
      → PaymentStore m
      → Result PaymentError (Attempt m) × PaymentStore m
  charge_known none c s =
      charged c (prepare_charge none provider (attempt_id sha10 c.idempotency_key) c s)
  charge_known (some x) c s =
      if not (is_retryable x.status)
      then (ok x, s)
      else charged c (prepare_charge (some x) provider (attempt_id sha10 c.idempotency_key) c s)

  abbrev pub charge_valid :
      Result PaymentError (Charge m)
      → PaymentStore m
      → Result PaymentError (Attempt m) × PaymentStore m
  charge_valid (err e) s = (err e, s)
  charge_valid (ok c) s = charge_known (find (has_key c.idempotency_key) s.attempts) c s

  unfoldable pub create_charge :
      Bool
      → Bool
      → Option (ChargeRequest m)
      → PaymentStore m
      → Result PaymentError (Attempt m) × PaymentStore m
  create_charge false configured body s = (err method_not_allowed, s)
  create_charge true false body s = (err provider_unconfigured, s)
  create_charge true true none s = (err bad_json, s)
  create_charge true true (some r) s = charge_valid (validate_charge r) s
