-- ===== src/ServiceAuth.antt =====
-- services/internal/serviceauth/contract.go: the signature of a request between services. A header that is not
-- there is the empty text; the request and its URL are there. HMAC-SHA256, base64 and the decimal
-- conversions of the standard library are parameters; bytes are numbers.
pub mod Laws
mod Tests
use himate_system.Base.{
  max_int64, ℕ, ◌*◌, ◌==◌, Bool, true, false, not, ◌&&◌, ◌||◌, Option, none, some, List, [], ◌∷◌,
  ◌++◌, ltb, if◌then◌else◌, ℤ, pos, negsuc, ◌-ℤ◌, ◌*ℤ◌, leb_ℤ, ltb_ℤ, Result, ok, err, ◌>>=◌, ◌>>◌,
  reject_if, Text, codes, is_empty, byte_len, text_eq, Unicode, to_upper, to_lower, trim_space,
}

pub record Request : Type 0 where
  pub method : Text
  pub escaped_path : Text
  pub raw_query : Text
  pub caller_id : Text
  pub timestamp : Text
  pub signature : Text
  pub partner_id : Text
  pub user_id : Text
  pub permissions : Text
  pub notification_scope : Text
  pub module_keys : Text

pub data AuthError : Type 0 where
  credential_missing unknown_caller signature_missing bad_timestamp stale bad_signature : AuthError

unfoldable pub allowed_callers : List Text
allowed_callers =
    codes "gateway"
    ∷ codes "partners"
    ∷ codes "catalog"
    ∷ codes "billing"
    ∷ codes "payments"
    ∷ codes "contact"
    ∷ codes "provisioning"
    ∷ codes "environments"
    ∷ codes "connector"
    ∷ codes "health"
    ∷ codes "backups"
    ∷ codes "impact"
    ∷ codes "evidence"
    ∷ codes "reports"
    ∷ codes "cms"
    ∷ codes "notifications"
    ∷ codes "runtime"
    ∷ codes "tenantfinance"
    ∷ codes "automation"
    ∷ codes "storage"
    ∷ codes "workshop"
    ∷ codes "scheduler"
    ∷ codes "client-piano"
    ∷ []

abbrev pub contains : Text → List Text → Bool
contains x [] = false
contains x (y ∷ ys) = text_eq x y || contains x ys

abbrev pub lines : List Text → Text
lines [] = []
lines (s ∷ []) = s
lines (s ∷ t ∷ rest) = s ++ codes "\n" ++ lines (t ∷ rest)

abbrev pub minutes_5 : ℤ
minutes_5 = pos 300_000_000_000

-- A Duration is an int64 of nanoseconds; these are its least and its greatest value.
abbrev pub min_duration : ℤ
min_duration = negsuc max_int64

abbrev pub max_duration : ℤ
max_duration = pos max_int64

-- What `Sub` of the package time gives for a difference: a difference that no Duration holds becomes the nearest
-- one.
abbrev pub duration : ℤ → ℤ
duration d =
    if ltb_ℤ d min_duration then min_duration else if ltb_ℤ max_duration d then max_duration else d

-- The negation of an int64 wraps around: the least Duration is its own negation.
abbrev pub absolute : ℤ → ℤ
absolute d =
    if ltb_ℤ d (pos 0) then (if leb_ℤ d min_duration then min_duration else pos 0 -ℤ d) else d

-- The instant of `time.Unix`, in seconds: its sum with the offset to the year 1 wraps around.
abbrev pub unix_instant : ℤ → ℤ
unix_instant seconds =
    if ltb_ℤ (pos 9223371974719179007) seconds then seconds -ℤ pos 18446744073709551616 else seconds

-- The nanoseconds between the clock and the seconds of a timestamp as the code computes them, and the bound on
-- them.
abbrev pub skew : ℤ → ℤ → ℤ
skew now seconds = absolute (duration (now -ℤ unix_instant seconds *ℤ pos 1_000_000_000))

abbrev pub skew_limit : ℤ → ℤ
skew_limit max_skew = if leb_ℤ max_skew (pos 0) then minutes_5 else max_skew

module _ ⦃u : Unicode⦄ where
  unfoldable pub known_caller : Text → Bool
  known_caller caller = contains (to_lower (trim_space caller)) allowed_callers

  unfoldable pub canonical : Request → Text → Text → Text
  canonical r caller timestamp = lines (
      to_upper (trim_space r.method)
      ∷ (if is_empty r.escaped_path then codes "/" else r.escaped_path)
      ∷ r.raw_query
      ∷ trim_space caller
      ∷ trim_space timestamp
      ∷ trim_space r.partner_id
      ∷ trim_space r.user_id
      ∷ trim_space r.permissions
      ∷ trim_space r.notification_scope
      ∷ trim_space r.module_keys
      ∷ [])

  module _ (hmac : Text → Text → Text) (encode : Text → Text) (decode : Text → Option Text)
      (format : ℤ → Text) (parse : Text → Option ℤ) where
    unfoldable pub caller_key : Text → Text → Text
    caller_key token caller =
        hmac token (codes "himate-service-v1|" ++ to_lower (trim_space caller))

    abbrev pub signature_of : Request → Text → Text → Text → Text
    signature_of r token caller timestamp =
        hmac (caller_key token caller) (canonical r caller timestamp)

    -- `at` is the clock in seconds.
    unfoldable pub sign : Request → Text → Text → ℤ → Result AuthError Request
    sign r raw_token raw_caller at = do
      let token = trim_space raw_token
      let caller = to_lower (trim_space raw_caller)
      reject_if (ltb (byte_len token) 24) credential_missing
      reject_if (not (known_caller caller)) unknown_caller
      let timestamp = format at
      ok (record r {
        caller_id = caller;
        timestamp = timestamp;
        signature = encode (signature_of r token caller timestamp);
      })

    abbrev pub parsed : Option ℤ → Result AuthError ℤ
    parsed none = err bad_timestamp
    parsed (some n) = ok n

    abbrev pub decoded : Option Text → Result AuthError Text
    decoded none = err bad_signature
    decoded (some s) = ok s

    unfoldable pub verify : Request → Text → ℤ → ℤ → Result AuthError Text
    verify r raw_token now max_skew = do
      let token = trim_space raw_token
      reject_if (ltb (byte_len token) 24) credential_missing
      let caller = to_lower (trim_space r.caller_id)
      reject_if (not (known_caller caller)) unknown_caller
      let timestamp = trim_space r.timestamp
      let signature = trim_space r.signature
      reject_if (is_empty timestamp || is_empty signature) signature_missing
      seconds ← parsed (parse timestamp)
      reject_if (ltb_ℤ (skew_limit max_skew) (skew now seconds)) stale
      got ← decoded (decode signature)
      reject_if (not (text_eq got (signature_of r token caller timestamp))) bad_signature
      ok caller
