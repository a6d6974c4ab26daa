-- ===== src/Automation/Contract.antt =====
-- services/internal/automation/contract.go: the signature of a request to the bus. A header that is not there is
-- the empty text; the request is there. The hexadecimal HMAC and hash and the decimal conversions
-- are parameters.
pub mod Laws
mod Tests
use himate_system.Base.{
  ℕ, Bool, not, ◌||◌, Option, none, some, List, [], ◌∷◌, ◌++◌, ltb, if◌then◌else◌, ℤ, pos, ◌-ℤ◌,
  ◌*ℤ◌, ltb_ℤ, Result, ok, err, ◌>>=◌, ◌>>◌, reject_if, Text, codes, is_empty, byte_len, text_eq,
  Unicode, to_upper, trim_space, true, false,
}
use himate_system.ServiceAuth.{lines}

pub record BusRequest : Type 0 where
  pub method : Text
  pub path : Text
  pub service_id : Text
  pub timestamp : Text
  pub signature : Text

pub data ContractError : Type 0 where
  not_configured headers_required unknown_service bad_timestamp expired bad_signature :
      ContractError

abbrev pub known_secret : Option Text → Result ContractError Text
known_secret none = err unknown_service
known_secret (some secret) = if ltb (byte_len secret) 24 then err unknown_service else ok secret

abbrev pub read_timestamp : Option ℤ → Result ContractError ℤ
read_timestamp none = err bad_timestamp
read_timestamp (some n) = ok n

-- The age of a timestamp in nanoseconds.
abbrev pub age : ℤ → ℤ → ℤ
age now seconds = now -ℤ seconds *ℤ pos 1_000_000_000

abbrev pub advance : ℤ → ℤ → ℤ
advance now seconds = seconds *ℤ pos 1_000_000_000 -ℤ now

module _ (mac : Text → Text → Text) (hash : Text → Text) ⦃u : Unicode⦄ where
  unfoldable pub canonical_request : Text → Text → Text → Text → Text → Text
  canonical_request service_id method path timestamp body =
      lines (timestamp ∷ service_id ∷ to_upper method ∷ path ∷ hash body ∷ [])

  unfoldable pub bus_signature : Text → Text → Text → Text → Text → Text → Text
  bus_signature secret service_id method path timestamp body =
      codes "sha256=" ++ mac secret (canonical_request service_id method path timestamp body)

  -- `at` is the clock in seconds.
  unfoldable pub sign_request :
      (ℤ → Text) → BusRequest → Text → Text → Text → ℤ → Result ContractError BusRequest
  sign_request format r body raw secret at = do
    let id = trim_space raw
    reject_if (is_empty id || ltb (byte_len secret) 24) not_configured
    ok (record r {
      service_id = id;
      timestamp = format at;
      signature = bus_signature secret id r.method r.path (format at) body;
    })

  unfoldable pub verify_request :
      (Text → Option ℤ)
      → (Text → Option Text)
      → BusRequest
      → Text
      → ℤ
      → ℤ
      → Result ContractError Text
  verify_request parse secret_for r body now tolerance = do
    let id = trim_space r.service_id
    let timestamp = trim_space r.timestamp
    let got = trim_space r.signature
    reject_if (is_empty id || is_empty timestamp || is_empty got) headers_required
    secret ← known_secret (secret_for id)
    seconds ← read_timestamp (parse timestamp)
    reject_if (ltb_ℤ tolerance (age now seconds) || ltb_ℤ tolerance (advance now seconds)) expired
    reject_if (not (text_eq got (bus_signature secret id r.method r.path timestamp body)))
        bad_signature
    ok id
