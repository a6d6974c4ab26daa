-- ===== src/Payments/Signature.antt =====
-- services/cmd/payments/main.go, verifyStripeSignature. HMAC, hex and the decimal
-- conversions are parameters. Bytes are numbers.
pub mod Sound
use himate_system.Base.{
  ℕ, ◌==◌, Bool, true, false, ◌&&◌, ◌||◌, Option, none, some, List, [], ◌∷◌, ◌++◌, if◌then◌else◌, ℤ,
  pos, ◌-ℤ◌, ◌*ℤ◌, leb_ℤ, ltb_ℤ, Result, ok, err, ◌>>=◌, ◌>>◌, reject_if, Text, codes, is_empty,
  text_eq, trim_space,
}

pub data SignatureError : Type 0 where
  secret_missing fields_missing outside_tolerance mismatch : SignatureError

abbrev pub cons_part : ℕ → List Text → List Text
cons_part c [] = (c ∷ []) ∷ []
cons_part c (s ∷ rest) = (c ∷ s) ∷ rest

-- `strings.Split`, on one character.
unfoldable pub split : ℕ → Text → List Text
split sep [] = [] ∷ []
split sep (c ∷ s) = if c == sep then [] ∷ split sep s else cons_part c (split sep s)

abbrev pub cons_key : ℕ → Option (Text × Text) → Option (Text × Text)
cons_key c none = none
cons_key c (some (key, value)) = some (c ∷ key, value)

-- `strings.SplitN(part,"=",2)`, if it has two parts.
unfoldable pub key_value : Text → Option (Text × Text)
key_value [] = none
key_value (c ∷ s) = if c == b'=' then some ([], s) else cons_key c (key_value s)

abbrev pub is_empty_list : List Text → Bool
is_empty_list [] = true
is_empty_list (s ∷ rest) = false

-- The timestamp and the signatures that the loop has collected.
pub record Fields : Type 0 where
  pub timestamp : ℤ
  pub signatures : List Text

-- `parse` gives the value that ParseInt leaves, behind an error too.
abbrev pub read_pair : (Text → ℤ) → Option (Text × Text) → Fields → Fields
read_pair parse none f = f
read_pair parse (some (key, value)) f =
    if text_eq key (codes "t")
    then record f { timestamp = parse value }
    else if text_eq key (codes "v1")
    then record f { signatures = f.signatures ++ (value ∷ []) }
    else f

unfoldable pub read_fields : (Text → ℤ) → List Text → Fields → Fields
read_fields parse [] f = f
read_fields parse (part ∷ rest) f =
    read_fields parse rest (read_pair parse (key_value (trim_space part)) f)

abbrev pub nanoseconds : ℤ → ℤ
nanoseconds seconds = seconds *ℤ pos 1_000_000_000

abbrev pub equals_decoded : Text → Option Text → Bool
equals_decoded expected none = false
equals_decoded expected (some got) = text_eq expected got

unfoldable pub any_matches : (Text → Option Text) → Text → List Text → Bool
any_matches decode_hex expected [] = false
any_matches decode_hex expected (s ∷ rest) =
    equals_decoded expected (decode_hex s) || any_matches decode_hex expected rest

abbrev pub signed_text : (ℤ → Text) → ℤ → Text → Text
signed_text format timestamp body = format timestamp ++ codes "." ++ body

module _ (hmac : Text → Text → Text) (decode_hex : Text → Option Text) (format : ℤ → Text)
    (parse : Text → ℤ) where
  unfoldable pub verify_stripe_signature :
      Text → Text → Text → ℤ → ℤ → Result SignatureError (Unit {0})
  verify_stripe_signature body header secret now tolerance = do
    reject_if (is_empty (trim_space secret)) secret_missing
    let f = read_fields parse (split b',' header) (record { timestamp = pos 0; signatures = [] })
    reject_if (leb_ℤ f.timestamp (pos 0) || is_empty_list f.signatures) fields_missing
    let event_time = nanoseconds f.timestamp
    reject_if (ltb_ℤ tolerance (now -ℤ event_time) || ltb_ℤ tolerance (event_time -ℤ now))
        outside_tolerance
    (if any_matches decode_hex (hmac secret (signed_text format f.timestamp body)) f.signatures
        then ok tt
        else err mismatch)
