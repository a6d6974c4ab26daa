-- ===== src/ServiceAuth/Tests.antt =====
-- Runs of the signature on a concrete request, with a toy HMAC and toy encodings that satisfy the laws.
use himate_system.Base.{
  ◌≡◌, refl, ◌==◌, false, Option, none, some, [], ◌∷◌, ◌++◌, inl, inr, Bool-cases, if◌then◌else◌, ℤ,
  pos, negsuc, ltb_ℤ, ◌-ℤ◌, ◌*ℤ◌, Result, ok, err, Text, codes, is_empty, to_lower, is_space,
  trim_left, trim_right, trim_space,
}
use himate_system.Base.Strings.Ascii.{ascii, evaluate_texts}
use himate_system.ServiceAuth.{
  Request, AuthError, stale, allowed_callers, skew, skew_limit, known_caller, canonical, caller_key,
  sign, verify,
}
use himate_system.ServiceAuth.Laws.{IsAuthentic, verify-IsAuthentic, CodecLaws, sign-verify}

abbrev hmac : Text → Text → Text
hmac key s = key ++ s

-- Between two marks.
abbrev encode : Text → Text
encode s = b'x' ∷ s ++ b'x' ∷ []

abbrev front : Text → Text
front [] = []
front (c ∷ []) = []
front (c ∷ d ∷ s) = c ∷ front (d ∷ s)

abbrev decode : Text → Option Text
decode [] = none
decode (_ ∷ s) = some (front s)

abbrev format : ℤ → Text
format (pos n) = b'p' ∷ n ∷ b'x' ∷ []
format (negsuc n) = b'n' ∷ n ∷ b'x' ∷ []

abbrev parse : Text → Option ℤ
parse [] = none
parse (c ∷ []) = none
parse (c ∷ n ∷ _) = if c == b'p' then some (pos n) else some (negsuc n)

front-append : (s : Text) → front (s ++ b'x' ∷ []) ≡ s
front-append [] = refl
front-append (c ∷ []) = refl
front-append (c ∷ d ∷ s) = rw (front-append (d ∷ s)) refl

trim_right-append : (s : Text) → trim_right (s ++ b'x' ∷ []) ≡ s ++ b'x' ∷ []
unfolding trim_right is_space
trim_right-append [] = refl
trim_right-append (c ∷ []) = elim (Bool-cases (is_space c)) [
  | inl space ↦ rw space refl
  | inr other ↦ rw other refl
]
trim_right-append (c ∷ d ∷ s) = elim (Bool-cases (is_space c)) [
  | inl space ↦ rw (space, trim_right-append (d ∷ s)) refl
  | inr other ↦ rw (other, trim_right-append (d ∷ s)) refl
]

trim_space-encode : (s : Text) → trim_space (encode s) ≡ encode s
unfolding trim_space trim_left is_space
trim_space-encode s = trim_right-append (b'x' ∷ s)

trim_space-format : (n : ℤ) → trim_space (format n) ≡ format n
unfolding trim_space trim_left is_space
trim_space-format (pos n) = trim_right-append (b'p' ∷ n ∷ [])
trim_space-format (negsuc n) = trim_right-append (b'n' ∷ n ∷ [])

parse-format : (n : ℤ) → parse (format n) ≡ some n
parse-format (pos n) = refl
parse-format (negsuc n) = refl

format_full : (n : ℤ) → is_empty (format n) ≡ false
format_full (pos n) = refl
format_full (negsuc n) = refl

toy-CodecLaws : CodecLaws hmac encode decode format parse
toy-CodecLaws = record {
  base64_read = λ s. rw (front-append s) refl;
  base64_plain = trim_space-encode;
  base64_full = λ key s. refl;
  decimal_read = parse-format;
  decimal_plain = trim_space-format;
  decimal_full = format_full;
}

abbrev request : Request
request = record {
  method = codes "post";
  escaped_path = [];
  raw_query = [];
  caller_id = [];
  timestamp = [];
  signature = [];
  partner_id = codes "p1";
  user_id = [];
  permissions = [];
  notification_scope = [];
  module_keys = [];
}

abbrev token : Text
token = codes "0123456789abcdef01234567"

abbrev sent : Result AuthError Request → Request
sent (ok r) = r
sent (err _) = request

abbrev signed : Request
signed = sent (sign hmac encode decode format parse request token (codes "workshop") (pos 1_000))

sign_run :
    sign hmac encode decode format parse request token (codes "workshop") (pos 1_000) ≡ ok signed
unfolding sign known_caller allowed_callers evaluate_texts
sign_run = refl

plain : to_lower (trim_space (codes "workshop")) ≡ codes "workshop"
unfolding evaluate_texts
plain = refl

fresh : ltb_ℤ (skew_limit (pos 0)) (skew (pos 1_000_000_000_007) (pos 1_000)) ≡ false
unfolding ◌-ℤ◌ ◌*ℤ◌
fresh = refl

sign-verify_example :
    verify hmac encode decode format parse signed token (pos 1_000_000_000_007) (pos 0)
    ≡ ok (codes "workshop")
sign-verify_example =
    sign-verify hmac encode decode format parse toy-CodecLaws request signed token
      (codes "workshop") (pos 1_000) (pos 1_000_000_000_007) (pos 0) plain fresh sign_run

accepted :
    verify hmac encode decode format parse signed token (pos 1_000_000_000_007) (pos 0)
    ≡ ok (codes "workshop")
unfolding sign verify known_caller allowed_callers canonical caller_key evaluate_texts ◌-ℤ◌ ◌*ℤ◌
accepted = refl

-- A timestamp of the year 11000 lies so far ahead that the difference is the least Duration, which negation keeps:
-- the request is not stale.
abbrev far_ahead : Request
far_ahead =
    sent
      (sign hmac encode decode format parse request token (codes "workshop") (pos 284_996_188_800))

far_ahead_run :
    verify hmac encode decode format parse far_ahead token (pos 1_000_000_000_007) (pos 0)
    ≡ ok (codes "workshop")
unfolding sign verify known_caller allowed_callers canonical caller_key evaluate_texts ◌-ℤ◌ ◌*ℤ◌
far_ahead_run = refl

-- Five minutes and one nanosecond later.
too_late :
    verify hmac encode decode format parse signed token (pos 1_300_000_000_001) (pos 0) ≡ err stale
unfolding sign verify known_caller allowed_callers canonical caller_key evaluate_texts ◌-ℤ◌ ◌*ℤ◌
too_late = refl

verify-IsAuthentic_example :
    IsAuthentic hmac encode decode format parse signed token
      (pos 1_000_000_000_007)
      (pos 0)
      (codes "workshop")
verify-IsAuthentic_example =
    verify-IsAuthentic hmac encode decode format parse signed token (pos 1_000_000_000_007) (pos 0)
      (codes "workshop") refl accepted
