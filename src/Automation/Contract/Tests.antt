-- ===== src/Automation/Contract/Tests.antt =====
-- A signed request on concrete input, with toy encodings.
use himate_system.Base.{
  ◌≡◌, ◌↔◌, refl, Option, none, some, [], ◌∷◌, ◌++◌, ℤ, pos, negsuc, ◌-ℤ◌, ◌*ℤ◌, Result, ok, err,
  Text, codes,
}
use himate_system.Base.Strings.Ascii.{ascii, evaluate_texts}
use himate_system.Automation.Contract.{
  BusRequest, ContractError, expired, bad_signature, canonical_request, bus_signature, sign_request,
  verify_request,
}
use himate_system.Automation.Contract.Laws.{IsGenuine, verify_request-IsGenuine}

unfoldable evaluate_contract : Unit {0}
unfolding evaluate_texts canonical_request bus_signature sign_request verify_request ◌-ℤ◌ ◌*ℤ◌
evaluate_contract = tt

abbrev mac : Text → Text → Text
mac key s = key ++ s

abbrev hash : Text → Text
hash s = s

abbrev format : ℤ → Text
format (pos n) = n ∷ []
format (negsuc n) = []

abbrev parse : Text → Option ℤ
parse [] = none
parse (c ∷ s) = some (pos c)

abbrev secret : Text
secret = codes "0123456789abcdef01234567"

abbrev secret_for : Text → Option Text
secret_for id = some secret

abbrev post : BusRequest
post = record {
  method = codes "post";
  path = codes "/events";
  service_id = [];
  timestamp = [];
  signature = [];
}

abbrev signed_as : Result ContractError BusRequest → BusRequest
signed_as (err e) = post
signed_as (ok r) = r

abbrev sent : BusRequest
sent =
    signed_as (sign_request mac hash format post (codes "{}") (codes " billing ") secret (pos b'2'))

abbrev verify_at : ℤ → Text → Result ContractError Text
verify_at now body = verify_request mac hash parse secret_for sent body now (pos 300_000_000_000)

accepted : verify_at (pos 60_000_000_000) (codes "{}") ≡ ok (codes "billing")
unfolding evaluate_contract
accepted = refl

other_body : verify_at (pos 60_000_000_000) (codes "[]") ≡ err bad_signature
unfolding evaluate_contract
other_body = refl

too_late : verify_at (pos 400_000_000_000) (codes "{}") ≡ err expired
unfolding evaluate_contract
too_late = refl

verify_request-IsGenuine_example :
    (verify_at (pos 60_000_000_000) (codes "{}") ≡ ok (codes "billing"))
    ↔ IsGenuine mac hash parse secret_for sent
        (codes "{}")
        (pos 60_000_000_000)
        (pos 300_000_000_000)
        (codes "billing")
verify_request-IsGenuine_example =
    verify_request-IsGenuine mac hash parse secret_for sent (codes "{}") (pos 60_000_000_000)
      (pos 300_000_000_000) (codes "billing")
