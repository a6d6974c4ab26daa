-- ===== src/ServiceAuth/Laws.antt =====
-- What an accepted signature means, and that a signed request is accepted.
use mathlib.Core.Path.{subst}
use himate_system.Base.{
  ◌≡◌, refl, ◌∙◌, ap, true, false, not, ◌||◌, Option, none, some, arith, ltb, ℤ, pos, negsuc, ◌-ℤ◌,
  ◌*ℤ◌, ◌⊎◌, ◌++◌, leb_ℤ, codes, to_upper, if◌then◌else◌, ltb_ℤ, ok, reject_if-eq-ok, >>=-eq-ok,
  Text, is_empty, byte_len, text_eq, text_eq_iff, text_eq_refl, Unicode, to_lower, trim_space,
}
use himate_system.ServiceAuth.{
  Request, credential_missing, unknown_caller, signature_missing, stale, bad_signature, skew,
  skew_limit, known_caller, canonical, absolute, duration, max_duration, min_duration, unix_instant,
  contains, allowed_callers, caller_key, signature_of, sign, parsed, decoded, verify,
}

-- A timestamp that is not stale is within the limit of the clock, or it lies 292 years or more ahead.
skew-within :
    (limit d : ℤ)
    → ltb_ℤ limit max_duration ≡ true
    → ltb_ℤ limit (absolute (duration d)) ≡ false
    → ((ltb_ℤ limit d ≡ false) × (ltb_ℤ d (pos 0 -ℤ limit) ≡ false)) ⊎ (leb_ℤ d min_duration ≡ true)
unfolding ◌-ℤ◌
skew-within limit (pos n) small h = ground arith
skew-within limit (negsuc n) small h = ground arith

limit_small :
    (max_skew : ℤ)
    → ltb_ℤ max_skew max_duration ≡ true
    → ltb_ℤ (skew_limit max_skew) max_duration ≡ true
limit_small max_skew h = ground arith

module _ ⦃u : Unicode⦄ (hmac : Text → Text → Text) (encode : Text → Text)
    (decode : Text → Option Text) (format : ℤ → Text) (parse : Text → Option ℤ) where
  -- The ten lines that the sender of a request has signed.
  abbrev pub signed_lines : Request → Text → Text
  signed_lines r caller =
      to_upper (trim_space r.method)
      ++ codes "\n"
      ++ ((if is_empty r.escaped_path then codes "/" else r.escaped_path)
          ++ codes "\n"
          ++ (r.raw_query
              ++ codes "\n"
              ++ (trim_space caller
                  ++ codes "\n"
                  ++ (trim_space (trim_space r.timestamp)
                      ++ codes "\n"
                      ++ (trim_space r.partner_id
                          ++ codes "\n"
                          ++ (trim_space r.user_id
                              ++ codes "\n"
                              ++ (trim_space r.permissions
                                  ++ codes "\n"
                                  ++ (trim_space r.notification_scope
                                      ++ codes "\n"
                                      ++ trim_space r.module_keys))))))))

  signature_of-lines :
      (r : Request) (token caller : Text)
      → signature_of hmac encode decode format parse r token caller (trim_space r.timestamp)
        ≡ hmac
            (hmac token (codes "himate-service-v1|" ++ to_lower (trim_space caller)))
            (signed_lines r caller)
  unfolding canonical caller_key
  signature_of-lines r token caller = refl

  caller_listed :
      (caller : Text)
      → known_caller caller ≡ true
      → contains (to_lower (trim_space caller)) allowed_callers ≡ true
  unfolding known_caller
  caller_listed caller h = h

  -- What has been tested of an accepted request.
  pub record IsAuthentic (r : Request) (token : Text) (now max_skew : ℤ) (caller : Text)
      : Type 0 where
    pub seconds : ℤ
    pub long_token : ltb (byte_len (trim_space token)) 24 ≡ false
    pub known : contains (to_lower (trim_space caller)) allowed_callers ≡ true
    pub named : to_lower (trim_space r.caller_id) ≡ caller
    pub dated : parse (trim_space r.timestamp) ≡ some seconds
    pub fresh :
        let limit = if leb_ℤ max_skew (pos 0) then pos 300_000_000_000 else max_skew in
        let d = now -ℤ unix_instant seconds *ℤ pos 1_000_000_000 in
        ((ltb_ℤ limit d ≡ false) × (ltb_ℤ d (pos 0 -ℤ limit) ≡ false))
        ⊎ (leb_ℤ d (negsuc 9223372036854775807) ≡ true)
    pub signed :
        decode (trim_space r.signature)
        ≡ some (
            hmac
              (hmac (trim_space token) (codes "himate-service-v1|" ++ to_lower (trim_space caller)))
              (signed_lines r caller))

  parsed-eq-ok :
      (o : Option ℤ) (n : ℤ) → parsed hmac encode decode format parse o ≡ ok n → o ≡ some n
  parsed-eq-ok none n h = cc
  parsed-eq-ok (some m) n h = ground arith

  decoded-eq-ok :
      (o : Option Text) (s : Text) → decoded hmac encode decode format parse o ≡ ok s → o ≡ some s
  decoded-eq-ok none s h = cc
  decoded-eq-ok (some t) s h = ground arith

  -- If the allowed skew is below the greatest Duration, a request is accepted only if the token has at least 24
  -- bytes, it names a caller of the list, its timestamp lies within the allowed skew (five minutes if none is
  -- given) before or after the clock or else 292 years or more ahead of it, and its signature is the HMAC, under
  -- the key of that caller, of the lines of its method, path, query, caller, timestamp, partner, user,
  -- permissions, scope and module keys.
  pub verify-IsAuthentic :
      (r : Request) (token : Text) (now max_skew : ℤ) (caller : Text)
      → ltb_ℤ max_skew max_duration ≡ true
      → verify hmac encode decode format parse r token now max_skew ≡ ok caller
      → IsAuthentic r token now max_skew caller
  unfolding verify
  verify-IsAuthentic r token now max_skew caller small h =
      let name = to_lower (trim_space r.caller_id) in
      let (long, h1) =
        reject_if-eq-ok (ltb (byte_len (trim_space token)) 24) credential_missing _ h in
      let (known, h2) = reject_if-eq-ok (not (known_caller name)) unknown_caller _ h1 in
      let (_, h3) =
        reject_if-eq-ok (is_empty (trim_space r.timestamp) || is_empty (trim_space r.signature))
          signature_missing _ h2 in
      let (seconds, p, h4) =
        >>=-eq-ok (parsed hmac encode decode format parse (parse (trim_space r.timestamp))) _ h3 in
      let (fresh, h5) =
        reject_if-eq-ok (ltb_ℤ (skew_limit max_skew) (skew now seconds)) stale _ h4 in
      let (got, d, h6) =
        >>=-eq-ok (decoded hmac encode decode format parse (decode (trim_space r.signature))) _
          h5 in
      let expected =
        signature_of hmac encode decode format parse r (trim_space token) name
          (trim_space r.timestamp) in
      let (equal, h7) = reject_if-eq-ok (not (text_eq got expected)) bad_signature _ h6 in
      let same : name ≡ caller = ground arith in
      let matches : got ≡ expected = (text_eq_iff got expected).0 (ground arith) in
      record {
        seconds = seconds;
        long_token = long;
        known = caller_listed caller (rw (← same) (ground arith));
        named = same;
        dated = parsed-eq-ok (parse (trim_space r.timestamp)) seconds p;
        fresh =
            skew-within (skew_limit max_skew) (now -ℤ unix_instant seconds *ℤ pos 1_000_000_000)
              (limit_small max_skew small) fresh;
        signed = rw (← same) (
            decoded-eq-ok (decode (trim_space r.signature)) got d
            ∙ ap some (matches ∙ signature_of-lines r (trim_space token) name));
      }

  -- Documented behaviour of the encodings: what they write has no white space and is read back.
  pub record CodecLaws : Type 0 where
    pub base64_read : (s : Text) → decode (encode s) ≡ some s
    pub base64_plain : (s : Text) → trim_space (encode s) ≡ encode s
    pub base64_full : (key s : Text) → is_empty (encode (hmac key s)) ≡ false
    pub decimal_read : (n : ℤ) → parse (format n) ≡ some n
    pub decimal_plain : (n : ℤ) → trim_space (format n) ≡ format n
    pub decimal_full : (n : ℤ) → is_empty (format n) ≡ false

  abbrev signed_request : Request → Text → Text → ℤ → Request
  signed_request r token caller at = record r {
    caller_id = caller;
    timestamp = format at;
    signature =
        encode
          (signature_of hmac encode decode format parse r (trim_space token) caller (format at));
  }

  canonical_signed :
      (r : Request) (token caller : Text) (at : ℤ) (c t : Text)
      → canonical (signed_request r token caller at) c t ≡ canonical r c t
  unfolding canonical
  canonical_signed r token caller at c t = refl

  sign-eq-ok :
      (r r' : Request) (token caller : Text) (at : ℤ)
      → to_lower (trim_space caller) ≡ caller
      → sign hmac encode decode format parse r token caller at ≡ ok r'
      → (ltb (byte_len (trim_space token)) 24 ≡ false)
        × (known_caller caller ≡ true)
        × (signed_request r token caller at ≡ r')
  unfolding sign
  sign-eq-ok r r' token caller at plain h =
      let (long, h1) =
        reject_if-eq-ok (ltb (byte_len (trim_space token)) 24) credential_missing _ h in
      let h1' = (rw plain at h1) in
      let (known, h2) = reject_if-eq-ok (not (known_caller caller)) unknown_caller _ h1' in
      (long, ground arith, ground arith)

  verify-signed_request :
      CodecLaws
      → (r : Request) (token caller : Text) (at now max_skew : ℤ)
      → to_lower (trim_space caller) ≡ caller
      → ltb_ℤ (skew_limit max_skew) (skew now at) ≡ false
      → ltb (byte_len (trim_space token)) 24 ≡ false
      → known_caller caller ≡ true
      → verify hmac encode decode format parse (signed_request r token caller at) token now max_skew
        ≡ ok caller
  unfolding verify
  verify-signed_request laws r token caller at now max_skew plain fresh long known =
      rw
        (
          plain,
          long,
          known,
          laws.decimal_plain,
          laws.base64_plain,
          laws.decimal_full,
          laws.base64_full,
          laws.decimal_read,
          fresh,
          laws.base64_read,
          canonical_signed r token caller at,
          text_eq_refl,
        )
        refl

  -- If the encodings read back what they write, a request that was signed under a trimmed lower case name is
  -- accepted by a service with the same token, under that name, while the clock is within the
  -- allowed skew.
  pub sign-verify :
      CodecLaws
      → (r r' : Request) (token caller : Text) (at now max_skew : ℤ)
      → to_lower (trim_space caller) ≡ caller
      → ltb_ℤ (skew_limit max_skew) (skew now at) ≡ false
      → sign hmac encode decode format parse r token caller at ≡ ok r'
      → verify hmac encode decode format parse r' token now max_skew ≡ ok caller
  sign-verify laws r r' token caller at now max_skew plain fresh h =
      let (long, known, same) = sign-eq-ok r r' token caller at plain h in
      subst (λ q. verify hmac encode decode format parse q token now max_skew ≡ ok caller) same
        (verify-signed_request laws r token caller at now max_skew plain fresh long known)
