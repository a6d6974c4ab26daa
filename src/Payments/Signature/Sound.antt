-- ===== src/Payments/Signature/Sound.antt =====
-- What an accepted webhook signature means.
use himate_system.Base.{
  ◌≡◌, refl, true, false, ◌||◌, ◌⊎◌, Option, none, some, List, [], ◌∷◌, arith, inl, inr, Bool-cases,
  ℤ, pos, ◌-ℤ◌, leb_ℤ, ltb_ℤ, ok, reject_if-eq-ok, Text, is_empty, text_eq, text_eq_iff, trim_space,
}
use himate_system.Payments.Signature.{
  secret_missing, fields_missing, outside_tolerance, split, Fields, read_fields, is_empty_list,
  nanoseconds, equals_decoded, any_matches, signed_text, verify_stripe_signature,
}

abbrev pub Among : Text → List Text → Type 0
Among s [] = ⊥
Among s (t ∷ rest) = (s ≡ t) ⊎ Among s rest

module _ (hmac : Text → Text → Text) (decode_hex : Text → Option Text) (format : ℤ → Text)
    (parse : Text → ℤ) where
  -- A signature that decodes to the expected value comes first, or there is one further on.
  by_decoding :
      (s : Text) (o : Option Text) (expected : Text) (rest : List Text)
      → decode_hex s ≡ o
      → (equals_decoded expected o || any_matches decode_hex expected rest) ≡ true
      → (any_matches decode_hex expected rest ≡ true
          → (x : Text) × Among x rest × (decode_hex x ≡ some expected))
      → (x : Text) × Among x (s ∷ rest) × (decode_hex x ≡ some expected)
  by_decoding s none expected rest e m later = let (x, there, d) = later m in (x, inr there, d)
  by_decoding s (some got) expected rest e m later = elim (Bool-cases (text_eq expected got)) [
    | inl same ↦ (s, inl refl, rw ((text_eq_iff expected got).0 same) e)
    | inr other ↦ let (x, there, d) = later (rw other at m) in (x, inr there, d)
  ]

  any_matches-Among :
      (expected : Text) (signatures : List Text)
      → any_matches decode_hex expected signatures ≡ true
      → (s : Text) × Among s signatures × (decode_hex s ≡ some expected)
  unfolding any_matches
  any_matches-Among expected [] h = cc
  any_matches-Among expected (s ∷ rest) h =
      by_decoding s (decode_hex s) expected rest refl h (λ m. any_matches-Among expected rest m)

  -- The fields of a header.
  abbrev fields_of : Text → Fields
  fields_of header =
      read_fields parse (split b',' header) (record { timestamp = pos 0; signatures = [] })

  -- A webhook is accepted only if the header has a timestamp within the tolerance of the clock, before or
  -- after, and one of the header's signatures decodes to the HMAC, under a secret that is not
  -- blank, of that timestamp and the body.
  pub verify_stripe_signature-Signed :
      (body header secret : Text) (now tolerance : ℤ)
      → verify_stripe_signature hmac decode_hex format parse body header secret now tolerance
        ≡ ok tt
      → (is_empty (trim_space secret) ≡ false)
        × (leb_ℤ (fields_of header).timestamp (pos 0) ≡ false)
        × (ltb_ℤ tolerance (now -ℤ nanoseconds (fields_of header).timestamp) ≡ false)
        × (ltb_ℤ tolerance (nanoseconds (fields_of header).timestamp -ℤ now) ≡ false)
        × ((s : Text) × Among s (fields_of header).signatures
            × (decode_hex s
                ≡ some (hmac secret (signed_text format (fields_of header).timestamp body))))
  unfolding verify_stripe_signature
  verify_stripe_signature-Signed body header secret now tolerance h =
      let f = fields_of header in
      let at = nanoseconds f.timestamp in
      let (secret_given, h1) = reject_if-eq-ok (is_empty (trim_space secret)) secret_missing _ h in
      let (given, h2) =
        reject_if-eq-ok (leb_ℤ f.timestamp (pos 0) || is_empty_list f.signatures) fields_missing _
          h1 in
      let (fresh, h3) =
        reject_if-eq-ok (ltb_ℤ tolerance (now -ℤ at) || ltb_ℤ tolerance (at -ℤ now))
          outside_tolerance _ h2 in
      (
        secret_given,
        ground arith,
        ground arith,
        ground arith,
        any_matches-Among (hmac secret (signed_text format f.timestamp body)) f.signatures
            (ground arith),
      )
