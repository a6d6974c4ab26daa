-- ===== src/Automation/Contract/Laws.antt =====
-- When a request to the bus is accepted.
use mathlib.Core.Path.{subst, sym}
use himate_system.Base.{
  ◌≡◌, refl, ap, ◌↔◌, false, not, ◌||◌, Option, none, some, Bool-cases, inl, inr, arith, ltb, ℤ,
  ltb_ℤ, ok, reject_if-eq-ok, >>=-eq-ok, Text, is_empty, byte_len, text_eq, text_eq_iff,
  text_eq_refl, codes, pos, ◌-ℤ◌, ◌*ℤ◌, ◌++◌, ◌∙◌, to_upper, Unicode, trim_space,
}
use himate_system.Automation.Contract.{
  BusRequest, headers_required, expired, bad_signature, bus_signature, canonical_request,
  known_secret, read_timestamp, age, advance, verify_request,
}

module _ (mac : Text → Text → Text) (hash : Text → Text) ⦃u : Unicode⦄ (parse : Text → Option ℤ)
    (secret_for : Text → Option Text) where
  -- The request names a service with a long enough secret, is dated within the tolerance, and is signed with that secret.
  pub record IsGenuine (r : BusRequest) (body : Text) (now tolerance : ℤ) (id : Text) : Type 0 where
    pub secret : Text
    pub seconds : ℤ
    pub named : trim_space r.service_id ≡ id
    pub complete :
        (is_empty id || is_empty (trim_space r.timestamp) || is_empty (trim_space r.signature))
        ≡ false
    pub known : secret_for id ≡ some secret
    pub long : ltb (byte_len secret) 24 ≡ false
    pub dated : parse (trim_space r.timestamp) ≡ some seconds
    pub not_too_old : ltb_ℤ tolerance (now -ℤ seconds *ℤ pos 1_000_000_000) ≡ false
    pub not_too_early : ltb_ℤ tolerance (seconds *ℤ pos 1_000_000_000 -ℤ now) ≡ false
    pub signed :
        trim_space r.signature
        ≡ codes "sha256="
          ++ mac secret (
              trim_space r.timestamp
              ++ codes "\n"
              ++ (id
                  ++ codes "\n"
                  ++ (to_upper r.method ++ codes "\n" ++ (r.path ++ codes "\n" ++ hash body))))

  bus_signature-lines :
      (secret id method path timestamp body : Text)
      → bus_signature mac hash secret id method path timestamp body
        ≡ codes "sha256="
          ++ mac secret (
              timestamp
              ++ codes "\n"
              ++ (id
                  ++ codes "\n"
                  ++ (to_upper method ++ codes "\n" ++ (path ++ codes "\n" ++ hash body))))
  unfolding bus_signature canonical_request
  bus_signature-lines secret id method path timestamp body = refl

  known_secret-eq-ok :
      (o : Option Text) (secret : Text)
      → known_secret o ≡ ok secret
      → (o ≡ some secret) × (ltb (byte_len secret) 24 ≡ false)
  known_secret-eq-ok none secret h = cc
  known_secret-eq-ok (some x) secret h = elim (Bool-cases (ltb (byte_len x) 24)) [
    | inl short ↦ cc (rw short at h)
    | inr long ↦ let same : x ≡ secret = cc (rw long at h) in (ap some same, rw (← same) long)
  ]

  read_timestamp-eq-ok : (o : Option ℤ) (n : ℤ) → read_timestamp o ≡ ok n → o ≡ some n
  read_timestamp-eq-ok none n h = cc
  read_timestamp-eq-ok (some m) n h = cc

  accepted-IsGenuine :
      (r : BusRequest) (body : Text) (now tolerance : ℤ) (id : Text)
      → verify_request mac hash parse secret_for r body now tolerance ≡ ok id
      → IsGenuine r body now tolerance id
  unfolding verify_request
  accepted-IsGenuine r body now tolerance id h =
      let name = trim_space r.service_id in
      let (full, h1) =
        reject_if-eq-ok
          (is_empty name || is_empty (trim_space r.timestamp) || is_empty (trim_space r.signature))
          headers_required _ h in
      let (secret, k, h2) = >>=-eq-ok (known_secret (secret_for name)) _ h1 in
      let (seconds, p, h3) = >>=-eq-ok (read_timestamp (parse (trim_space r.timestamp))) _ h2 in
      let (fresh, h4) =
        reject_if-eq-ok (ltb_ℤ tolerance (age now seconds) || ltb_ℤ tolerance (advance now seconds))
          expired _ h3 in
      let want = bus_signature mac hash secret name r.method r.path (trim_space r.timestamp) body in
      let (equal, h5) =
        reject_if-eq-ok (not (text_eq (trim_space r.signature) want)) bad_signature _ h4 in
      let (known, long) = known_secret-eq-ok (secret_for name) secret k in
      let same : name ≡ id = cc in
      subst (λ i. IsGenuine r body now tolerance i) same
        (record {
          secret = secret;
          seconds = seconds;
          named = refl;
          complete = full;
          known = known;
          long = long;
          dated = read_timestamp-eq-ok (parse (trim_space r.timestamp)) seconds p;
          not_too_old = ground (arith, fresh);
          not_too_early = ground (arith, fresh);
          signed =
              (text_eq_iff (trim_space r.signature) want).0 (ground (arith, equal))
              ∙ bus_signature-lines secret name r.method r.path (trim_space r.timestamp) body;
        })

  genuine-accepted :
      (r : BusRequest) (body : Text) (now tolerance : ℤ) (id : Text)
      → IsGenuine r body now tolerance id
      → verify_request mac hash parse secret_for r body now tolerance ≡ ok id
  unfolding verify_request
  genuine-accepted r body now tolerance id g =
      let signed =
        g.signed
        ∙ sym (bus_signature-lines g.secret id r.method r.path (trim_space r.timestamp) body) in
      rw
        (
          g.named, g.complete, g.known, g.long, g.dated, g.not_too_old, g.not_too_early, signed,
          text_eq_refl,
        )
        refl

  -- The bus accepts a request as one of a service exactly if it names the service, the service has a secret of at least 24
  -- bytes, its timestamp is within the tolerance of the clock on both sides, and its signature is the
  -- MAC under that secret of the lines of its timestamp, name, upper case method, path
  -- and the hash of its body.
  pub verify_request-IsGenuine :
      (r : BusRequest) (body : Text) (now tolerance : ℤ) (id : Text)
      → (verify_request mac hash parse secret_for r body now tolerance ≡ ok id)
        ↔ IsGenuine r body now tolerance id
  verify_request-IsGenuine r body now tolerance id =
      (accepted-IsGenuine r body now tolerance id, genuine-accepted r body now tolerance id)
