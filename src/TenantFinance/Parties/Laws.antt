-- ===== src/TenantFinance/Parties/Laws.antt =====
-- What the normalised parties of an invoice satisfy.
use himate_system.Base.{
  ◌≡◌, ◌⊎◌, true, false, Option, arith, ok, Text, codes, is_empty, text_eq_iff, Unicode, to_upper,
  trim_space,
}
use himate_system.TenantFinance.Parties.{
  CustomerSnapshot, IssuerSnapshot, normalize_customer, named_customer, require_billing_address,
  is_united_states, normalize_issuer, named_issuer, validate_source_for_service, source_text,
  workflow, schedule,
}

-- What an invoice needs to know of an address before it is issued.
pub record IsBillable ⦃u : Unicode⦄ (country state_region city postal_code address_line1 : Text)
    : Type 0 where
  pub has_country : is_empty country ≡ false
  pub has_city : is_empty city ≡ false
  pub has_address : is_empty address_line1 ≡ false
  pub us_complete :
      is_united_states country ≡ true
      → (is_empty state_region ≡ false) × (is_empty postal_code ≡ false)

module _ ⦃u : Unicode⦄ where
  require_billing_address-IsBillable :
      (c : CustomerSnapshot)
      → require_billing_address c ≡ ok tt
      → IsBillable c.country c.state_region c.city c.postal_code c.address_line1
  unfolding require_billing_address
  require_billing_address-IsBillable c h = record {
    has_country = ground arith;
    has_city = ground arith;
    has_address = ground arith;
    us_complete = λ us. (ground arith, ground arith);
  }

  normalize_customer-eq-ok :
      (c d : CustomerSnapshot)
      → normalize_customer c true ≡ ok d
      → (is_empty d.display_name ≡ false) × (require_billing_address d ≡ ok tt)
  unfolding normalize_customer named_customer
  normalize_customer-eq-ok c d h = ground arith

  -- A customer that is accepted for issue has a name and a billable address; in the United States that
  -- includes the state and the postal code.
  pub normalize_customer-IsBillable :
      (c d : CustomerSnapshot)
      → normalize_customer c true ≡ ok d
      → (is_empty d.display_name ≡ false)
        × IsBillable d.country d.state_region d.city d.postal_code d.address_line1
  normalize_customer-IsBillable c d h =
      let (named, address) = normalize_customer-eq-ok c d h in
      (named, require_billing_address-IsBillable d address)

  -- A company profile that is accepted for issue has a legal and a display name and a billable address; in
  -- the United States that includes the state and the postal code.
  pub normalize_issuer-IsBillable :
      (id : Text) (raw : Text → Option Text) (i : IssuerSnapshot)
      → normalize_issuer id raw ≡ ok i
      → (is_empty i.legal_name ≡ false)
        × (is_empty i.display_name ≡ false)
        × IsBillable i.country i.state_region i.city i.postal_code i.address_line1
  unfolding normalize_issuer named_issuer
  normalize_issuer-IsBillable id raw i h = (
    ground arith,
    ground arith,
    record {
      has_country = ground arith;
      has_city = ground arith;
      has_address = ground arith;
      us_complete = λ us. (ground arith, ground arith);
    },
  )

  -- A source that is accepted is, up to case and outer spaces, WORKFLOW from the workshop or SCHEDULE from
  -- the scheduler.
  pub validate_source_for_service-owner :
      (service source : Text)
      → validate_source_for_service service source ≡ ok tt
      → ((to_upper (trim_space source) ≡ source_text workflow)
          × (trim_space service ≡ codes "workshop"))
        ⊎ ((to_upper (trim_space source) ≡ source_text schedule)
            × (trim_space service ≡ codes "scheduler"))
  unfolding validate_source_for_service
  validate_source_for_service-owner service source h = ground (
    arith,
    text_eq_iff (to_upper (trim_space source)) (source_text workflow),
    text_eq_iff (to_upper (trim_space source)) (source_text schedule),
    text_eq_iff (trim_space service) (codes "workshop"),
    text_eq_iff (trim_space service) (codes "scheduler"),
  )
