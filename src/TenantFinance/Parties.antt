-- ===== src/TenantFinance/Parties.antt =====
-- services/cmd/tenantfinance/domain.go: the currency, the number prefix, the customer and the issuer of
-- an invoice, and which service may create which kind of automated invoice.
pub mod Laws
mod Tests
use himate_system.Base.{
  ℕ, ◌==◌, Bool, true, false, not, ◌&&◌, ◌||◌, Option, none, some, List, [], ◌∷◌, length, leb,
  if◌then◌else◌, Result, ok, err, ◌>>=◌, ◌>>◌, reject_if, Text, codes, is_empty, text_eq, Unicode,
  to_upper, to_lower, equal_fold, trim_space,
}

pub data PartyError : Type 0 where
  bad_currency bad_prefix customer_unnamed customer_address_missing customer_us_address_missing :
      PartyError
  issuer_incomplete issuer_us_address_missing : PartyError
  workflow_by_workshop_only schedule_by_scheduler_only bad_source_type : PartyError

pub record CustomerSnapshot : Type 0 where
  pub display_name : Text
  pub company_name : Text
  pub email : Text
  pub phone : Text
  pub tax_id : Text
  pub country : Text
  pub state_region : Text
  pub city : Text
  pub postal_code : Text
  pub address_line1 : Text
  pub address_line2 : Text

pub record IssuerSnapshot : Type 0 where
  pub partner_id : Text
  pub display_name : Text
  pub legal_name : Text
  pub brand_name : Text
  pub registration_number : Text
  pub tax_id : Text
  pub country : Text
  pub state_region : Text
  pub city : Text
  pub postal_code : Text
  pub address_line1 : Text
  pub address_line2 : Text
  pub website : Text
  pub phone : Text
  pub logo_url : Text
  pub finance_email : Text

abbrev pub all_runes : (ℕ → Bool) → Text → Bool
all_runes p [] = true
all_runes p (c ∷ s) = p c && all_runes p s

abbrev pub is_upper : ℕ → Bool
is_upper c = leb b'A' c && leb c b'Z'

abbrev pub is_digit : ℕ → Bool
is_digit c = leb b'0' c && leb c b'9'

-- `^[A-Z]{3}$`
unfoldable pub matches_currency : Text → Bool
matches_currency s = length s == 3 && all_runes is_upper s

abbrev pub is_prefix_rune : ℕ → Bool
is_prefix_rune c = is_upper c || is_digit c || c == b'_' || c == b'-'

-- `^[A-Z0-9][A-Z0-9_-]{0,11}$`
unfoldable pub matches_prefix : Text → Bool
matches_prefix [] = false
matches_prefix (c ∷ s) =
    (is_upper c || is_digit c) && leb (length s) 11 && all_runes is_prefix_rune s

pub data SourceType : Type 0 where
  manual workflow schedule : SourceType

abbrev pub source_text : SourceType → Text
source_text manual = codes "MANUAL"
source_text workflow = codes "WORKFLOW"
source_text schedule = codes "SCHEDULE"

module _ ⦃u : Unicode⦄ where
  unfoldable pub normalize_currency : Text → Text → Result PartyError Text
  normalize_currency raw fallback =
      let given = to_upper (trim_space raw) in
      let v = (if is_empty given then to_upper (trim_space fallback) else given) in
      if not (matches_currency v) then err bad_currency else ok v

  unfoldable pub normalize_invoice_prefix : Text → Result PartyError Text
  normalize_invoice_prefix raw =
      let v = to_upper (trim_space raw) in if not (matches_prefix v) then err bad_prefix else ok v

  -- The country tests that `normalizeCustomer` and `normalizeIssuer` repeat.
  unfoldable pub is_united_states : Text → Bool
  is_united_states country =
      equal_fold country (codes "United States")
      || equal_fold country (codes "US")
      || equal_fold country (codes "USA")

  -- The trimmed fields, before the tests.
  abbrev pub trimmed_customer : CustomerSnapshot → CustomerSnapshot
  trimmed_customer c = record {
    display_name = trim_space c.display_name;
    company_name = trim_space c.company_name;
    email = to_lower (trim_space c.email);
    phone = trim_space c.phone;
    tax_id = trim_space c.tax_id;
    country = trim_space c.country;
    state_region = trim_space c.state_region;
    city = trim_space c.city;
    postal_code = trim_space c.postal_code;
    address_line1 = trim_space c.address_line1;
    address_line2 = trim_space c.address_line2;
  }

  unfoldable pub named_customer : CustomerSnapshot → CustomerSnapshot
  named_customer c = record c {
    display_name = if is_empty c.display_name then c.company_name else c.display_name;
  }

  -- The tests of an invoice that is to be issued.
  unfoldable pub require_billing_address : CustomerSnapshot → Result PartyError (Unit {0})
  require_billing_address c = do
    reject_if (is_empty c.country || is_empty c.city || is_empty c.address_line1)
        customer_address_missing
    reject_if (is_united_states c.country && (is_empty c.state_region || is_empty c.postal_code))
        customer_us_address_missing

  unfoldable pub normalize_customer : CustomerSnapshot → Bool → Result PartyError CustomerSnapshot
  normalize_customer input final = do
    let c = trimmed_customer input
    reject_if (is_empty c.display_name && is_empty c.company_name) customer_unnamed
    let named = named_customer c
    (if final then require_billing_address named else ok tt)
    ok named

  -- `raw` gives the formatted value of a key of the partner's profile, if it is there and not null.
  abbrev pub profile_value : (Text → Option Text) → Text → Text
  profile_value raw key = elim (raw key) [ none ↦ [] | some v ↦ trim_space v ]

  abbrev pub read_issuer : Text → (Text → Option Text) → IssuerSnapshot
  read_issuer partner_id raw = record {
    partner_id = trim_space partner_id;
    display_name = profile_value raw (codes "display_name");
    legal_name = profile_value raw (codes "legal_name");
    brand_name = profile_value raw (codes "brand_name");
    registration_number = profile_value raw (codes "registration_number");
    tax_id = profile_value raw (codes "tax_id");
    country = profile_value raw (codes "country");
    state_region = profile_value raw (codes "state_region");
    city = profile_value raw (codes "city");
    postal_code = profile_value raw (codes "postal_code");
    address_line1 = profile_value raw (codes "address_line1");
    address_line2 = profile_value raw (codes "address_line2");
    website = profile_value raw (codes "website");
    phone = profile_value raw (codes "phone");
    logo_url = profile_value raw (codes "logo_url");
    finance_email = to_lower (profile_value raw (codes "finance_contact_email"));
  }

  unfoldable pub named_issuer : IssuerSnapshot → IssuerSnapshot
  named_issuer i =
      let legal = (if is_empty i.legal_name then i.display_name else i.legal_name) in
      record i {
        legal_name = legal;
        display_name = if is_empty i.display_name then legal else i.display_name;
      }

  unfoldable pub normalize_issuer : Text → (Text → Option Text) → Result PartyError IssuerSnapshot
  normalize_issuer partner_id raw = do
    let i = named_issuer (read_issuer partner_id raw)
    reject_if
        (is_empty i.partner_id
          || is_empty i.legal_name
          || is_empty i.country
          || is_empty i.city
          || is_empty i.address_line1)
        issuer_incomplete
    reject_if (is_united_states i.country && (is_empty i.state_region || is_empty i.postal_code))
        issuer_us_address_missing
    ok i

  unfoldable pub validate_source_for_service : Text → Text → Result PartyError (Unit {0})
  validate_source_for_service service raw =
      let id = trim_space service in
      let source = to_upper (trim_space raw) in
      if text_eq source (source_text workflow)
      then reject_if (not (text_eq id (codes "workshop"))) workflow_by_workshop_only
      else if text_eq source (source_text schedule)
      then reject_if (not (text_eq id (codes "scheduler"))) schedule_by_scheduler_only
      else err bad_source_type
