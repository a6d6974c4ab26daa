-- ===== src/TenantFinance/Parties/Tests.antt =====
-- Runs of the normalisation of an invoice's parties on concrete input.
use himate_system.Base.{
  ◌≡◌, refl, true, Option, none, some, ok, err, Text, codes, text_eq, if◌then◌else◌, [],
}
use himate_system.Base.Strings.Ascii.{ascii, evaluate_texts}
use himate_system.TenantFinance.Parties.{
  CustomerSnapshot, IssuerSnapshot, normalize_customer, named_customer, require_billing_address,
  is_united_states, normalize_issuer, named_issuer, validate_source_for_service,
  customer_us_address_missing,
}

abbrev shop : CustomerSnapshot
shop = record {
  display_name = codes " ";
  company_name = codes "Shop Inc ";
  email = codes "A@Shop.com";
  phone = [];
  tax_id = [];
  country = codes "usa";
  state_region = codes "TX";
  city = codes "Austin";
  postal_code = codes "73301";
  address_line1 = codes "1 Main St";
  address_line2 = [];
}

abbrev shop_named : CustomerSnapshot
shop_named = record shop {
  display_name = codes "Shop Inc";
  company_name = codes "Shop Inc";
  email = codes "a@shop.com";
}

normalize_shop : normalize_customer shop true ≡ ok shop_named
unfolding normalize_customer named_customer require_billing_address is_united_states evaluate_texts
normalize_shop = refl

us_needs_state :
    normalize_customer (record shop { state_region = [] }) true ≡ err customer_us_address_missing
unfolding normalize_customer named_customer require_billing_address is_united_states evaluate_texts
us_needs_state = refl

abbrev profile : Text → Option Text
profile key =
    if text_eq key (codes "display_name")
    then some (codes "Garage")
    else if text_eq key (codes "country")
    then some (codes " Hungary")
    else if text_eq key (codes "city")
    then some (codes "Pest")
    else if text_eq key (codes "address_line1")
    then some (codes "2 Fo u.")
    else none

abbrev garage : IssuerSnapshot
garage = record {
  partner_id = codes "p1";
  display_name = codes "Garage";
  legal_name = codes "Garage";
  brand_name = [];
  registration_number = [];
  tax_id = [];
  country = codes "Hungary";
  state_region = [];
  city = codes "Pest";
  postal_code = [];
  address_line1 = codes "2 Fo u.";
  address_line2 = [];
  website = [];
  phone = [];
  logo_url = [];
  finance_email = [];
}

normalize_garage : normalize_issuer (codes "p1 ") profile ≡ ok garage
unfolding normalize_issuer named_issuer is_united_states evaluate_texts
normalize_garage = refl

workshop_accepted : validate_source_for_service (codes "workshop") (codes "workflow") ≡ ok tt
unfolding validate_source_for_service evaluate_texts
workshop_accepted = refl
