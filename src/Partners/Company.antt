-- ===== src/Partners/Company.antt =====
-- services/cmd/partners/main.go: what a partner's row says of the company, and how a request changes it.
use himate_system.Base.{
  Option, none, some, Text, codes, is_empty, Unicode, to_lower, trim_space, if◌then◌else◌, [],
}

pub record Details : Type 0 where
  pub display_name : Text
  pub legal_name : Text
  pub brand_name : Text
  pub category_id : Text
  pub primary_domain : Text
  pub staging_domain : Text
  pub contact_name : Text
  pub contact_email : Text
  pub finance_contact_name : Text
  pub finance_contact_email : Text
  pub technical_contact_name : Text
  pub technical_contact_email : Text
  pub marketing_contact_name : Text
  pub marketing_contact_email : Text
  pub registration_number : Text
  pub tax_id : Text
  pub country : Text
  pub state_region : Text
  pub city : Text
  pub postal_code : Text
  pub address_line1 : Text
  pub address_line2 : Text
  pub website : Text
  pub phone : Text
  pub logo_url : Text
  pub notes : Text

-- The texts of a `PATCH`.
pub record DetailsPatch : Type 0 where
  pub display_name : Option Text
  pub legal_name : Option Text
  pub brand_name : Option Text
  pub category_id : Option Text
  pub primary_domain : Option Text
  pub staging_domain : Option Text
  pub contact_name : Option Text
  pub contact_email : Option Text
  pub finance_contact_name : Option Text
  pub finance_contact_email : Option Text
  pub technical_contact_name : Option Text
  pub technical_contact_email : Option Text
  pub marketing_contact_name : Option Text
  pub marketing_contact_email : Option Text
  pub registration_number : Option Text
  pub tax_id : Option Text
  pub country : Option Text
  pub state_region : Option Text
  pub city : Option Text
  pub postal_code : Option Text
  pub address_line1 : Option Text
  pub address_line2 : Option Text
  pub website : Option Text
  pub phone : Option Text
  pub logo_url : Option Text
  pub notes : Option Text

-- `set`: a value that is given replaces the old one.
abbrev pub patched : Option Text → Text → Text
patched none old = old
patched (some new) old = trim_space new

unfoldable pub patched_details : ⦃u : Unicode⦄ → DetailsPatch → Details → Details
patched_details input d = record {
  display_name = patched input.display_name d.display_name;
  legal_name = patched input.legal_name d.legal_name;
  brand_name = patched input.brand_name d.brand_name;
  category_id = patched input.category_id d.category_id;
  primary_domain = patched input.primary_domain d.primary_domain;
  staging_domain = patched input.staging_domain d.staging_domain;
  contact_name = patched input.contact_name d.contact_name;
  contact_email = to_lower (patched input.contact_email d.contact_email);
  finance_contact_name = patched input.finance_contact_name d.finance_contact_name;
  finance_contact_email = to_lower (patched input.finance_contact_email d.finance_contact_email);
  technical_contact_name = patched input.technical_contact_name d.technical_contact_name;
  technical_contact_email =
      to_lower (patched input.technical_contact_email d.technical_contact_email);
  marketing_contact_name = patched input.marketing_contact_name d.marketing_contact_name;
  marketing_contact_email =
      to_lower (patched input.marketing_contact_email d.marketing_contact_email);
  registration_number = patched input.registration_number d.registration_number;
  tax_id = patched input.tax_id d.tax_id;
  country = patched input.country d.country;
  state_region = patched input.state_region d.state_region;
  city = patched input.city d.city;
  postal_code = patched input.postal_code d.postal_code;
  address_line1 = patched input.address_line1 d.address_line1;
  address_line2 = patched input.address_line2 d.address_line2;
  website = patched input.website d.website;
  phone = patched input.phone d.phone;
  logo_url = patched input.logo_url d.logo_url;
  notes = patched input.notes d.notes;
}

-- The texts of a `POST` that are stored as they come, but for spaces and the case of addresses. The other
-- columns keep their default.
pub record NewDetails : Type 0 where
  pub display_name : Text
  pub legal_name : Text
  pub brand_name : Text
  pub category_id : Text
  pub primary_domain : Text
  pub contact_name : Text
  pub contact_email : Text
  pub finance_contact_name : Text
  pub finance_contact_email : Text
  pub technical_contact_name : Text
  pub technical_contact_email : Text
  pub marketing_contact_name : Text
  pub marketing_contact_email : Text
  pub registration_number : Text
  pub tax_id : Text
  pub country : Text
  pub state_region : Text
  pub city : Text
  pub postal_code : Text
  pub address_line1 : Text
  pub address_line2 : Text
  pub website : Text
  pub phone : Text
  pub notes : Text

abbrev pub or_name : Text → Text → Text
or_name given name = if is_empty (trim_space given) then name else trim_space given

-- `name` is the trimmed display name.
unfoldable pub new_details : ⦃u : Unicode⦄ → Text → NewDetails → Details
new_details name input = record {
  display_name = name;
  legal_name = or_name input.legal_name name;
  brand_name = or_name input.brand_name name;
  category_id = if is_empty input.category_id then codes "cat_006" else input.category_id;
  primary_domain = trim_space input.primary_domain;
  staging_domain = [];
  contact_name = trim_space input.contact_name;
  contact_email = to_lower (trim_space input.contact_email);
  finance_contact_name = trim_space input.finance_contact_name;
  finance_contact_email = to_lower (trim_space input.finance_contact_email);
  technical_contact_name = trim_space input.technical_contact_name;
  technical_contact_email = to_lower (trim_space input.technical_contact_email);
  marketing_contact_name = trim_space input.marketing_contact_name;
  marketing_contact_email = to_lower (trim_space input.marketing_contact_email);
  registration_number = trim_space input.registration_number;
  tax_id = trim_space input.tax_id;
  country = trim_space input.country;
  state_region = trim_space input.state_region;
  city = trim_space input.city;
  postal_code = trim_space input.postal_code;
  address_line1 = trim_space input.address_line1;
  address_line2 = trim_space input.address_line2;
  website = trim_space input.website;
  phone = trim_space input.phone;
  logo_url = [];
  notes = trim_space input.notes;
}
