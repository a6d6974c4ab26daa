-- ===== src/Partners/Create.antt =====
-- services/cmd/partners/main.go, the POST of partners. The onboarding request and the domain are looked up in
-- the registry that was read (`before`), the row is written to `s`.
use himate_system.Base.{
  ℕ, suc, ◌==◌, Bool, false, not, ◌&&◌, ◌||◌, Option, none, some, List, [], ◌∷◌, ◌++◌,
  if◌then◌else◌, find, count, Result, ok, err, leb, Text, codes, is_empty, byte_len, text_eq,
  Unicode, trim_space,
}
use himate_system.Partners.{
  prospect, Partner, Registry, PartnerError, bad_json, validation, database, domain_exists,
}
use himate_system.Partners.Company.{new_details}
use himate_system.Partners.Slug.{partner_technical_slug}
use himate_system.Partners.Handlers.{NewPartner, same_domain, violates}

module _ (lower : Text → Text) (known_category : Text → Bool) where
  abbrev pub has_request : Text → Partner → Bool
  has_request request p = text_eq p.onboarding_request_id request

  -- The partner that an onboarding request has made, if it has an identifier.
  abbrev pub requested : Text → Registry → Option Partner
  requested request s = if is_empty request then none else find (has_request request) s.partners

  module _ (format_id : ℕ → Text) where
    abbrev pub new_row : ⦃u : Unicode⦄ → ℕ → Text → NewPartner → Partner
    new_row seq name input = record {
      id = format_id seq;
      slug = partner_technical_slug name (format_id seq);
      details = new_details name input.details;
      lifecycle = prospect;
      system_health = codes "UNKNOWN";
      onboarding_request_id = trim_space input.onboarding_request_id;
      test_partner = false;
    }

    abbrev pub insertion_fails : Partner → List Partner → Bool
    insertion_fails p partners =
        not (count (λ q. text_eq q.id p.id || text_eq q.slug p.slug) partners == 0)
        || violates lower known_category p.id p.details partners
        || (not (is_empty p.onboarding_request_id)
            && not (count (has_request p.onboarding_request_id) partners == 0))

    -- After a failed insertion the request is looked up again.
    abbrev pub recover : Option Partner → Registry → Result PartnerError Partner × Registry
    recover none s = (err database, s)
    recover (some p) s = (ok p, s)

    unfoldable pub insert_partner : Partner → Registry → Result PartnerError Partner × Registry
    insert_partner p s =
        if insertion_fails p s.partners
        then recover (requested p.onboarding_request_id s) s
        else (ok p, record s { partners = s.partners ++ (p ∷ []) })

    abbrev pub has_domain : Text → Partner → Bool
    has_domain domain p = same_domain lower known_category domain p.details.primary_domain

    -- A new number is taken before the domain is looked up, and stays taken.
    abbrev pub create_new :
        ⦃u : Unicode⦄
        → Text
        → NewPartner
        → Registry
        → Registry
        → Result PartnerError Partner × Registry
    create_new name input before s =
        let p = new_row s.next name input in
        let s1 = record s { next = suc s.next } in
        if not (count (has_domain p.details.primary_domain) before.partners == 0)
        then (err domain_exists, s1)
        else insert_partner p s1

    abbrev pub create_unless_requested :
        ⦃u : Unicode⦄
        → Option Partner
        → Text
        → NewPartner
        → Registry
        → Registry
        → Result PartnerError Partner × Registry
    create_unless_requested (some p) name input before s = (ok p, s)
    create_unless_requested none name input before s =
        if not (is_empty input.lifecycle) && not (text_eq input.lifecycle (codes "PROSPECT"))
        then (err validation, s)
        else create_new name input before s

    unfoldable pub create_partner :
        ⦃u : Unicode⦄
        → Option NewPartner
        → Registry
        → Registry
        → Result PartnerError Partner × Registry
    create_partner none before s = (err bad_json, s)
    create_partner (some input) before s =
        let name = trim_space input.display_name in
        let request = trim_space input.onboarding_request_id in
        if is_empty name || not (leb (byte_len request) 160)
        then (err validation, s)
        else create_unless_requested (requested request before) name input before s
