-- ===== src/Partners/Tests.antt =====
-- Runs of the partners service on concrete input.
use himate_system.Base.{
  ℕ, ◌≡◌, ◌⊎◌, refl, Bool, true, false, Option, none, some, List, [], ◌∷◌, ◌++◌, Result, ok, err,
  Text, codes,
}
use himate_system.Base.Strings.Ascii.{ascii, evaluate_texts}
use himate_system.Partners.{
  Lifecycle, prospect, license_pending, ready_to_provision, provisioning, suspended, archived,
  read_lifecycle, can_transition, Partner, Change, Registry, PartnerError, license_required,
}
use himate_system.Partners.Company.{DetailsPatch, patched_details, NewDetails, new_details}
use himate_system.Partners.Slug.{dash_runs, drop_dashes, drop_last_dashes, partner_technical_slug}
use himate_system.Partners.Archive.{archive_compliance_tx}
use himate_system.Partners.Handlers.{
  PatchInput, NewPartner, check_patch, patch_tx, patch_partner, purge_tx, purge_operational_partner,
}
use himate_system.Partners.Create.{insert_partner, create_partner}
use himate_system.Partners.Serve.{Request, patch, purge, create, serve_all}
use himate_system.Partners.Refines.{lifecycle_of, log_of, Refines}
use himate_system.Partners.Archived.{KeepsArchives}
use himate_system.Partners.Secured.{Secured, serve_all-Secured}
use himate_system.Partners.Gated.{patch_partner-provisioning}

unfoldable evaluate_partners : Unit {0}
unfolding evaluate_texts read_lifecycle can_transition patched_details new_details dash_runs
    drop_dashes drop_last_dashes partner_technical_slug archive_compliance_tx check_patch patch_tx
    patch_partner purge_tx purge_operational_partner insert_partner create_partner
evaluate_partners = tt

abbrev blank : NewDetails
blank = record {
  display_name = [];
  legal_name = [];
  brand_name = [];
  category_id = [];
  primary_domain = [];
  contact_name = [];
  contact_email = [];
  finance_contact_name = [];
  finance_contact_email = [];
  technical_contact_name = [];
  technical_contact_email = [];
  marketing_contact_name = [];
  marketing_contact_email = [];
  registration_number = [];
  tax_id = [];
  country = [];
  state_region = [];
  city = [];
  postal_code = [];
  address_line1 = [];
  address_line2 = [];
  website = [];
  phone = [];
  notes = [];
}

abbrev no_change : DetailsPatch
no_change = record {
  display_name = none;
  legal_name = none;
  brand_name = none;
  category_id = none;
  primary_domain = none;
  staging_domain = none;
  contact_name = none;
  contact_email = none;
  finance_contact_name = none;
  finance_contact_email = none;
  technical_contact_name = none;
  technical_contact_email = none;
  marketing_contact_name = none;
  marketing_contact_email = none;
  registration_number = none;
  tax_id = none;
  country = none;
  state_region = none;
  city = none;
  postal_code = none;
  address_line1 = none;
  address_line2 = none;
  website = none;
  phone = none;
  logo_url = none;
  notes = none;
}

abbrev to_state : Text → PatchInput
to_state l = record { details = no_change; lifecycle = some l; test_partner = none; reason = [] }

abbrev named : Text → NewPartner
named name = record {
  display_name = name;
  details = blank;
  lifecycle = [];
  onboarding_request_id = codes "r";
}

abbrev known_category : Text → Bool
known_category c = true

abbrev lower : Text → Text
lower t = t

abbrev as_json : Text → Registry → Text
as_json id s = id

abbrev format_id : ℕ → Text
format_id n = codes "ptr_" ++ (n ∷ [])

abbrev p1 : Text
p1 = codes "ptr_1"

abbrev change_to : Text → Request
change_to l = patch 0 (codes "admin") (some true) p1 (some (to_state l))

abbrev empty : Registry
empty = record { partners = []; history = []; archives = []; partner_users = none; next = b'1' }

abbrev run : List Request → Registry → Registry
run rs s = serve_all lower known_category as_json lower format_id rs s

abbrev to_ready : List Request
to_ready =
    create (some (named (codes "Grand Hall")))
    ∷ change_to (codes "LICENSE_PENDING")
    ∷ change_to (codes "LIVE")
    ∷ change_to (codes " READY_TO_PROVISION ")
    ∷ []

abbrev ready : Registry
ready = run to_ready empty

abbrev states_of : List Change → List (Lifecycle × Lifecycle)
states_of [] = []
states_of (c ∷ cs) = (c.from_state, c.to_state) ∷ states_of cs

-- The request for LIVE is refused.
ready_history :
    states_of (log_of p1 ready)
    ≡ (prospect, license_pending) ∷ (license_pending, ready_to_provision) ∷ []
unfolding evaluate_partners
ready_history = refl

abbrev slugs : List Partner → List Text
slugs [] = []
slugs (p ∷ ps) = p.slug ∷ slugs ps

ready_slug : slugs ready.partners ≡ codes "grand-hall-1" ∷ []
unfolding evaluate_partners
ready_slug = refl

-- A second creation with the same request identifier adds nothing.
created_once : (run (create (some (named (codes "Other"))) ∷ []) ready).partners ≡ ready.partners
unfolding evaluate_partners
created_once = refl

abbrev start_provisioning : Option Bool → Registry → Result PartnerError Registry
start_provisioning gate s =
    patch_partner lower known_category as_json lower 0 (codes "admin") gate p1
      (some (to_state (codes "PROVISIONING"))) ready s

gate_refuses : start_provisioning (some false) ready ≡ err license_required
unfolding evaluate_partners
gate_refuses = refl

abbrev provisioned : Registry
provisioned = run (change_to (codes "PROVISIONING") ∷ []) ready

gate_allows : start_provisioning (some true) ready ≡ ok provisioned
unfolding evaluate_partners
gate_allows = refl

abbrev to_end : List Request
to_end = change_to (codes "SUSPENDED") ∷ purge 0 [] true p1 [] ∷ change_to (codes "LIVE") ∷ []

abbrev ended : Registry
ended = run to_end ready

ended_history :
    states_of (log_of p1 ended)
    ≡ (prospect, license_pending)
      ∷ (license_pending, ready_to_provision)
      ∷ (ready_to_provision, suspended)
      ∷ (suspended, archived)
      ∷ []
unfolding evaluate_partners
ended_history = refl

abbrev lifecycles : List Partner → List Lifecycle
lifecycles [] = []
lifecycles (p ∷ ps) = p.lifecycle ∷ lifecycles ps

abbrev states_after : Result PartnerError Registry → List Lifecycle
states_after (err e) = []
states_after (ok s) = lifecycles s.partners

-- A change that read the partner before it was archived takes it out of the archive again.
stale_change :
    (lifecycle_of p1 ended ≡ some archived)
    × (states_after (start_provisioning (some true) ended) ≡ provisioning ∷ [])
unfolding evaluate_partners
stale_change = (refl, refl)

ready-Secured : Secured p1 ready
unfolding evaluate_partners
ready-Secured = λ h. cc

serve_all-Secured_example : Secured p1 ended × KeepsArchives ready ended
serve_all-Secured_example =
    serve_all-Secured lower known_category as_json lower format_id p1 to_end ready ready-Secured

provisioned_state : lifecycle_of p1 provisioned ≡ some provisioning
unfolding evaluate_partners
provisioned_state = refl

patch_partner-provisioning_example :
    (lifecycle_of p1 ready ≡ some provisioning) ⊎ (some true ≡ some true)
patch_partner-provisioning_example =
    patch_partner-provisioning as_json lower lower known_category 0 (codes "admin") (some true) p1
      (some (to_state (codes "PROVISIONING"))) ready ready provisioned gate_allows provisioned_state
