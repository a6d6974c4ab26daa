-- ===== src/Partners/Serve.antt =====
-- services/cmd/partners/main.go, partnerByID and partners: the requests of the service, one after the other.
use himate_system.Base.{ℕ, Bool, Option, List, [], ◌∷◌, Result, ok, err, Text, Unicode}
use himate_system.Partners.{Registry, PartnerError, ComplianceArchive}
use himate_system.Partners.Handlers.{
  PatchInput, NewPartner, patch_partner, purge_operational_partner,
}
use himate_system.Partners.Create.{create_partner}

-- With the clock, the user of the call, the gate's answer, the identifier in the path and the decoded body.
pub data Request : Type 0 where
  patch : ℕ → Text → Option Bool → Text → Option PatchInput → Request
  purge : ℕ → Text → Bool → Text → Text → Request
  create : Option NewPartner → Request

abbrev pub after_patch : Result PartnerError Registry → Registry → Registry
after_patch (err e) s = s
after_patch (ok s') s = s'

abbrev pub after_purge : Result PartnerError (ComplianceArchive × Registry) → Registry → Registry
after_purge (err e) s = s
after_purge (ok (a, s')) s = s'

module _ ⦃u : Unicode⦄ (lower : Text → Text) (known_category : Text → Bool)
    (canonical : Text → Registry → Text) (sha : Text → Text) (format_id : ℕ → Text) where
  -- A transaction that fails leaves the registry as it was.
  abbrev pub serve : Request → Registry → Registry
  serve (patch now actor gate id body) s =
      after_patch (patch_partner lower known_category canonical sha now actor gate id body s s) s
  serve (purge now actor post id reason) s =
      after_purge
        (purge_operational_partner lower known_category canonical sha now actor post id reason s s)
        s
  serve (create body) s = (create_partner lower known_category format_id body s s).1

  abbrev pub serve_all : List Request → Registry → Registry
  serve_all [] s = s
  serve_all (r ∷ rs) s = serve_all rs (serve r s)
