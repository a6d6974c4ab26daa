-- ===== src/Partners/Handlers.antt =====
-- services/cmd/partners/main.go: the change of a partner and its operational purge. A
-- handler that reads before its transaction gets the registry that it read (`before`) apart from the one that it
-- writes to (`s`). The answer of the billing gate is an argument: `none` if it cannot be asked.
use himate_system.Base.{
  ℕ, ◌==◌, Bool, true, false, not, ◌&&◌, ◌||◌, Option, none, some, List, [], ◌∷◌, ◌++◌,
  if◌then◌else◌, find, count, update_where, delete_where, Result, ok, err, ◌>>=◌, ◌>>◌, reject_if,
  Text, codes, is_empty, text_eq, Unicode, trim_space,
}
use himate_system.Partners.{
  Lifecycle, live, suspended, archived, same_lifecycle, read_lifecycle, can_transition,
  requires_provisioning_gate, Partner, Change, ComplianceArchive, Registry, PartnerError, bad_json,
  validation, not_found, golden_immutable, invalid_transition, gate_unavailable, license_required,
  conflict, database, not_suspended, method_not_allowed, has_partner_id,
}
use himate_system.Partners.Company.{Details, DetailsPatch, patched_details, NewDetails}
use himate_system.Partners.Archive.{or_text, archive_compliance_tx}

pub record PatchInput : Type 0 where
  pub details : DetailsPatch
  pub lifecycle : Option Text
  pub test_partner : Option Bool
  pub reason : Text

pub record NewPartner : Type 0 where
  pub display_name : Text
  pub details : NewDetails
  pub lifecycle : Text
  pub onboarding_request_id : Text

abbrev pub becomes_test : Option Bool → Bool → Bool
becomes_test none old = old
becomes_test (some new) old = new

-- The golden test partner cannot be made an ordinary one.
abbrev pub leaves_test : Option Bool → Bool → Bool
leaves_test none old = false
leaves_test (some new) old = old && not new

abbrev pub golden_activation : PatchInput → Partner → Bool
golden_activation input p = not p.test_partner && becomes_test input.test_partner p.test_partner

abbrev pub given_lifecycle : Option Text → Lifecycle → Option Lifecycle
given_lifecycle none old = some old
given_lifecycle (some t) old = read_lifecycle (trim_space t)

-- The lifecycle that a request asks for; `none` if it is not a value of the column.
abbrev pub asked_lifecycle : PatchInput → Partner → Option Lifecycle
asked_lifecycle input p =
    if golden_activation input p then some live else given_lifecycle input.lifecycle p.lifecycle

abbrev pub expect_lifecycle : Option Lifecycle → Result PartnerError Lifecycle
expect_lifecycle none = err validation
expect_lifecycle (some l) = ok l

abbrev pub gate_passes : Option Bool → Result PartnerError (Unit {0})
gate_passes none = err gate_unavailable
gate_passes (some false) = err license_required
gate_passes (some true) = ok tt

module _ ⦃u : Unicode⦄ where
  -- The tests of a `PATCH` before its transaction, and the row that it is to write.
  unfoldable pub check_patch : Option Bool → PatchInput → Partner → Result PartnerError Partner
  check_patch gate input p = do
    reject_if (leaves_test input.test_partner p.test_partner) golden_immutable
    let details = patched_details input.details p.details
    reject_if (is_empty details.display_name) validation
    lifecycle ← expect_lifecycle (asked_lifecycle input p)
    reject_if (not (golden_activation input p) && not (can_transition p.lifecycle lifecycle))
        invalid_transition
    if not (golden_activation input p) && requires_provisioning_gate p.lifecycle lifecycle
        then gate_passes gate
        else ok tt
    ok (record p {
      details = details;
      lifecycle = lifecycle;
      test_partner = becomes_test input.test_partner p.test_partner;
    })

-- What an `UPDATE` of a partner writes: all columns that a request can change.
abbrev pub write_row : Partner → Partner → Partner
write_row q p = record p {
  details = q.details;
  lifecycle = q.lifecycle;
  test_partner = q.test_partner;
}

abbrev pub archive_row_of : Text → Partner → Partner
archive_row_of health p = record p { lifecycle = archived; system_health = health }

-- `lower` is the database's, and `known_category` says which categories there are.
module _ (lower : Text → Text) (known_category : Text → Bool) where
  abbrev pub same_domain : Text → Text → Bool
  same_domain a b = not (is_empty a) && not (is_empty b) && text_eq (lower a) (lower b)

  abbrev pub clashes : Details → Partner → Bool
  clashes d p =
      same_domain d.primary_domain p.details.primary_domain
      || same_domain d.staging_domain p.details.staging_domain

  -- The unique indexes on domains, and the reference to a category.
  abbrev pub violates : Text → Details → List Partner → Bool
  violates id d partners =
      not (known_category d.category_id)
      || not (count (λ p. not (text_eq p.id id) && clashes d p) partners == 0)

  module _ (canonical : Text → Registry → Text) (sha : Text → Text) where
    -- The history row of a change of the lifecycle, and the archive of an archived partner.
    abbrev pub record_change : ℕ → Bool → Change → Registry → Result PartnerError Registry
    record_change now missing c s =
        if missing
        then err database
        else let s1 = record s { history = s.history ++ (c ∷ []) } in
          if same_lifecycle c.to_state archived
          then archive_compliance_tx canonical sha now c.partner_id c.changed_by c.reason s1
            >>= (λ r. ok r.1)
          else ok s1

    abbrev pub change_reason : Bool → Text → Text
    change_reason golden given =
        or_text
          (if golden
            then codes "Golden Test Partner activation"
            else codes "HIMATE administrator lifecycle update")
          given

    -- The transaction of a `PATCH`: `p` is the row that was read and `q` the one to write.
    unfoldable pub patch_tx :
        ℕ → Text → Bool → Text → Partner → Partner → Registry → Result PartnerError Registry
    patch_tx now actor golden reason p q s =
        let missing = count (has_partner_id p.id) s.partners == 0 in
        if not missing && violates p.id q.details s.partners
        then err conflict
        else let s1 = record s {
          partners = update_where (has_partner_id p.id) (write_row q) s.partners;
        } in
          if same_lifecycle p.lifecycle q.lifecycle
          then ok s1
          else record_change now missing
              (record {
                partner_id = p.id;
                from_state = p.lifecycle;
                to_state = q.lifecycle;
                changed_by = trim_space actor;
                reason = change_reason golden reason;
              })
              s1

    abbrev pub expect_partner : Option Partner → Result PartnerError Partner
    expect_partner none = err not_found
    expect_partner (some p) = ok p

    abbrev pub expect_body : {A : Type 0} → Option A → Result PartnerError A
    expect_body none = err bad_json
    expect_body (some a) = ok a

    abbrev pub patched_partner :
        ⦃u : Unicode⦄
        → ℕ
        → Text
        → Option Bool
        → Result PartnerError Partner
        → Result PartnerError PatchInput
        → Registry
        → Result PartnerError Registry
    patched_partner now actor gate found body s = do
      p ← found
      input ← body
      q ← check_patch gate input p
      patch_tx now actor (golden_activation input p) input.reason p q s

    unfoldable pub patch_partner :
        ⦃u : Unicode⦄
        → ℕ
        → Text
        → Option Bool
        → Text
        → Option PatchInput
        → Registry
        → Registry
        → Result PartnerError Registry
    patch_partner now actor gate id body before s =
        patched_partner now actor gate (expect_partner (find (has_partner_id id) before.partners))
          (expect_body body) s

    abbrev pub purged_users : Text → Option (List Text) → Option (List Text)
    purged_users id none = none
    purged_users id (some users) = some (delete_where (λ u. text_eq u id) users)

    -- The change of a partner that is not archived yet.
    abbrev pub purge_row : Text → Text → Partner → Registry → Result PartnerError Registry
    purge_row actor reason p s =
        if same_lifecycle p.lifecycle archived
        then ok s
        else if count (has_partner_id p.id) s.partners == 0
        then err database
        else ok (record s {
          partners =
              update_where (has_partner_id p.id) (archive_row_of (codes "ARCHIVED")) s.partners;
          history =
              s.history
              ++ (record {
                partner_id = p.id;
                from_state = p.lifecycle;
                to_state = archived;
                changed_by = actor;
                reason = reason;
              }
                  ∷ []);
        })

    -- The transaction of a purge: the logins, the row, the archive.
    unfoldable pub purge_tx :
        ℕ → Text → Text → Partner → Registry → Result PartnerError (ComplianceArchive × Registry)
    purge_tx now actor reason p s = do
      let who = or_text (codes "system") actor
      let why = or_text (codes "Operational account purge") reason
      s1 ← purge_row who why p (record s { partner_users = purged_users p.id s.partner_users })
      archive_compliance_tx canonical sha now p.id who why s1

    unfoldable pub purge_operational_partner :
        ℕ
        → Text
        → Bool
        → Text
        → Text
        → Registry
        → Registry
        → Result PartnerError (ComplianceArchive × Registry)
    purge_operational_partner now actor post id reason before s = do
      reject_if (not post) method_not_allowed
      p ← expect_partner (find (has_partner_id id) before.partners)
      reject_if
          (not (same_lifecycle p.lifecycle suspended) && not (same_lifecycle p.lifecycle archived))
          not_suspended
      purge_tx now actor reason p s
