-- ===== src/Partners/Archive.antt =====
-- services/cmd/partners/compliance_archive.go: the compliance archive. What the tables hold of a partner, as
-- canonical JSON, and its hash are parameters.
use himate_system.Base.{
  ℕ, Bool, Option, none, some, [], ◌∷◌, ◌++◌, find, if◌then◌else◌, Result, ok, err, Text, codes,
  is_empty, text_eq, trim_space, true, false,
}
use himate_system.Partners.{
  Partner, ComplianceArchive, Registry, PartnerError, compliance_archive, has_partner_id,
  archive_of,
}

-- complianceIntegrity of complianceArchiveMap.
pub data Integrity : Type 0 where
  sealed mismatch integral : Integrity

abbrev pub or_text : Text → Text → Text
or_text word given = if is_empty (trim_space given) then word else trim_space given

module _ (canonical : Text → Registry → Text) (sha : Text → Text) where
  abbrev pub archive_row : ℕ → Text → Text → Text → Partner → Registry → ComplianceArchive
  archive_row now id actor reason p s = record {
    partner_id = id;
    display_name = p.details.display_name;
    legal_name = p.details.legal_name;
    archive_reason = or_text (codes "Partner lifecycle archived") reason;
    created_by = or_text (codes "system") actor;
    archived_at = now;
    payload = canonical id s;
    payload_sha256 = sha (canonical id s);
  }

  -- `ON CONFLICT DO NOTHING`, and the row that is then there.
  abbrev pub insert_archive :
      Option ComplianceArchive → ComplianceArchive → Registry → ComplianceArchive × Registry
  insert_archive (some old) row s = (old, s)
  insert_archive none row s = (row, record s { archives = s.archives ++ (row ∷ []) })

  abbrev pub archive_partner :
      Option Partner
      → ℕ
      → Text
      → Text
      → Text
      → Registry
      → Result PartnerError (ComplianceArchive × Registry)
  archive_partner none now id actor reason s = err compliance_archive
  archive_partner (some p) now id actor reason s =
      ok (insert_archive (find (archive_of id) s.archives) (archive_row now id actor reason p s) s)

  unfoldable pub archive_compliance_tx :
      ℕ → Text → Text → Text → Registry → Result PartnerError (ComplianceArchive × Registry)
  archive_compliance_tx now raw actor reason s =
      let id = trim_space raw in
      if is_empty id
      then err compliance_archive
      else archive_partner (find (has_partner_id id) s.partners) now id actor reason s

-- complianceArchiveMap of a stored row.
abbrev pub integrity_of : (Text → Text) → Bool → ComplianceArchive → Integrity
integrity_of sha false a = sealed
integrity_of sha true a = if text_eq (sha a.payload) a.payload_sha256 then integral else mismatch
