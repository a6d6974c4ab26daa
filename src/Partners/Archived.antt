-- ===== src/Partners/Archived.antt =====
-- What the compliance archive and the history get from a change.
use mathlib.Core.Path.{subst}
use himate_system.Base.{
  ℕ, ◌≡◌, refl, inl, inr, Bool, true, false, Bool-cases, Option, none, some, [], ◌∷◌, ◌++◌, find,
  find-concat_self, find-append_some, text_eq_refl, ok, >>=-eq-ok, Text, is_empty, trim_space,
}
use himate_system.Partners.{
  archived, same_lifecycle, Partner, Change, ComplianceArchive, Registry, has_partner_id,
  archive_of,
}
use himate_system.Partners.Archive.{
  archive_row, insert_archive, archive_partner, archive_compliance_tx,
}
use himate_system.Partners.Handlers.{record_change}

-- The archive is there, or nothing was archived.
abbrev pub Sealed : Text → Registry → Type 0
Sealed id s = (a : ComplianceArchive) × (find (archive_of (trim_space id)) s.archives ≡ some a)

-- Archives that are there stay.
abbrev pub KeepsArchives : Registry → Registry → Type 0
KeepsArchives s s' =
    (id : Text) (a : ComplianceArchive)
    → find (archive_of id) s.archives ≡ some a
    → find (archive_of id) s'.archives ≡ some a

abbrev pub Archived : Text → ComplianceArchive → Registry → Registry → Type 0
Archived id a s s' =
    (s'.partners ≡ s.partners)
    × (s'.history ≡ s.history)
    × KeepsArchives s s'
    × (find (archive_of id) s'.archives ≡ some a)

module _ (canonical : Text → Registry → Text) (sha : Text → Text) where
  insert_archive-Archived :
      (o : Option ComplianceArchive) (row : ComplianceArchive) (s : Registry)
      → find (archive_of row.partner_id) s.archives ≡ o
      → let (a, s') = insert_archive canonical sha o row s in Archived row.partner_id a s s'
  insert_archive-Archived (some old) row s h = (refl, refl, λ id a f. f, h)
  insert_archive-Archived none row s h = (
    refl,
    refl,
    λ id a f. find-append_some (archive_of id) s.archives (row ∷ []) a f,
    find-concat_self (archive_of row.partner_id) s.archives row h (text_eq_refl row.partner_id),
  )

  archive_partner-Archived :
      (o : Option Partner) (now : ℕ) (id actor reason : Text) (s s' : Registry)
      (a : ComplianceArchive)
      → archive_partner canonical sha o now id actor reason s ≡ ok (a, s')
      → Archived id a s s'
  archive_partner-Archived none now id actor reason s s' a h = cc
  archive_partner-Archived (some p) now id actor reason s s' a h =
      let row = archive_row canonical sha now id actor reason p s in
      let same : insert_archive canonical sha (find (archive_of id) s.archives) row s ≡ (a, s') =
        cc in
      subst (λ (r : ComplianceArchive × Registry). Archived id r.0 s r.1) same
        (insert_archive-Archived (find (archive_of id) s.archives) row s refl)

  pub archive_compliance_tx-Archived :
      (now : ℕ) (raw actor reason : Text) (s s' : Registry) (a : ComplianceArchive)
      → archive_compliance_tx canonical sha now raw actor reason s ≡ ok (a, s')
      → Archived (trim_space raw) a s s'
  unfolding archive_compliance_tx
  archive_compliance_tx-Archived now raw actor reason s s' a h =
      elim (Bool-cases (is_empty (trim_space raw))) [
        | inl blank ↦ cc (rw blank at h)
        | inr named ↦
            archive_partner-Archived (find (has_partner_id (trim_space raw)) s.partners) now
              (trim_space raw) actor reason s s' a (rw named at h)
      ]

  module _ (lower : Text → Text) (known_category : Text → Bool) where
    -- The history row and the archive of a change.
    pub record_change-Archived :
        (now : ℕ) (missing : Bool) (c : Change) (s s' : Registry)
        → record_change lower known_category canonical sha now missing c s ≡ ok s'
        → (s'.partners ≡ s.partners)
          × (s'.history ≡ s.history ++ (c ∷ []))
          × KeepsArchives s s'
          × (c.to_state ≡ archived → Sealed c.partner_id s')
    record_change-Archived now true c s s' h = cc
    record_change-Archived now false c s s' h =
        elim (Bool-cases (same_lifecycle c.to_state archived)) [
          | inr other ↦
              let same : record s { history = s.history ++ (c ∷ []) } ≡ s' = cc (rw other at h) in
              rw (← same) (refl, refl, λ id a f. f, λ is_archived. cc (rw is_archived at other))
          | inl ended ↦
              let (r, done, last) =
                >>=-eq-ok
                  (archive_compliance_tx canonical sha now c.partner_id c.changed_by c.reason
                    (record s { history = s.history ++ (c ∷ []) }))
                  _ (rw ended at h) in
              let (a, b, keeps, found) =
                archive_compliance_tx-Archived now c.partner_id c.changed_by c.reason
                  (record s { history = s.history ++ (c ∷ []) }) r.1 r.0 done in
              let same : r.1 ≡ s' = cc in rw (← same) (a, b, keeps, λ _. (r.0, found))
        ]
