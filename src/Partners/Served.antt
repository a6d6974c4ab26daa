-- ===== src/Partners/Served.antt =====
-- What every request of the partners service writes.
use himate_system.Base.{
  ℕ, suc, ◌==◌, ◌≡◌, refl, inl, inr, Bool, false, not, ◌&&◌, ◌||◌, Bool-cases, Option, none, some,
  arith, find-absent, count, Result, ok, err, Text, is_empty, text_eq, Unicode, trim_space, codes,
  byte_len, leb,
}
use himate_system.Partners.{
  prospect, Partner, ComplianceArchive, Registry, PartnerError, has_partner_id,
}
use himate_system.Partners.Handlers.{NewPartner, patch_partner, purge_operational_partner}
use himate_system.Partners.Create.{
  new_row, requested, recover, insertion_fails, insert_partner, has_domain, create_new,
  create_unless_requested, create_partner,
}
use himate_system.Partners.Serve.{Request, patch, purge, create, after_patch, after_purge, serve}
use himate_system.Partners.Written.{
  Written, created, kept, changed, untouched, patch_partner-Written,
  purge_operational_partner-Written,
}

module _ (lower : Text → Text) (known_category : Text → Bool) (format_id : ℕ → Text) where
  insert_partner-Written :
      (p : Partner) (s : Registry)
      → p.lifecycle ≡ prospect
      → p.test_partner ≡ false
      → Written s (insert_partner lower known_category format_id p s).1
  unfolding insert_partner
  insert_partner-Written p s new ordinary =
      elim (Bool-cases (insertion_fails lower known_category format_id p s.partners)) [
        | inl fails ↦
            rw fails (recover-Written (requested lower known_category p.onboarding_request_id s) s)
        | inr passes ↦ rw passes (
            created p new ordinary
              (find-absent (λ q. text_eq q.id p.id || text_eq q.slug p.slug) (has_partner_id p.id)
                s.partners (λ x same. rw same refl) (ground (arith, passes)))
              refl refl (λ id a f. f))
      ]
    where
      recover-Written :
          (o : Option Partner) (s : Registry)
          → Written s (recover lower known_category format_id o s).1
      recover-Written none s = untouched refl refl (λ id a f. f)
      recover-Written (some p) s = untouched refl refl (λ id a f. f)

  create_new-Written :
      ⦃u : Unicode⦄ (name : Text) (input : NewPartner) (before s : Registry)
      → Written s (create_new lower known_category format_id name input before s).1
  create_new-Written name input before s =
      let p = new_row lower known_category format_id s.next name input in
      elim (Bool-cases (
        count (has_domain lower known_category format_id p.details.primary_domain) before.partners
        == 0)) [
          | inr taken ↦ rw taken (untouched refl refl (λ id a f. f))
          | inl free ↦ rw free (
              renumbered (suc s.next) s
                (insert_partner-Written p (record s { next = suc s.next }) refl refl))
        ]
    where
      -- The sequence is no part of what is written.
      renumbered :
          (n : ℕ) (s : Registry) {s' : Registry} → Written (record s { next = n }) s' → Written s s'
      renumbered n s (created p a b c d e g) = created p a b c d e g
      renumbered n s (kept p f a b c d e g h) = kept p f a b c d e g h
      renumbered n s (changed p f c a b d e g h i j k l) = changed p f c a b d e g h i j k l
      renumbered n s (untouched a b c) = untouched a b c

  create_partner-Written :
      ⦃u : Unicode⦄ (body : Option NewPartner) (before s : Registry)
      → Written s (create_partner lower known_category format_id body before s).1
  unfolding create_partner
  create_partner-Written none before s = untouched refl refl (λ id a f. f)
  create_partner-Written (some input) before s =
      let name = trim_space input.display_name in
      let request = trim_space input.onboarding_request_id in
      elim (Bool-cases (is_empty name || not (leb (byte_len request) 160))) [
        | inl bad ↦ rw bad (untouched refl refl (λ id a f. f))
        | inr good ↦ rw good (
            unless_requested-Written (requested lower known_category request before) name input
              before s)
      ]
    where
      unless_requested-Written :
          (o : Option Partner) (name : Text) (input : NewPartner) (before s : Registry)
          → Written s
              (create_unless_requested lower known_category format_id o name input before s).1
      unless_requested-Written (some p) name input before s = untouched refl refl (λ id a f. f)
      unless_requested-Written none name input before s =
          elim (Bool-cases
            (not (is_empty input.lifecycle) && not (text_eq input.lifecycle (codes "PROSPECT")))) [
              | inl bad ↦ rw bad (untouched refl refl (λ id a f. f))
              | inr good ↦ rw good (create_new-Written name input before s)
            ]

  module _ (canonical : Text → Registry → Text) (sha : Text → Text) where
    after_patch-Written :
        (r : Result PartnerError Registry) (s : Registry)
        → ((s' : Registry) → r ≡ ok s' → Written s s')
        → Written s (after_patch r s)
    after_patch-Written (err e) s h = untouched refl refl (λ id a f. f)
    after_patch-Written (ok s') s h = h s' refl

    after_purge-Written :
        (r : Result PartnerError (ComplianceArchive × Registry)) (s : Registry)
        → ((a : ComplianceArchive) (s' : Registry) → r ≡ ok (a, s') → Written s s')
        → Written s (after_purge r s)
    after_purge-Written (err e) s h = untouched refl refl (λ id a f. f)
    after_purge-Written (ok (a, s')) s h = h a s' refl

    pub serve-Written :
        ⦃u : Unicode⦄ (r : Request) (s : Registry)
        → Written s (serve lower known_category canonical sha format_id r s)
    serve-Written (patch now actor gate id body) s =
        after_patch-Written
          (patch_partner lower known_category canonical sha now actor gate id body s s) s
          (λ s' h.
            patch_partner-Written canonical sha lower known_category now actor gate id body s s' h)
    serve-Written (purge now actor post id reason) s =
        after_purge-Written
          (purge_operational_partner lower known_category canonical sha now actor post id reason s
            s)
          s
          (λ a s' h.
            purge_operational_partner-Written canonical sha lower known_category now actor post id
              reason s s' a h)
    serve-Written (create body) s = create_partner-Written body s s
