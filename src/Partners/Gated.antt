-- ===== src/Partners/Gated.antt =====
-- The billing gate before the provisioning of a partner.
use mathlib.Core.Path.{subst}
use himate_system.Base.{
  ℕ, ◌==◌, ◌≡◌, sym, ap, ◌∙◌, ◌⊎◌, inl, inr, Bool, true, not, ◌&&◌, Bool-cases, Option, some, List,
  [], ◌∷◌, find, find-passes, count, update_where, ok, >>=-eq-ok, Text, text_eq, text_eq_iff,
  Unicode, trim_space,
}
use himate_system.Partners.{
  Lifecycle, provisioning, same_lifecycle, Partner, Change, Registry, has_partner_id,
}
use himate_system.Partners.Handlers.{
  PatchInput, golden_activation, write_row, violates, change_reason, patch_tx, patch_partner,
  check_patch, expect_partner, expect_body,
}
use himate_system.Partners.Checked.{check_patch-Checked}
use himate_system.Partners.Written.{expect_partner-eq-ok}
use himate_system.Partners.Archived.{record_change-Archived}
use himate_system.Partners.Refines.{state_of, lifecycle_of}

-- What the rows of a partner say after they are written.
lifecycle_of-write_row :
    (id : Text) (q : Partner) (xs : List Partner) (l : Lifecycle)
    → state_of (find (has_partner_id id) (update_where (has_partner_id id) (write_row q) xs))
      ≡ some l
    → q.lifecycle ≡ l
lifecycle_of-write_row id q [] l h = cc
lifecycle_of-write_row id q (x ∷ xs) l h = elim (Bool-cases (text_eq x.id id)) [
  | inl own ↦ cc (rw (own, own) at h)
  | inr other ↦ lifecycle_of-write_row id q xs l (rw (other, other) at h)
]

module _ (canonical : Text → Registry → Text) (sha : Text → Text) (lower : Text → Text)
    (known_category : Text → Bool) where
  patch_tx-partners :
      (now : ℕ) (actor : Text) (golden : Bool) (reason : Text) (p q : Partner) (s s' : Registry)
      → patch_tx lower known_category canonical sha now actor golden reason p q s ≡ ok s'
      → s'.partners ≡ update_where (has_partner_id p.id) (write_row q) s.partners
  unfolding patch_tx
  patch_tx-partners now actor golden reason p q s s' h =
      elim (Bool-cases (
        not (count (has_partner_id p.id) s.partners == 0)
        && violates lower known_category p.id q.details s.partners)) [
          | inl bad ↦ cc (rw bad at h)
          | inr good ↦ elim (Bool-cases (same_lifecycle p.lifecycle q.lifecycle)) [
            | inl same ↦
                let done : record s {
                  partners = update_where (has_partner_id p.id) (write_row q) s.partners;
                }
                    ≡ s' =
                  cc (rw (good, same) at h) in
                ap (λ (x : Registry). x.partners) (sym done)
            | inr moved ↦
                let c : Change = record {
                  partner_id = p.id;
                  from_state = p.lifecycle;
                  to_state = q.lifecycle;
                  changed_by = trim_space actor;
                  reason = change_reason lower known_category canonical sha golden reason;
                } in
                (record_change-Archived canonical sha lower known_category now
                  (count (has_partner_id p.id) s.partners == 0) c
                  (record s {
                    partners = update_where (has_partner_id p.id) (write_row q) s.partners;
                  })
                  s' (rw (good, moved) at h)).0
          ]
        ]

  -- A change after which the partner is in provisioning was let through by the billing gate, or read a partner that
  -- was in provisioning already; whatever other requests have written since it read the partner.
  pub patch_partner-provisioning :
      ⦃u : Unicode⦄ (now : ℕ) (actor : Text) (gate : Option Bool) (id : Text)
      (body : Option PatchInput) (before s s' : Registry)
      → patch_partner lower known_category canonical sha now actor gate id body before s ≡ ok s'
      → lifecycle_of id s' ≡ some provisioning
      → (lifecycle_of id before ≡ some provisioning) ⊎ (gate ≡ some true)
  unfolding patch_partner
  patch_partner-provisioning now actor gate id body before s s' h to =
      let (p, loaded, h1) =
        >>=-eq-ok
          (expect_partner lower known_category canonical sha
            (find (has_partner_id id) before.partners))
          _ h in
      let (input, _, h2) = >>=-eq-ok (expect_body lower known_category canonical sha body) _ h1 in
      let (q, checked, h3) = >>=-eq-ok (check_patch gate input p) _ h2 in
      let found =
        expect_partner-eq-ok canonical sha lower known_category
          (find (has_partner_id id) before.partners) p loaded in
      let own : p.id ≡ id =
        (text_eq_iff p.id id).0 (find-passes (has_partner_id id) before.partners p found) in
      let rows = patch_tx-partners now actor (golden_activation input p) input.reason p q s s' h3 in
      let rows_id : s'.partners ≡ update_where (has_partner_id id) (write_row q) s.partners =
        subst (λ i. s'.partners ≡ update_where (has_partner_id i) (write_row q) s.partners) own
          rows in
      let asked : q.lifecycle ≡ provisioning =
        lifecycle_of-write_row id q s.partners provisioning
          (ap (λ ps. state_of (find (has_partner_id id) ps)) (sym rows_id) ∙ to) in
      elim ((check_patch-Checked gate input p q checked).1 asked) [
        | inl already ↦ inl (ap state_of found ∙ ap some already)
        | inr passed ↦ inr passed
      ]
