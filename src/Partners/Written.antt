-- ===== src/Partners/Written.antt =====
-- What each request of the partners service writes.
use mathlib.Core.Path.{subst}
use himate_system.Base.{
  ℕ, ◌≡◌, refl, sym, ◌∙◌, ◌⊎◌, inl, inr, Bool, true, false, not, ◌&&◌, Bool-cases, Option, none,
  some, List, [], ◌∷◌, ◌++◌, arith, find, find-passes, find-some-count, update_where, ok, >>=-eq-ok,
  reject_if-eq-ok, Text, codes, text_eq_iff, Unicode, trim_space,
}
use himate_system.Partners.{
  Lifecycle, prospect, live, suspended, archived, same_lifecycle, Partner, Change,
  ComplianceArchive, Registry, has_partner_id, method_not_allowed, not_suspended,
}
use himate_system.Partners.Checked.{Checked, check_patch-Checked}
use himate_system.Partners.Diagram.{Edge, Move, Marked, ends, same_lifecycle-eq}
use himate_system.Partners.Archive.{or_text}
use himate_system.Partners.Handlers.{
  PatchInput, golden_activation, check_patch, write_row, violates, patch_tx, patch_partner,
  change_reason, purged_users, archive_row_of, purge_row, purge_tx, purge_operational_partner,
  expect_partner, expect_body,
}
use himate_system.Partners.Archived.{
  Sealed, KeepsArchives, Archived, archive_compliance_tx-Archived, record_change-Archived,
}

pub data Written (s s' : Registry) : Type 0 where
  created :
      (p : Partner)
      → p.lifecycle ≡ prospect
      → p.test_partner ≡ false
      → find (has_partner_id p.id) s.partners ≡ none
      → s'.partners ≡ s.partners ++ (p ∷ [])
      → s'.history ≡ s.history
      → KeepsArchives s s'
      → Written s s'
  -- No lifecycle changes.
  kept :
      (p : Partner) (f : Partner → Partner)
      → find (has_partner_id p.id) s.partners ≡ some p
      → ((x : Partner) → (f x).id ≡ x.id)
      → (f p).lifecycle ≡ p.lifecycle
      → Marked p.lifecycle p.test_partner (f p).test_partner
      → s'.partners ≡ update_where (has_partner_id p.id) f s.partners
      → s'.history ≡ s.history
      → KeepsArchives s s'
      → Written s s'
  -- One lifecycle changes, by a move of the diagram, and the history says so.
  changed :
      (p : Partner) (f : Partner → Partner) (c : Change)
      → find (has_partner_id p.id) s.partners ≡ some p
      → ((x : Partner) → (f x).id ≡ x.id)
      → c.partner_id ≡ p.id
      → c.from_state ≡ p.lifecycle
      → c.to_state ≡ (f p).lifecycle
      → Move c.from_state p.test_partner c.to_state (f p).test_partner
      → s'.partners ≡ update_where (has_partner_id p.id) f s.partners
      → s'.history ≡ s.history ++ (c ∷ [])
      → KeepsArchives s s'
      → (c.to_state ≡ archived → Sealed p.id s')
      → Written s s'
  untouched : s'.partners ≡ s.partners → s'.history ≡ s.history → KeepsArchives s s' → Written s s'

-- What the tests of a change say of the mark and the edge, once it is known whether the lifecycle changes.
switch-Marked :
    (a : Lifecycle) (t : Bool) (b : Lifecycle) (t' : Bool)
    → a ≡ b
    → ((t' ≡ t) × (same_lifecycle a b ≡ false → Edge a b))
      ⊎ ((t ≡ false) × (t' ≡ true) × (b ≡ live))
    → Marked a t t'
switch-Marked a t b t' same (inl (stays, edge)) = inl stays
switch-Marked a t b t' same (inr (old, new, to_live)) = inr (old, new, same ∙ to_live)

switch-Move :
    (a : Lifecycle) (t : Bool) (b : Lifecycle) (t' : Bool)
    → same_lifecycle a b ≡ false
    → ((t' ≡ t) × (same_lifecycle a b ≡ false → Edge a b))
      ⊎ ((t ≡ false) × (t' ≡ true) × (b ≡ live))
    → Move a t b t'
switch-Move a t b t' moved (inl (stays, edge)) = inl (stays, edge moved)
switch-Move a t b t' moved (inr golden) = inr golden

module _ (canonical : Text → Registry → Text) (sha : Text → Text) (lower : Text → Text)
    (known_category : Text → Bool) where
  patch_tx-Written :
      ⦃u : Unicode⦄ (now : ℕ) (actor : Text) (golden : Bool) (reason : Text) (gate : Option Bool)
      (p q : Partner) (s s' : Registry)
      → find (has_partner_id p.id) s.partners ≡ some p
      → Checked gate p q.lifecycle q.test_partner
      → patch_tx lower known_category canonical sha now actor golden reason p q s ≡ ok s'
      → Written s s'
  unfolding patch_tx
  patch_tx-Written now actor golden reason gate p q s s' found (switch, gated) h =
      let present = find-some-count (has_partner_id p.id) s.partners p found in
      elim (Bool-cases (violates lower known_category p.id q.details s.partners)) [
        | inl bad ↦ cc (rw (present, bad) at h)
        | inr good ↦ elim (Bool-cases (same_lifecycle p.lifecycle q.lifecycle)) [
          | inl same ↦
              let done : record s {
                partners = update_where (has_partner_id p.id) (write_row q) s.partners;
              }
                  ≡ s' =
                cc (rw (present, good, same) at h) in
              rw (← done) (
                kept p (write_row q) found (λ x. refl)
                  (sym (same_lifecycle-eq p.lifecycle q.lifecycle same))
                  (switch-Marked p.lifecycle p.test_partner q.lifecycle q.test_partner
                    (same_lifecycle-eq p.lifecycle q.lifecycle same) switch)
                  refl refl (λ id a f. f))
          | inr moved ↦
              let c : Change = record {
                partner_id = p.id;
                from_state = p.lifecycle;
                to_state = q.lifecycle;
                changed_by = trim_space actor;
                reason = change_reason lower known_category canonical sha golden reason;
              } in
              let (a, b, keeps, seal) =
                record_change-Archived canonical sha lower known_category now false c
                  (record s {
                    partners = update_where (has_partner_id p.id) (write_row q) s.partners;
                  })
                  s' (rw (present, good, moved) at h) in
              changed p (write_row q) c found (λ x. refl) refl refl refl
                (switch-Move p.lifecycle p.test_partner q.lifecycle q.test_partner moved switch) a b
                keeps seal
        ]
      ]

  pub expect_partner-eq-ok :
      (o : Option Partner) (p : Partner)
      → expect_partner lower known_category canonical sha o ≡ ok p
      → o ≡ some p
  expect_partner-eq-ok none p h = cc
  expect_partner-eq-ok (some x) p h = cc

  -- The row that an identifier finds has it.
  pub found-own_id :
      (id : Text) (p : Partner) (xs : List Partner)
      → find (has_partner_id id) xs ≡ some p
      → find (has_partner_id p.id) xs ≡ some p
  found-own_id id p xs h =
      let same : p.id ≡ id = (text_eq_iff p.id id).0 (find-passes (has_partner_id id) xs p h) in
      subst (λ i. find (has_partner_id i) xs ≡ some p) (sym same) h

  pub patch_partner-Written :
      ⦃u : Unicode⦄ (now : ℕ) (actor : Text) (gate : Option Bool) (id : Text)
      (body : Option PatchInput) (s s' : Registry)
      → patch_partner lower known_category canonical sha now actor gate id body s s ≡ ok s'
      → Written s s'
  unfolding patch_partner
  patch_partner-Written now actor gate id body s s' h =
      let (p, loaded, h1) =
        >>=-eq-ok
          (expect_partner lower known_category canonical sha (find (has_partner_id id) s.partners))
          _ h in
      let (input, _, h2) = >>=-eq-ok (expect_body lower known_category canonical sha body) _ h1 in
      let (q, checked, h3) = >>=-eq-ok (check_patch gate input p) _ h2 in
      patch_tx-Written now actor (golden_activation input p) input.reason gate p q s s'
        (found-own_id id p s.partners
          (expect_partner-eq-ok (find (has_partner_id id) s.partners) p loaded))
        (check_patch-Checked gate input p q checked) h3

  purge_tx-Written :
      (now : ℕ) (actor reason : Text) (p : Partner) (s s' : Registry) (a : ComplianceArchive)
      → find (has_partner_id p.id) s.partners ≡ some p
      → (same_lifecycle p.lifecycle archived ≡ false → p.lifecycle ≡ suspended)
      → purge_tx lower known_category canonical sha now actor reason p s ≡ ok (a, s')
      → Written s s'
  unfolding purge_tx
  purge_tx-Written now actor reason p s s' a found state h =
      let who = or_text (codes "system") actor in
      let why = or_text (codes "Operational account purge") reason in
      let s0 = record s {
        partner_users = purged_users lower known_category canonical sha p.id s.partner_users;
      } in
      let (s1, row, h1) =
        >>=-eq-ok (purge_row lower known_category canonical sha who why p s0) _ h in
      let after = archive_compliance_tx-Archived canonical sha now p.id who why s1 s' a h1 in
      let present = find-some-count (has_partner_id p.id) s.partners p found in
      elim (Bool-cases (same_lifecycle p.lifecycle archived)) [
        | inl before ↦
            let done : s0 ≡ s1 = cc (rw before at row) in
            let (same_partners, same_history, keeps, _) =
              subst (λ x. Archived (trim_space p.id) a x s') (sym done) after in
            untouched same_partners same_history keeps
        | inr open_row ↦
            let c : Change = record {
              partner_id = p.id;
              from_state = p.lifecycle;
              to_state = archived;
              changed_by = who;
              reason = why;
            } in
            let done : record s0 {
              partners =
                  update_where (has_partner_id p.id) (archive_row_of (codes "ARCHIVED")) s.partners;
              history = s.history ++ (c ∷ []);
            }
                ≡ s1 =
              cc (rw (open_row, present) at row) in
            let (same_partners, same_history, keeps, seal) =
              subst (λ x. Archived (trim_space p.id) a x s') (sym done) after in
            changed p (archive_row_of (codes "ARCHIVED")) c found (λ x. refl) refl refl refl
              (inl (refl, rw (state open_row) (ends refl))) same_partners same_history keeps
              (λ _. (a, seal))
      ]

  not_open-suspended :
      (l : Lifecycle)
      → (not (same_lifecycle l suspended) && not (same_lifecycle l archived)) ≡ false
      → same_lifecycle l archived ≡ false
      → l ≡ suspended
  not_open-suspended l h other = same_lifecycle-eq l suspended (ground (arith, h, other))

  pub purge_operational_partner-Written :
      (now : ℕ) (actor : Text) (post : Bool) (id reason : Text) (s s' : Registry)
      (a : ComplianceArchive)
      → purge_operational_partner lower known_category canonical sha now actor post id reason s s
        ≡ ok (a, s')
      → Written s s'
  unfolding purge_operational_partner
  purge_operational_partner-Written now actor post id reason s s' a h =
      let (_, h1) = reject_if-eq-ok (not post) method_not_allowed _ h in
      let (p, loaded, h2) =
        >>=-eq-ok
          (expect_partner lower known_category canonical sha (find (has_partner_id id) s.partners))
          _ h1 in
      let (state, h3) =
        reject_if-eq-ok
          (not (same_lifecycle p.lifecycle suspended) && not (same_lifecycle p.lifecycle archived))
          not_suspended _ h2 in
      purge_tx-Written now actor reason p s s' a
        (found-own_id id p s.partners
          (expect_partner-eq-ok (find (has_partner_id id) s.partners) p loaded))
        (not_open-suspended p.lifecycle state) h3
