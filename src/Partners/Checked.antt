-- ===== src/Partners/Checked.antt =====
-- What the tests of a change of a partner leave behind.
use himate_system.Base.{
  ◌≡◌, refl, ◌⊎◌, inl, inr, Bool, true, false, not, ◌&&◌, Bool-cases, Option, none, some,
  if◌then◌else◌, arith, ok, >>=-eq-ok, reject_if-eq-ok, is_empty, Unicode,
}
use himate_system.Partners.{
  Lifecycle, provisioning, live, same_lifecycle, can_transition, requires_provisioning_gate,
  golden_immutable, validation, invalid_transition, Partner,
}
use himate_system.Partners.Company.{patched_details}
use himate_system.Partners.Diagram.{Edge, same_lifecycle-eq, can_transition-Edge}
use himate_system.Partners.Handlers.{
  PatchInput, golden_activation, gate_passes, leaves_test, becomes_test, expect_lifecycle,
  asked_lifecycle, check_patch,
}

-- What the tests of a `PATCH` leave behind.
gate_passes-some : (gate : Option Bool) (r : Unit {0}) → gate_passes gate ≡ ok r → gate ≡ some true
gate_passes-some none r h = cc
gate_passes-some (some false) r h = cc
gate_passes-some (some true) r h = refl

stays_test :
    (o : Option Bool) (old : Bool)
    → leaves_test o old ≡ false
    → (not old && becomes_test o old) ≡ false
    → becomes_test o old ≡ old
stays_test none old h g = refl
stays_test (some true) true h g = refl
stays_test (some true) false h g = cc
stays_test (some false) true h g = cc
stays_test (some false) false h g = refl

gains_test :
    (o : Option Bool) (old : Bool)
    → (not old && becomes_test o old) ≡ true
    → (old ≡ false) × (becomes_test o old ≡ true)
gains_test o true g = cc
gains_test o false g = (refl, g)

module _ ⦃u : Unicode⦄ where
  -- Of the row that was read, and the lifecycle and the mark to write.
  abbrev pub Checked : Option Bool → Partner → Lifecycle → Bool → Type 0
  Checked gate p l t =
      (((t ≡ p.test_partner) × (same_lifecycle p.lifecycle l ≡ false → Edge p.lifecycle l))
        ⊎ ((p.test_partner ≡ false) × (t ≡ true) × (l ≡ live)))
      × (l ≡ provisioning → (p.lifecycle ≡ provisioning) ⊎ (gate ≡ some true))

  passed_gate-Checked :
      (golden : Bool) (gate : Option Bool) (p : Partner) (l : Lifecycle) (t : Bool) (r : Unit {0})
      → (golden ≡ true → l ≡ live)
      → (golden ≡ true → (p.test_partner ≡ false) × (t ≡ true))
      → (golden ≡ false → t ≡ p.test_partner)
      → (not golden && not (can_transition p.lifecycle l)) ≡ false
      → (if not golden && requires_provisioning_gate p.lifecycle l then gate_passes gate else ok tt)
        ≡ ok r
      → Checked gate p l t
  passed_gate-Checked true gate p l t r to_live marks stays permitted h =
      let (fresh, marked) = marks refl in
      (inr (fresh, marked, to_live refl), λ bad. cc (to_live refl))
  passed_gate-Checked false gate p l t r to_live marks stays permitted h = (
    inl (stays refl, can_transition-Edge p.lifecycle l (ground arith)),
    λ to. elim (Bool-cases (same_lifecycle p.lifecycle provisioning)) [
      | inl same ↦ inl (same_lifecycle-eq p.lifecycle provisioning same)
      | inr other ↦ inr (gate_passes-some gate r (rw (to, other) at h))
    ],
  )

  asked_lifecycle-live :
      (input : PatchInput) (p : Partner) (l : Lifecycle)
      → expect_lifecycle (asked_lifecycle input p) ≡ ok l
      → golden_activation input p ≡ true
      → l ≡ live
  asked_lifecycle-live input p l h golden = cc (rw golden at h)

  -- The row that is to be written is the one that was read, with another state.
  pub check_patch-Checked :
      (gate : Option Bool) (input : PatchInput) (p q : Partner)
      → check_patch gate input p ≡ ok q
      → Checked gate p q.lifecycle q.test_partner
  unfolding check_patch
  check_patch-Checked gate input p q h =
      let (stays, h1) =
        reject_if-eq-ok (leaves_test input.test_partner p.test_partner) golden_immutable _ h in
      let (_, h2) =
        reject_if-eq-ok (is_empty (patched_details input.details p.details).display_name) validation
          _ h1 in
      let (l, asked, h3) = >>=-eq-ok (expect_lifecycle (asked_lifecycle input p)) _ h2 in
      let (permitted, h4) =
        reject_if-eq-ok (not (golden_activation input p) && not (can_transition p.lifecycle l))
          invalid_transition _ h3 in
      let (r, gated, h5) =
        >>=-eq-ok
          (if not (golden_activation input p) && requires_provisioning_gate p.lifecycle l
            then gate_passes gate
            else ok tt)
          _ h4 in
      let same : l ≡ q.lifecycle = cc in
      let mark : becomes_test input.test_partner p.test_partner ≡ q.test_partner = cc in
      rw (← same, ← mark)
        (passed_gate-Checked (golden_activation input p) gate p l
          (becomes_test input.test_partner p.test_partner) r (asked_lifecycle-live input p l asked)
          (gains_test input.test_partner p.test_partner)
          (stays_test input.test_partner p.test_partner stays) permitted gated)
