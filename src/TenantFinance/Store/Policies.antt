-- ===== src/TenantFinance/Store/Policies.antt =====
-- A partner's finance policy comes back from the store as it was saved.
use himate_system.Base.{
  ◌≡◌, refl, ap, true, false, some, List, [], ◌∷◌, arith, inl, inr, Bool-cases, find, ok, >>=-eq-ok,
  Text, codes, is_empty, text_eq_refl, Unicode, to_upper, trim_left, trim_right, trim_space,
}
use himate_system.Base.Strings.Case.{UpperLaws, to_upper-trim_space_idem}
use himate_system.FinancePolicy.{normalize_policy}
use himate_system.FinancePolicy.Normalize.{normalize_policy_idem}
use himate_system.TenantFinance.Parties.{
  matches_currency, matches_prefix, normalize_currency, normalize_invoice_prefix,
}
use himate_system.TenantFinance.Store.{
  policy_error, party_error, PolicyState, partner, PolicyRow, Store, map_error, of_partner,
  upsert_policy, save_policy, load_policy,
}
use himate_system.TenantFinance.Store.Ready.{map_error-eq-ok}

module _ ⦃u : Unicode⦄ where
  find-upsert_policy :
      (r : PolicyRow) (rows : List PolicyRow)
      → find (of_partner r.partner_id) (upsert_policy r rows) ≡ some r
  find-upsert_policy r [] = rw (text_eq_refl r.partner_id) refl
  find-upsert_policy r (t ∷ rest) = elim (Bool-cases (of_partner r.partner_id t)) [
    | inl hit ↦ rw (hit, text_eq_refl r.partner_id) refl
    | inr miss ↦ rw (miss, miss) (find-upsert_policy r rest)
  ]

  normalize_currency-eq-ok :
      (raw v : Text)
      → normalize_currency raw (codes "") ≡ ok v
      → (to_upper (trim_space raw) ≡ v) × (matches_currency v ≡ true) × (is_empty v ≡ false)
  unfolding normalize_currency matches_currency to_upper trim_space trim_left trim_right
  normalize_currency-eq-ok raw v h = (ground arith, ground arith, ground arith)

  normalize_currency_final :
      UpperLaws u
      → (raw fallback v : Text) → normalize_currency raw (codes "") ≡ ok v
      → normalize_currency v fallback ≡ ok v
  unfolding normalize_currency
  normalize_currency_final laws raw fallback v h =
      let (same, valid, given) = normalize_currency-eq-ok raw v h in
      let fixed : to_upper (trim_space v) ≡ v = rw (← same) (to_upper-trim_space_idem laws raw) in
      rw (fixed, given, valid) refl

  normalize_invoice_prefix-eq-ok :
      (raw v : Text)
      → normalize_invoice_prefix raw ≡ ok v
      → (to_upper (trim_space raw) ≡ v) × (matches_prefix v ≡ true)
  unfolding normalize_invoice_prefix
  normalize_invoice_prefix-eq-ok raw v h = (ground arith, ground arith)

  normalize_invoice_prefix_final :
      UpperLaws u
      → (raw v : Text) → normalize_invoice_prefix raw ≡ ok v
      → normalize_invoice_prefix v ≡ ok v
  unfolding normalize_invoice_prefix
  normalize_invoice_prefix_final laws raw v h =
      let (same, valid) = normalize_invoice_prefix-eq-ok raw v h in
      let fixed : to_upper (trim_space v) ≡ v = rw (← same) (to_upper-trim_space_idem laws raw) in
      rw (fixed, valid) refl

  -- The policy that saving returns is what the partner's next request loads, in any platform default.
  pub save_policy-load_policy :
      UpperLaws u
      → (platform : PolicyState) (partner_id actor_id : Text) (state saved : PolicyState)
        (s s' : Store)
      → save_policy partner_id actor_id state s ≡ ok (saved, s')
      → load_policy platform partner_id s' ≡ ok saved
  unfolding save_policy load_policy
  save_policy-load_policy laws platform partner_id actor_id state saved s s' h =
      let (policy, p, h1) =
        >>=-eq-ok (map_error policy_error (normalize_policy state.policy)) _ h in
      let (currency, c, h2) =
        >>=-eq-ok (map_error party_error (normalize_currency state.default_currency (codes ""))) _
          h1 in
      let (prefix, x, h3) =
        >>=-eq-ok (map_error party_error (normalize_invoice_prefix state.invoice_prefix)) _ h2 in
      let p' = map_error-eq-ok policy_error (normalize_policy state.policy) p in
      let c' =
        map_error-eq-ok party_error (normalize_currency state.default_currency (codes "")) c in
      let x' = map_error-eq-ok party_error (normalize_invoice_prefix state.invoice_prefix) x in
      let r : PolicyRow = record {
        partner_id = trim_space partner_id;
        policy = policy;
        default_currency = currency;
        invoice_prefix = prefix;
        updated_by = trim_space actor_id;
      } in
      let table : upsert_policy r s.policies ≡ s'.policies = ground arith in
      let given : (record {
        policy = policy;
        default_currency = currency;
        invoice_prefix = prefix;
        source = partner;
      })
          ≡ saved =
        ground arith in
      rw
        (
          ← table,
          find-upsert_policy r s.policies,
          normalize_policy_idem laws state.policy policy p',
          normalize_currency_final laws state.default_currency platform.default_currency currency
              c',
          normalize_invoice_prefix_final laws state.invoice_prefix prefix x',
        )
        (ap ok given)
