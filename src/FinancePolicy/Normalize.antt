-- ===== src/FinancePolicy/Normalize.antt =====
-- What `NormalizePolicy` guarantees of the policy it returns.
use mathlib.Core.List.{append_assoc, append-nil}
use himate_system.Base.{
  ◌≡◌, refl, sym, ◌∙◌, ◌⊎◌, inl, inr, false, ◌&&◌, ◌||◌, not, List, [], ◌∷◌, ◌++◌, map, arith, All,
  if◌then◌else◌, Bool-cases, Text, text_eq, text_eq_iff, is_empty, Unicode, to_upper, trim_space,
  upper_rune, trim_left, trim_right, is_space, ok, >>=-eq-ok,
}
use himate_system.Base.Strings.Case.{UpperLaws, to_upper-trim_space_idem}
use himate_system.FinancePolicy.{
  Policy, validate_days, normalize_basis, normalize_policy, accounting_cash, accounting_accrual,
  sort_texts, contains, collect_methods,
}
use himate_system.FinancePolicy.Terms.{InTermsRange, validate_days_bounds}
use himate_system.FinancePolicy.Methods.{
  Ascending, Distinct, sort_texts-Ascending, sort_texts_sorted, contains-sort_texts, All-sort_texts,
  Ascending-Distinct,
}

-- What a stored policy looks like.
pub record IsNormalPolicy (p : Policy) : Type 0 where
  pub terms : InTermsRange p.default_payment_terms_days
  pub basis : (p.accounting_basis ≡ accounting_cash) ⊎ (p.accounting_basis ≡ accounting_accrual)
  pub methods : Ascending p.payment_methods

contains-append :
    (z : Text) (xs ys : List Text) → contains z (xs ++ ys) ≡ (contains z xs || contains z ys)
contains-append z [] ys = refl
contains-append z (x ∷ xs) ys = ground (arith, contains-append z xs ys)

Distinct-concat :
    (xs : List Text) (m : Text) → Distinct xs → contains m xs ≡ false → Distinct (xs ++ m ∷ [])
Distinct-concat [] m h n = (refl, tt)
Distinct-concat (x ∷ xs) m h n = (
  ground (arith, contains-append x xs (m ∷ []), text_eq_iff x m, text_eq_iff m x),
  Distinct-concat xs m h.1 (ground arith),
)

All-concat {κ} :
    (P : Text → Type κ) (xs : List Text) (m : Text) → All P xs → P m → All P (xs ++ m ∷ [])
All-concat P [] m h p = (p, tt)
All-concat P (x ∷ xs) m h p = (h.0, All-concat P xs m h.1 p)

Distinct-middle :
    (kept : List Text) (m : Text) (rest : List Text)
    → Distinct (kept ++ (m ∷ rest))
    → contains m kept ≡ false
Distinct-middle [] m rest h = refl
Distinct-middle (x ∷ kept) m rest h = ground (
  arith,
  Distinct-middle kept m rest h.1,
  contains-append x kept (m ∷ rest),
  text_eq_iff x m,
  text_eq_iff m x,
)

module _ ⦃u : Unicode⦄ where
  -- A method name that is not empty and that normalising leaves alone.
  abbrev pub IsNormal : Text → Type 0
  IsNormal m = (is_empty m ≡ false) × (to_upper (trim_space m) ≡ m)

  collect_methods-Distinct :
      (kept raw : List Text) → Distinct kept → Distinct (collect_methods kept raw)
  unfolding collect_methods
  collect_methods-Distinct kept [] h = h
  collect_methods-Distinct kept (r ∷ raw) h =
      elim (Bool-cases
        (is_empty (to_upper (trim_space r)) || contains (to_upper (trim_space r)) kept)) [
          | inl skip ↦ rw skip (collect_methods-Distinct kept raw h)
          | inr fresh ↦ rw fresh (
              collect_methods-Distinct (kept ++ (to_upper (trim_space r) ∷ [])) raw
                (Distinct-concat kept (to_upper (trim_space r)) h (ground arith)))
        ]

  contains-collect_methods :
      (z : Text) (kept raw : List Text)
      → contains z (collect_methods kept raw) ≡ (
          contains z kept
          || (not (is_empty z) && contains z (map (λ r. to_upper (trim_space r)) raw)))
  unfolding collect_methods
  contains-collect_methods z kept [] = ground arith
  contains-collect_methods z kept (r ∷ raw) =
      let m = to_upper (trim_space r) in
      elim (Bool-cases (is_empty m || contains m kept)) [
        | inl skip ↦ rw skip (ground (arith, contains-collect_methods z kept raw, text_eq_iff z m))
        | inr fresh ↦ rw fresh (
            ground (
              arith,
              contains-collect_methods z (kept ++ (m ∷ [])) raw,
              contains-append z kept (m ∷ []),
              text_eq_iff z m,
            ))
      ]

  collect_methods_normal :
      (kept l : List Text)
      → All IsNormal l
      → Distinct (kept ++ l)
      → collect_methods kept l ≡ kept ++ l
  unfolding collect_methods
  collect_methods_normal kept [] n h = sym (append-nil kept)
  collect_methods_normal kept (m ∷ l) n h =
      rw (n.0.1, n.0.0, Distinct-middle kept m l h)
        (collect_methods_normal (kept ++ (m ∷ [])) l n.1 (rw append_assoc h)
          ∙ append_assoc kept (m ∷ []) l)

  collect_methods-IsNormal :
      UpperLaws u
      → (kept raw : List Text) → All IsNormal kept
      → All IsNormal (collect_methods kept raw)
  unfolding collect_methods
  collect_methods-IsNormal laws kept [] h = h
  collect_methods-IsNormal laws kept (r ∷ raw) h =
      elim (Bool-cases
        (is_empty (to_upper (trim_space r)) || contains (to_upper (trim_space r)) kept)) [
          | inl skip ↦ rw skip (collect_methods-IsNormal laws kept raw h)
          | inr fresh ↦ rw fresh (
              collect_methods-IsNormal laws (kept ++ (to_upper (trim_space r) ∷ [])) raw (
                All-concat IsNormal kept (to_upper (trim_space r)) h
                  (ground arith, to_upper-trim_space_idem laws r)))
        ]

  normalize_basis-cases :
      (raw b : Text) → normalize_basis raw ≡ ok b → (b ≡ accounting_cash) ⊎ (b ≡ accounting_accrual)
  unfolding normalize_basis
  normalize_basis-cases raw b h =
      let cleaned = to_upper (trim_space raw) in
      let basis = (if is_empty cleaned then accounting_cash else cleaned) in
      ground (arith, text_eq_iff basis accounting_cash, text_eq_iff basis accounting_accrual)

  -- The policy that `normalize_policy` returns if it accepts the basis `b`.
  abbrev normal_form : Policy → Text → Policy
  normal_form p b = record {
    default_payment_terms_days = p.default_payment_terms_days;
    accounting_basis = b;
    payment_methods = sort_texts (collect_methods [] p.payment_methods);
  }

  normalize_policy-eq-ok :
      (p q : Policy)
      → normalize_policy p ≡ ok q
      → (b : Text) × (validate_days p.default_payment_terms_days ≡ ok tt)
        × (normalize_basis p.accounting_basis ≡ ok b)
        × (normal_form p b ≡ q)
  unfolding normalize_policy
  normalize_policy-eq-ok p q h =
      let (t, valid, rest) = >>=-eq-ok (validate_days p.default_payment_terms_days) _ h in
      let (b, basis, same) = >>=-eq-ok (normalize_basis p.accounting_basis) _ rest in
      (b, valid, basis, cc)

  -- A policy that is accepted has terms between 0 and 365 days, cash or accrual accounting, and
  -- payment methods in ascending order with none twice, and a text is among them exactly if it is
  -- not empty and is the trimmed upper case form of a method that was given.
  pub normalize_policy-IsNormalPolicy :
      (p q : Policy)
      → normalize_policy p ≡ ok q
      → IsNormalPolicy q
        × ((m : Text)
            → contains m q.payment_methods ≡ (
                not (is_empty m)
                && contains m (map (λ r. to_upper (trim_space r)) p.payment_methods)))
  normalize_policy-IsNormalPolicy p q h =
      let (b, valid, basis, same) = normalize_policy-eq-ok p q h in
      rw (← same) (
        (record {
          terms = validate_days_bounds p.default_payment_terms_days valid;
          basis = normalize_basis-cases p.accounting_basis b basis;
          methods =
              sort_texts-Ascending (collect_methods [] p.payment_methods)
                (collect_methods-Distinct [] p.payment_methods tt);
        }),
        λ m.
            contains-sort_texts m (collect_methods [] p.payment_methods)
            ∙ contains-collect_methods m [] p.payment_methods,
      )

  normalize_basis_final :
      (b : Text) → (b ≡ accounting_cash) ⊎ (b ≡ accounting_accrual) → normalize_basis b ≡ ok b
  unfolding normalize_basis to_upper upper_rune trim_space trim_left trim_right is_space text_eq
  normalize_basis_final b (inl e) = rw e
  normalize_basis_final b (inr e) = rw e

  -- Normalising an accepted policy once more changes nothing.
  pub normalize_policy_idem :
      UpperLaws u → (p q : Policy) → normalize_policy p ≡ ok q → normalize_policy q ≡ ok q
  unfolding normalize_policy
  normalize_policy_idem laws p q h =
      let (b, valid, basis, same) = normalize_policy-eq-ok p q h in
      let kept = collect_methods [] p.payment_methods in
      let sorted = sort_texts-Ascending kept (collect_methods-Distinct [] p.payment_methods tt) in
      let normal =
        All-sort_texts IsNormal kept (collect_methods-IsNormal laws [] p.payment_methods tt) in
      rw (← same) (
        rw (
          valid,
          normalize_basis_final b (normalize_basis-cases p.accounting_basis b basis),
          collect_methods_normal [] (sort_texts kept) normal
              (Ascending-Distinct (sort_texts kept) sorted),
          sort_texts_sorted (sort_texts kept) sorted,
        ))
