-- ===== src/FinancePolicy/Terms.antt =====
-- Which payment terms apply.
use himate_system.Base.{
  ◌≡◌, ◌⊎◌, inl, inr, Option, none, some, List, [], ◌∷◌, arith, ℤ, pos, ◌≤ℤ◌, Result, ok, err,
}
use himate_system.FinancePolicy.{
  PolicyError, terms_out_of_range, validate_days, first_candidate, resolve_payment_terms,
}

-- The terms that a reader of the precedence rule expects: the most specific that is set.
abbrev pub or_else : Option ℤ → ℤ → ℤ
or_else none d = d
or_else (some x) d = x

abbrev pub InTermsRange : ℤ → Type 0
InTermsRange d = (pos 0 ≤ℤ d) × (d ≤ℤ pos 365)

pub validate_days_bounds : (d : ℤ) → validate_days d ≡ ok tt → InTermsRange d
unfolding validate_days
validate_days_bounds d h = ground arith

-- What the search returns: the days `d` if they are in range, the range error otherwise.
abbrev pub Resolves : ℤ → Result PolicyError ℤ → Type 0
Resolves d r = (InTermsRange d × (r ≡ ok d)) ⊎ ((¬ InTermsRange d) × (r ≡ err terms_out_of_range))

in_range_dec : (d : ℤ) → InTermsRange d ⊎ (¬ InTermsRange d)
in_range_dec d = ground arith

first_candidate-some :
    (d : ℤ) (rest : List (Option ℤ)) → Resolves d (first_candidate (some d ∷ rest))
unfolding first_candidate validate_days
first_candidate-some d rest = elim (in_range_dec d) [
  | inl within ↦ inl (within, ground arith)
  | inr outside ↦ inr (outside, ground arith)
]

-- The invoice's own terms come before the service's, those before the partner's, those before the
-- platform's; the terms so found are returned if they lie between 0 and 365 days and are the range
-- error otherwise. So there are always terms to judge.
pub resolve_payment_terms-Resolves :
    (platform : ℤ) (partner service invoice : Option ℤ)
    → Resolves
        (or_else invoice (or_else service (or_else partner platform)))
        (resolve_payment_terms platform partner service invoice)
unfolding resolve_payment_terms first_candidate
resolve_payment_terms-Resolves platform partner service (some d) =
    first_candidate-some d (service ∷ partner ∷ some platform ∷ [])
resolve_payment_terms-Resolves platform partner (some d) none =
    first_candidate-some d (partner ∷ some platform ∷ [])
resolve_payment_terms-Resolves platform (some d) none none =
    first_candidate-some d (some platform ∷ [])
resolve_payment_terms-Resolves platform none none none = first_candidate-some platform []
