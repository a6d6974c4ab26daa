-- ===== src/FinancePolicy.antt =====
-- services/internal/financepolicy/policy.go: payment terms and the accounting policy of a partner.
-- A Go `int` is an integer here; a nil `*int` is `none`.
pub mod Terms
pub mod Methods
pub mod Normalize
mod Tests
use himate_system.Base.{
  ℕ, Bool, true, false, not, ◌&&◌, ◌||◌, Option, none, some, List, [], ◌∷◌, ◌++◌, ltb,
  if◌then◌else◌, ℤ, pos, ltb_ℤ, Result, ok, err, ◌>>=◌, ◌>>◌, reject_if, Text, codes, is_empty,
  text_eq, Unicode, to_upper, trim_space,
}

pub record Policy : Type 0 where
  pub default_payment_terms_days : ℤ
  pub accounting_basis : Text
  pub payment_methods : List Text

pub data PolicyError : Type 0 where
  terms_out_of_range terms_not_configured basis_unknown : PolicyError

abbrev pub accounting_cash : Text
accounting_cash = codes "CASH"

abbrev pub accounting_accrual : Text
accounting_accrual = codes "ACCRUAL"

unfoldable pub validate_days : ℤ → Result PolicyError (Unit {0})
validate_days days =
    if ltb_ℤ days (pos 0) || ltb_ℤ (pos 365) days then err terms_out_of_range else ok tt

-- The loop over the candidates, most specific first.
unfoldable pub first_candidate : List (Option ℤ) → Result PolicyError ℤ
first_candidate [] = err terms_not_configured
first_candidate (none ∷ rest) = first_candidate rest
first_candidate (some days ∷ rest) = do validate_days days; ok days

unfoldable pub resolve_payment_terms : ℤ → Option ℤ → Option ℤ → Option ℤ → Result PolicyError ℤ
resolve_payment_terms platform_default partner_default service_default invoice_override =
    first_candidate
      (invoice_override ∷ service_default ∷ partner_default ∷ some platform_default ∷ [])

-- The order of `sort.Strings`; UTF-8 keeps the order of code points.
unfoldable pub text_lt : Text → Text → Bool
text_lt [] [] = false
text_lt [] (d ∷ t) = true
text_lt (c ∷ s) [] = false
text_lt (c ∷ s) (d ∷ t) = ltb c d || (not (ltb d c) && text_lt s t)

unfoldable pub insert_text : Text → List Text → List Text
insert_text x [] = x ∷ []
insert_text x (y ∷ ys) = if text_lt y x then y ∷ insert_text x ys else x ∷ y ∷ ys

-- sort.Strings
unfoldable pub sort_texts : List Text → List Text
sort_texts [] = []
sort_texts (x ∷ xs) = insert_text x (sort_texts xs)

abbrev pub contains : Text → List Text → Bool
contains x [] = false
contains x (y ∷ ys) = text_eq x y || contains x ys

module _ ⦃u : Unicode⦄ where
  -- The loop over the payment methods; the keys of `seen` are the methods kept so far.
  unfoldable pub collect_methods : List Text → List Text → List Text
  collect_methods kept [] = kept
  collect_methods kept (raw ∷ rest) =
      let method = to_upper (trim_space raw) in
      collect_methods
        (if is_empty method || contains method kept then kept else kept ++ (method ∷ [])) rest

  unfoldable pub normalize_basis : Text → Result PolicyError Text
  normalize_basis raw =
      let cleaned = to_upper (trim_space raw) in
      let basis = (if is_empty cleaned then accounting_cash else cleaned) in
      if not (text_eq basis accounting_cash) && not (text_eq basis accounting_accrual)
      then err basis_unknown
      else ok basis

  unfoldable pub normalize_policy : Policy → Result PolicyError Policy
  normalize_policy p = do
    validate_days p.default_payment_terms_days
    basis ← normalize_basis p.accounting_basis
    ok (record {
      default_payment_terms_days = p.default_payment_terms_days;
      accounting_basis = basis;
      payment_methods = sort_texts (collect_methods [] p.payment_methods);
    })
