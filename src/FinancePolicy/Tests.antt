-- ===== src/FinancePolicy/Tests.antt =====
-- Runs of the finance policy on concrete input.
use himate_system.Base.{
  ◌≡◌, refl, none, some, [], ◌∷◌, pos, negsuc, Text, codes, ok, err, not, ◌&&◌, is_empty, map,
  to_upper, trim_space,
}
use himate_system.Base.Strings.Ascii.{ascii, evaluate_texts}
use himate_system.FinancePolicy.{
  Policy, resolve_payment_terms, first_candidate, validate_days, terms_out_of_range, text_lt,
  insert_text, sort_texts, contains, collect_methods, normalize_basis, normalize_policy,
  accounting_accrual,
}
use himate_system.FinancePolicy.Normalize.{IsNormalPolicy, normalize_policy-IsNormalPolicy}

abbrev given : Policy
given = record {
  default_payment_terms_days = pos 8;
  accounting_basis = codes " accrual";
  payment_methods =
      codes "stripe" ∷ codes " ZELLE " ∷ codes "Stripe" ∷ codes "" ∷ codes "cash" ∷ [];
}

abbrev stored : Policy
stored = record {
  default_payment_terms_days = pos 8;
  accounting_basis = accounting_accrual;
  payment_methods = codes "CASH" ∷ codes "STRIPE" ∷ codes "ZELLE" ∷ [];
}

normalize_given : normalize_policy given ≡ ok stored
unfolding normalize_policy validate_days normalize_basis sort_texts insert_text text_lt
    collect_methods evaluate_texts
normalize_given = refl

override_wins : resolve_payment_terms (pos 8) (some (pos 15)) none (some (pos 3)) ≡ ok (pos 3)
unfolding resolve_payment_terms first_candidate validate_days
override_wins = refl

negative_override :
    resolve_payment_terms (pos 8) none none (some (negsuc 0)) ≡ err terms_out_of_range
unfolding resolve_payment_terms first_candidate validate_days
negative_override = refl

normalize_policy-IsNormalPolicy_example :
    IsNormalPolicy stored
    × ((m : Text)
        → contains m stored.payment_methods ≡ (
            not (is_empty m)
            && contains m (map (λ r. to_upper (trim_space r)) given.payment_methods)))
normalize_policy-IsNormalPolicy_example =
    normalize_policy-IsNormalPolicy given stored normalize_given
