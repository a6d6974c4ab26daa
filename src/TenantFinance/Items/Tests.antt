-- ===== src/TenantFinance/Items/Tests.antt =====
-- Runs of the invoice calculation on concrete lines.
use himate_system.Base.{
  ◌<◌, ◌≤◌, ◌≡◌, refl, [], ◌∷◌, pos, negsuc, codes, ok, err, wrap, add64, sub64, mul64, div64, ◌+ℤ◌,
  ◌-ℤ◌, ◌*ℤ◌,
}
use himate_system.Base.Strings.Ascii.{evaluate_texts}
use himate_system.TenantFinance.Items.{
  InvoiceItemInput, CalculatedItem, Totals, safe_round_div, gross_net, tax_of, taxed, line_amounts,
  accumulate, add_item, add_items, calculate_items, total_too_large, bad_discount,
}
use himate_system.TenantFinance.Items.Exact.{ExactLines, IsExactTotals, calculate_items-ExactLines}

abbrev tuning : InvoiceItemInput
tuning = record {
  description = codes " Tuning ";
  quantity_milli = pos 1500;
  unit_price_minor = pos 12_345;
  discount_minor = pos 518;
  tax_rate_bps = pos 825;
}

abbrev tuning_item : CalculatedItem
tuning_item = record {
  line_no = 1;
  description = codes "Tuning";
  quantity_milli = pos 1500;
  unit_price_minor = pos 12_345;
  discount_minor = pos 518;
  tax_rate_bps = pos 825;
  net_minor = pos 18_000;
  tax_minor = pos 1485;
  total_minor = pos 19_485;
}

abbrev tuning_totals : Totals
tuning_totals = record {
  items = tuning_item ∷ [];
  subtotal = pos 18_000;
  tax_total = pos 1485;
  total = pos 19_485;
}

-- Unfolding this unfolds all that a run of `calculate_items` computes with.
unfoldable evaluate_items : Unit {0}
unfolding evaluate_texts safe_round_div gross_net tax_of taxed line_amounts accumulate add_item
    add_items calculate_items wrap add64 sub64 mul64 div64 ◌+ℤ◌ ◌-ℤ◌ ◌*ℤ◌
evaluate_items = tt

calculate_tuning : calculate_items (tuning ∷ []) ≡ ok tuning_totals
unfolding evaluate_items
calculate_tuning = refl

-- A tax product just below the largest int64: the rounding wraps to a negative tax, and only the
-- check of the totals refuses the line.
abbrev huge : InvoiceItemInput
huge = record {
  description = codes "Huge";
  quantity_milli = pos 100_000_000;
  unit_price_minor = pos 10_000_000_000;
  discount_minor = pos 77_386_012_118_158;
  tax_rate_bps = pos 9997;
}

huge_tax : tax_of (pos 922_613_987_881_842) (pos 9997) ≡ negsuc 922_337_203_685_476
unfolding evaluate_items
huge_tax = refl

huge_refused : calculate_items (huge ∷ []) ≡ err total_too_large
unfolding evaluate_items
huge_refused = refl

discount_refused :
    calculate_items (record tuning { discount_minor = pos 18_519 } ∷ []) ≡ err (bad_discount 1)
unfolding evaluate_items
discount_refused = refl

calculate_items-ExactLines_example :
    (0 < 1)
    × (1 ≤ 200)
    × ExactLines 1 (tuning ∷ []) (tuning_item ∷ [])
    × IsExactTotals tuning_totals
calculate_items-ExactLines_example =
    calculate_items-ExactLines (tuning ∷ []) tuning_totals calculate_tuning
