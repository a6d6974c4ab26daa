-- ===== src/TenantFinance/Items.antt =====
-- services/cmd/tenantfinance/domain.go: the amounts of an invoice, in minor units of its currency.
-- All amounts are Go int64 values with wrap-around.
pub mod Lines
pub mod Exact
pub mod Total
mod Tests
use himate_system.Base.{
  ℕ, ◌+◌, ◌==◌, Bool, not, ◌&&◌, ◌||◌, List, [], ◌∷◌, ◌++◌, ltb, if◌then◌else◌, length, ℤ, pos,
  ltb_ℤ, leb_ℤ, max_int64, add64, sub64, mul64, div64, Result, ok, err, ◌>>=◌, ◌>>◌, reject_if,
  Text, is_empty, byte_len, trim_space,
}

pub record InvoiceItemInput : Type 0 where
  pub description : Text
  pub quantity_milli : ℤ
  pub unit_price_minor : ℤ
  pub discount_minor : ℤ
  pub tax_rate_bps : ℤ

pub record CalculatedItem : Type 0 where
  pub line_no : ℕ
  pub description : Text
  pub quantity_milli : ℤ
  pub unit_price_minor : ℤ
  pub discount_minor : ℤ
  pub tax_rate_bps : ℤ
  pub net_minor : ℤ
  pub tax_minor : ℤ
  pub total_minor : ℤ

-- The variables of the loop, which the function returns.
pub record Totals : Type 0 where
  pub items : List CalculatedItem
  pub subtotal : ℤ
  pub tax_total : ℤ
  pub total : ℤ

-- The messages; a number is that of the line.
pub data ItemError : Type 0 where
  no_items too_many_items total_too_large : ItemError
  bad_description bad_quantity bad_unit_price bad_tax_rate : ℕ → ItemError
  amount_too_large bad_discount tax_too_large : ℕ → ItemError

unfoldable pub safe_round_div : ℤ → ℤ → ℤ
safe_round_div product divisor =
    if leb_ℤ (pos 0) product
    then div64 (add64 product (div64 divisor (pos 2))) divisor
    else div64 (sub64 product (div64 divisor (pos 2))) divisor

abbrev pub is_zero : ℤ → Bool
is_zero a = leb_ℤ a (pos 0) && leb_ℤ (pos 0) a

-- The net amount, the tax and the total of one line.
pub record Amounts : Type 0 where
  pub net : ℤ
  pub tax : ℤ
  pub line_total : ℤ

unfoldable pub gross_net : ℤ → ℤ → ℤ
gross_net quantity price = safe_round_div (mul64 quantity price) (pos 1000)

unfoldable pub tax_of : ℤ → ℤ → ℤ
tax_of net rate = safe_round_div (mul64 net rate) (pos 10000)

-- The part of the loop's body after the discount is known to fit.
unfoldable pub taxed : ℕ → ℤ → ℤ → Result ItemError Amounts
taxed n net rate = do
  reject_if (not (is_zero net) && ltb_ℤ (div64 (pos max_int64) net) rate) (tax_too_large n)
  let tax = tax_of net rate
  ok (record { net = net; tax = tax; line_total = add64 net tax })

-- The part of the loop's body that looks at one line alone, after its description.
unfoldable pub line_amounts : ℕ → ℤ → ℤ → ℤ → ℤ → Result ItemError Amounts
line_amounts n quantity price discount rate = do
  reject_if (leb_ℤ quantity (pos 0) || ltb_ℤ (pos 100_000_000) quantity) (bad_quantity n)
  reject_if (ltb_ℤ price (pos 0) || ltb_ℤ (pos 10_000_000_000) price) (bad_unit_price n)
  reject_if (ltb_ℤ rate (pos 0) || ltb_ℤ (pos 10_000) rate) (bad_tax_rate n)
  reject_if (not (is_zero quantity) && ltb_ℤ (div64 (pos max_int64) quantity) price)
      (amount_too_large n)
  let gross = gross_net quantity price
  reject_if (ltb_ℤ discount (pos 0) || ltb_ℤ gross discount) (bad_discount n)
  taxed n (sub64 gross discount) rate

abbrev pub item_of : ℕ → Text → InvoiceItemInput → Amounts → CalculatedItem
item_of n desc input a = record {
  line_no = n;
  description = desc;
  quantity_milli = input.quantity_milli;
  unit_price_minor = input.unit_price_minor;
  discount_minor = input.discount_minor;
  tax_rate_bps = input.tax_rate_bps;
  net_minor = a.net;
  tax_minor = a.tax;
  total_minor = a.line_total;
}

-- The rest of the body: the checked sums and the new item.
unfoldable pub accumulate : ℕ → Text → InvoiceItemInput → Amounts → Totals → Result ItemError Totals
accumulate n desc input a acc = do
  reject_if
      (ltb_ℤ (sub64 (pos max_int64) a.net) acc.subtotal
        || ltb_ℤ (sub64 (pos max_int64) a.tax) acc.tax_total
        || ltb_ℤ (sub64 (pos max_int64) a.line_total) acc.total)
      total_too_large
  ok (record {
    items = acc.items ++ (item_of n desc input a ∷ []);
    subtotal = add64 acc.subtotal a.net;
    tax_total = add64 acc.tax_total a.tax;
    total = add64 acc.total a.line_total;
  })

unfoldable pub add_item : ℕ → InvoiceItemInput → Totals → Result ItemError Totals
add_item n input acc = do
  let desc = trim_space input.description
  reject_if (is_empty desc || ltb 500 (byte_len desc)) (bad_description n)
  a ←
      line_amounts n input.quantity_milli input.unit_price_minor input.discount_minor
        input.tax_rate_bps
  accumulate n desc input a acc

-- The loop over the inputs; `n` is `i+1`.
unfoldable pub add_items : ℕ → List InvoiceItemInput → Totals → Result ItemError Totals
add_items n [] acc = ok acc
add_items n (input ∷ rest) acc = add_item n input acc >>= λ acc'. add_items (n + 1) rest acc'

abbrev pub no_totals : Totals
no_totals = record { items = []; subtotal = pos 0; tax_total = pos 0; total = pos 0 }

unfoldable pub calculate_items : List InvoiceItemInput → Result ItemError Totals
calculate_items inputs = do
  reject_if (length inputs == 0) no_items
  reject_if (ltb 200 (length inputs)) too_many_items
  add_items 1 inputs no_totals
