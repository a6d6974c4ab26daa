-- ===== src/TenantFinance/Items/Total.antt =====
-- Which invoices `calculateItems` accepts.
use himate_system.Base.{
  ℕ, ◌+◌, ◌-◌, ◌*◌, ◌≤◌, ◌<◌, ◌≡◌, false, pos, max_int64, is_empty, byte_len, trim_space, sum_by,
}
use himate_system.TenantFinance.Items.{InvoiceItemInput, Totals}
use himate_system.TenantFinance.Items.Lines.{rounded}
use himate_system.TenantFinance.Items.Exact.{net_of, tax_part}

-- The line's net amount and tax.
abbrev pub line_net : (q p d : ℕ) → ℕ
line_net q p d = rounded (q * p) 1000 - d

-- What a caller has to respect: ranges in plain numbers, a discount within the line, a description,
-- and a tax product that leaves room for the rounding constant.
pub record IsValidInput (input : InvoiceItemInput) (q p d r : ℕ) : Type 0 where
  pub quantity : input.quantity_milli ≡ pos q
  pub price : input.unit_price_minor ≡ pos p
  pub discount : input.discount_minor ≡ pos d
  pub rate : input.tax_rate_bps ≡ pos r
  pub described : is_empty (trim_space input.description) ≡ false
  pub short : byte_len (trim_space input.description) ≤ 500
  pub quantity_range : (0 < q) × (q ≤ 100_000_000)
  pub price_range : p ≤ 10_000_000_000
  pub rate_range : r ≤ 10_000
  pub discount_fits : d ≤ rounded (q * p) 1000
  pub tax_room : line_net q p d * r + 5000 ≤ max_int64

abbrev pub ValidInput : InvoiceItemInput → Type 0
ValidInput input = (q : ℕ) × (p : ℕ) × (d : ℕ) × (r : ℕ) × IsValidInput input q p d r

-- The sums so far.
abbrev sums : Totals → ℕ
sums t = sum_by net_of t.items + sum_by tax_part t.items

abbrev line_bound : ℕ
line_bound = 2_000_000_000_000_010
