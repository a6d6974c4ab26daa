-- ===== src/TenantFinance/Items/Lines.antt =====
-- The amounts of one line against exact arithmetic.
use himate_system.Base.{
  false, ltb_ℤ, sub64, ℕ, zero, suc, refl, ◌+◌, ◌-◌, ◌*◌, ◌/◌, ◌≤◌, ◌<◌, ◌≡◌, ◌⊎◌, inl, inr, arith,
  ℤ, pos, negsuc, max_int64, two_64, add64, div64, add64_pos, sub64_pos, mul64_pos, ok,
}
use native.Mathlib.Decide.{dec_le}
use native.Mathlib.Nat.{le_refl, le_trans, mul-div-le}
use himate_system.TenantFinance.Items.{
  safe_round_div, gross_net, tax_of, taxed, line_amounts, Amounts,
}

-- Half up at `divisor` units.
abbrev pub rounded : ℕ → ℕ → ℕ
rounded product divisor = (product + divisor / 2) / divisor

pub product-le : (q p a b : ℕ) → q ≤ a → p ≤ b → q * p ≤ a * b
product-le q p a b h k = grind arith

pub gross_net_pos :
    (q p : ℕ)
    → q ≤ 100_000_000
    → p ≤ 10_000_000_000
    → gross_net (pos q) (pos p) ≡ pos (rounded (q * p) 1000)
unfolding gross_net safe_round_div div64
gross_net_pos q p h k =
    let le : q * p ≤ 1_000_000_000_000_000_000 = product-le q p 100_000_000 10_000_000_000 h k in
    ground (arith, mul64_pos q p, add64_pos (q * p) 500)

pub tax_of_pos :
    (net rate : ℕ)
    → net * rate + 5000 ≤ max_int64
    → tax_of (pos net) (pos rate) ≡ pos (rounded (net * rate) 10000)
unfolding tax_of safe_round_div div64
tax_of_pos net rate h = ground (arith, mul64_pos net rate, add64_pos (net * rate) 5000)

add64_over :
    (a b : ℕ)
    → max_int64 < a + b
    → a + b < two_64
    → add64 (pos a) (pos b) ≡ negsuc (two_64 - (a + b) - 1)
unfolding add64
add64_over a b h k = ground arith

-- The rounding constant can carry the product over the largest int64: the tax comes out negative.
pub tax_of_overflow :
    (net rate : ℕ)
    → net * rate ≤ max_int64
    → max_int64 < net * rate + 5000
    → tax_of (pos net) (pos rate) ≡ negsuc 922337203685476
unfolding tax_of safe_round_div div64
tax_of_overflow net rate h k = ground (arith, mul64_pos net rate, add64_over (net * rate) 5000)

-- A line's amounts as exact arithmetic gives them.
pub record IsExactAmounts (q p d rate net tax : ℕ) : Type 0 where
  pub quantity_range : (0 < q) × (q ≤ 100_000_000)
  pub price_range : p ≤ 10_000_000_000
  pub rate_range : rate ≤ 10_000
  pub discount_fits : d ≤ rounded (q * p) 1000
  pub net_exact : net ≡ rounded (q * p) 1000 - d
  pub tax_exact : tax ≡ rounded (net * rate) 10000

-- The two outcomes for a line that passes its own tests: exact amounts, or a negative tax.
abbrev pub LineOutcome : (q p d rate : ℕ) → Amounts → Type 0
LineOutcome q p d rate a =
    ((net : ℕ) × (tax : ℕ) × IsExactAmounts q p d rate net tax
      × (a ≡ record { net = pos net; tax = pos tax; line_total = pos (net + tax) }))
    ⊎ (a.tax ≡ negsuc 922337203685476)

product-le_of_quotient : (m n r : ℕ) → r ≤ m / n → n * r ≤ m
product-le_of_quotient m n r h = le_trans (product-le n r n (m / n) (le_refl n) h) (mul-div-le m n)

taxed-eq-ok :
    (n net rate : ℕ) (a : Amounts)
    → taxed n (pos net) (pos rate) ≡ ok a
    → (net * rate ≤ max_int64)
      × (a ≡ record {
        net = pos net;
        tax = tax_of (pos net) (pos rate);
        line_total = add64 (pos net) (tax_of (pos net) (pos rate));
      })
unfolding taxed div64
taxed-eq-ok n zero rate a h = (omega arith, ground arith)
taxed-eq-ok n (suc net) rate a h =
    (product-le_of_quotient max_int64 (suc net) rate (ground arith), ground arith)

taxed_outcome :
    (n q p d rate : ℕ) (a : Amounts)
    → 0 < q
    → q ≤ 100_000_000
    → p ≤ 10_000_000_000
    → rate ≤ 10_000
    → d ≤ rounded (q * p) 1000
    → taxed n (pos (rounded (q * p) 1000 - d)) (pos rate) ≡ ok a
    → LineOutcome q p d rate a
taxed_outcome n q p d rate a q0 q1 p1 r1 d1 h =
    let net : ℕ = rounded (q * p) 1000 - d in
    let (fits, e) = taxed-eq-ok n net rate a h in
    elim (dec_le (net * rate + 5000) max_int64) [
      | yes small ↦
          let tax : ℕ = rounded (net * rate) 10000 in
          let le : q * p ≤ 1_000_000_000_000_000_000 =
            product-le q p 100_000_000 10_000_000_000 q1 p1 in
          inl (
            net,
            tax,
            (record {
              quantity_range = (q0, q1);
              price_range = p1;
              rate_range = r1;
              discount_fits = d1;
              net_exact = refl;
              tax_exact = refl;
            }),
            cc (e, tax_of_pos net rate small, add64_pos net tax (omega arith)),
          )
      | no large ↦ inr (cc (e, tax_of_overflow net rate fits (omega arith)))
    ]

line_amounts-eq-ok :
    (n q p d r : ℕ) (a : Amounts)
    → line_amounts n (pos q) (pos p) (pos d) (pos r) ≡ ok a
    → (0 < q)
      × (q ≤ 100_000_000)
      × (p ≤ 10_000_000_000)
      × (r ≤ 10_000)
      × (ltb_ℤ (gross_net (pos q) (pos p)) (pos d) ≡ false)
      × (taxed n (sub64 (gross_net (pos q) (pos p)) (pos d)) (pos r) ≡ ok a)
unfolding line_amounts
line_amounts-eq-ok n q p d r a h = ground arith

-- A line that passes its own tests is exact or has the negative tax; its numbers are not negative.
pub line_amounts_outcome :
    (n : ℕ) (quantity price discount rate : ℤ) (a : Amounts)
    → line_amounts n quantity price discount rate ≡ ok a
    → (q : ℕ) × (p : ℕ) × (d : ℕ) × (r : ℕ) × (quantity ≡ pos q)
      × (price ≡ pos p)
      × (discount ≡ pos d)
      × (rate ≡ pos r)
      × LineOutcome q p d r a
unfolding line_amounts
line_amounts_outcome n (negsuc q) price discount rate a h = ground arith
line_amounts_outcome n (pos q) (negsuc p) discount rate a h = ground arith
line_amounts_outcome n (pos q) (pos p) discount (negsuc r) a h = ground arith
line_amounts_outcome n (pos q) (pos p) (negsuc d) (pos r) a h = ground arith
line_amounts_outcome n (pos q) (pos p) (pos d) (pos r) a h =
    let (q0, q1, p1, r1, fits, rest) = line_amounts-eq-ok n q p d r a h in
    let gross = gross_net_pos q p q1 p1 in
    let le : q * p ≤ 1_000_000_000_000_000_000 = product-le q p 100_000_000 10_000_000_000 q1 p1 in
    let d1 : d ≤ rounded (q * p) 1000 = ground (arith, gross) in
    let net = sub64_pos (rounded (q * p) 1000) d d1 (omega arith) in
    (
      q,
      p,
      d,
      r,
      refl,
      refl,
      refl,
      refl,
      taxed_outcome n q p d r a q0 q1 p1 r1 d1 (rw (gross, net) at rest),
    )

-- A line is at most some 2 * 10^15, far below the largest int64.
pub exact_amounts_small :
    {q p d r net tax : ℕ} → IsExactAmounts q p d r net tax → net + tax ≤ 2_000_000_000_000_010
exact_amounts_small {q} {p} {d} {r} {net} {tax} h =
    let le : q * p ≤ 1_000_000_000_000_000_000 =
      product-le q p 100_000_000 10_000_000_000 h.quantity_range.1 h.price_range in
    let net_le : net ≤ 1_000_000_000_000_000 = omega (arith, h.net_exact) in
    let prod : net * r ≤ 10_000_000_000_000_000_000 =
      product-le net r 1_000_000_000_000_000 10_000 net_le h.rate_range in
    omega (arith, h.tax_exact)
