-- ===== src/TenantFinance/Items/Exact.antt =====
-- `calculateItems` never returns a wrapped amount: what it returns is exact.
use mathlib.Core.List.{append_assoc, append-nil}
use himate_system.Base.{
  refl, ltb, ◌==◌, ◌||◌, is_empty, byte_len, reject_if, reject_if-eq-ok, ◌>>◌, ℕ, ◌+◌, ◌≤◌, ◌<◌,
  ◌≡◌, ap, ◌∙◌, inl, inr, List, [], ◌∷◌, ◌++◌, arith, length, sum_by, sum_by-concat, pos, negsuc,
  pos_part, max_int64, add64, sub64, add64_pos, sub64_pos, ok, ◌>>=◌, >>=-eq-ok, Text, trim_space,
}
use himate_system.TenantFinance.Items.{
  InvoiceItemInput, CalculatedItem, Totals, Amounts, accumulate, add_item, add_items,
  calculate_items, no_totals, line_amounts, item_of, bad_description, no_items, too_many_items,
}
use himate_system.TenantFinance.Items.Lines.{
  IsExactAmounts, exact_amounts_small, line_amounts_outcome,
}

-- The item `x` is line `n` for `input`: the fields are copied, the description is trimmed, and the
-- amounts are those of exact arithmetic on numbers that are not negative.
pub record IsExactLine (n : ℕ) (input : InvoiceItemInput) (x : CalculatedItem) (q p d r net tax : ℕ)
    : Type 0 where
  pub quantity : input.quantity_milli ≡ pos q
  pub price : input.unit_price_minor ≡ pos p
  pub discount : input.discount_minor ≡ pos d
  pub rate : input.tax_rate_bps ≡ pos r
  pub amounts : IsExactAmounts q p d r net tax
  pub item : x ≡ record {
    line_no = n;
    description = trim_space input.description;
    quantity_milli = pos q;
    unit_price_minor = pos p;
    discount_minor = pos d;
    tax_rate_bps = pos r;
    net_minor = pos net;
    tax_minor = pos tax;
    total_minor = pos (net + tax);
  }

abbrev pub ExactLine : ℕ → InvoiceItemInput → CalculatedItem → Type 0
ExactLine n input x =
    (q : ℕ) × (p : ℕ) × (d : ℕ) × (r : ℕ) × (net : ℕ) × (tax : ℕ) × IsExactLine n input x q p d r
      net tax

-- One item for each input, in order, numbered from `n`.
abbrev pub ExactLines : ℕ → List InvoiceItemInput → List CalculatedItem → Type 0
ExactLines n [] [] = Unit
ExactLines n [] (x ∷ xs) = ⊥
ExactLines n (i ∷ is) [] = ⊥
ExactLines n (i ∷ is) (x ∷ xs) = ExactLine n i x × ExactLines (n + 1) is xs

abbrev pub net_of : CalculatedItem → ℕ
net_of x = pos_part x.net_minor

abbrev pub tax_part : CalculatedItem → ℕ
tax_part x = pos_part x.tax_minor

-- The totals are the sums over the items, within int64, and the total is net plus tax.
pub record IsExactTotals (t : Totals) : Type 0 where
  pub subtotal_sum : t.subtotal ≡ pos (sum_by net_of t.items)
  pub tax_sum : t.tax_total ≡ pos (sum_by tax_part t.items)
  pub total_sum : t.total ≡ pos (sum_by net_of t.items + sum_by tax_part t.items)
  pub fits : sum_by net_of t.items + sum_by tax_part t.items ≤ max_int64

abbrev pub exact_amounts : ℕ → ℕ → Amounts
exact_amounts net tax = record { net = pos net; tax = pos tax; line_total = pos (net + tax) }

accumulate-eq-ok :
    (n : ℕ) (desc : Text) (input : InvoiceItemInput) (net tax : ℕ) (acc t : Totals)
    → IsExactTotals acc
    → net + tax ≤ max_int64
    → accumulate n desc input (exact_amounts net tax) acc ≡ ok t
    → (sum_by net_of acc.items + sum_by tax_part acc.items + (net + tax) ≤ max_int64)
      × (t.items ≡ acc.items ++ (item_of n desc input (exact_amounts net tax) ∷ []))
      × (t.subtotal ≡ add64 acc.subtotal (pos net))
      × (t.tax_total ≡ add64 acc.tax_total (pos tax))
      × (t.total ≡ add64 acc.total (pos (net + tax)))
unfolding accumulate
accumulate-eq-ok n desc input net tax acc t h small e = ground (
  arith,
  h.subtotal_sum,
  h.tax_sum,
  h.total_sum,
  sub64_pos max_int64 net,
  sub64_pos max_int64 tax,
  sub64_pos max_int64 (net + tax),
)

pub accumulate_exact :
    (n : ℕ) (desc : Text) (input : InvoiceItemInput) (net tax : ℕ) (acc t : Totals)
    → IsExactTotals acc
    → net + tax ≤ max_int64
    → accumulate n desc input (exact_amounts net tax) acc ≡ ok t
    → IsExactTotals t × (t.items ≡ acc.items ++ (item_of n desc input (exact_amounts net tax) ∷ []))
accumulate_exact n desc input net tax acc t h small e =
    let (room, items, sub, tx, tot) = accumulate-eq-ok n desc input net tax acc t h small e in
    let x = item_of n desc input (exact_amounts net tax) in
    let s1 = sum_by-concat net_of acc.items x in
    let s2 = sum_by-concat tax_part acc.items x in
    (
      (record {
        subtotal_sum =
            rw (items, sub, s1, h.subtotal_sum)
              (add64_pos (sum_by net_of acc.items) net (omega arith));
        tax_sum =
            rw (items, tx, s2, h.tax_sum) (add64_pos (sum_by tax_part acc.items) tax (omega arith));
        total_sum =
            rw (items, tot, s1, s2, h.total_sum)
              (add64_pos (sum_by net_of acc.items + sum_by tax_part acc.items) (net + tax) room
                ∙ ap pos (omega arith));
        fits = rw (items, s1, s2) (omega arith);
      }),
      items,
    )

accumulate_negative_tax :
    (n : ℕ) (desc : Text) (input : InvoiceItemInput) (a : Amounts) (acc t : Totals)
    → IsExactTotals acc
    → a.tax ≡ negsuc 922337203685476
    → accumulate n desc input a acc ≡ ok t
    → ⊥
unfolding accumulate sub64
accumulate_negative_tax n desc input a acc t h neg e = ground (arith, h.tax_sum)

add_item-eq-ok :
    (n : ℕ) (input : InvoiceItemInput) (acc t : Totals)
    → add_item n input acc ≡ ok t
    → (a : Amounts) × (line_amounts n input.quantity_milli input.unit_price_minor
          input.discount_minor input.tax_rate_bps
        ≡ ok a)
      × (accumulate n (trim_space input.description) input a acc ≡ ok t)
unfolding add_item
add_item-eq-ok n input acc t e =
    let desc = trim_space input.description in
    let (described, rest) =
      reject_if-eq-ok (is_empty desc || ltb 500 (byte_len desc)) (bad_description n)
        (line_amounts n input.quantity_milli input.unit_price_minor input.discount_minor
            input.tax_rate_bps
          >>= λ a. accumulate n desc input a acc)
        e in
    >>=-eq-ok
      (line_amounts n input.quantity_milli input.unit_price_minor input.discount_minor
        input.tax_rate_bps)
      (λ a. accumulate n desc input a acc) rest

-- One step of the loop.
add_item_exact :
    (n : ℕ) (input : InvoiceItemInput) (acc t : Totals)
    → IsExactTotals acc
    → add_item n input acc ≡ ok t
    → (x : CalculatedItem) × ExactLine n input x
      × IsExactTotals t
      × (t.items ≡ acc.items ++ (x ∷ []))
add_item_exact n input acc t h e =
    let (a, amounts, added) = add_item-eq-ok n input acc t e in
    let (q, p, d, r, eq, ep, ed, er, outcome) =
      line_amounts_outcome n input.quantity_milli input.unit_price_minor input.discount_minor
        input.tax_rate_bps a amounts in
    let desc = trim_space input.description in
    elim outcome [
      | inl (net, tax, exact, same) ↦
          let (totals, items) =
            accumulate_exact n desc input net tax acc t h (omega (arith, exact_amounts_small exact))
              (rw same at added) in
          (
            item_of n desc input (exact_amounts net tax),
            (
              q,
              p,
              d,
              r,
              net,
              tax,
              record {
                quantity = eq;
                price = ep;
                discount = ed;
                rate = er;
                amounts = exact;
                item = cc (eq, ep, ed, er);
              },
            ),
            totals,
            items,
          )
      | inr negative ↦ absurd (accumulate_negative_tax n desc input a acc t h negative added)
    ]

add_items_exact :
    (n : ℕ) (inputs : List InvoiceItemInput) (acc t : Totals)
    → IsExactTotals acc
    → add_items n inputs acc ≡ ok t
    → (new : List CalculatedItem) × (t.items ≡ acc.items ++ new)
      × ExactLines n inputs new
      × IsExactTotals t
unfolding add_items
add_items_exact n [] acc t h e =
    let same : acc ≡ t = cc in ([], cc (append-nil acc.items), tt, rw (← same) h)
add_items_exact n (input ∷ rest) acc t h e =
    let (mid, step, loop) = >>=-eq-ok (add_item n input acc) (λ m. add_items (n + 1) rest m) e in
    let (x, exact, totals, items) = add_item_exact n input acc mid h step in
    let (new, all, lines, sums) = add_items_exact (n + 1) rest mid t totals loop in
    (x ∷ new, cc (all, items, append_assoc acc.items (x ∷ []) new), (exact, lines), sums)

-- Whatever int64 values come in: if the calculation succeeds, there is one item for each of the 1 to
-- 200 inputs, in order and numbered from 1, with the amounts of exact arithmetic, and the returned
-- totals are the exact sums of the items. No intermediate overflow reaches the result.
pub calculate_items-ExactLines :
    (inputs : List InvoiceItemInput) (t : Totals)
    → calculate_items inputs ≡ ok t
    → (0 < length inputs) × (length inputs ≤ 200) × ExactLines 1 inputs t.items × IsExactTotals t
unfolding calculate_items
calculate_items-ExactLines inputs t e =
    let (some_items, e1) =
      reject_if-eq-ok (length inputs == 0) no_items
        (reject_if (ltb 200 (length inputs)) too_many_items >> add_items 1 inputs no_totals) e in
    let (few_items, e2) =
      reject_if-eq-ok (ltb 200 (length inputs)) too_many_items (add_items 1 inputs no_totals) e1 in
    let start : IsExactTotals no_totals = record {
      subtotal_sum = refl;
      tax_sum = refl;
      total_sum = refl;
      fits = omega arith;
    } in
    let (new, all, lines, sums) = add_items_exact 1 inputs no_totals t start e2 in
    (ground arith, ground arith, rw all lines, sums)
