-- ===== src/Automation/Picking.antt =====
-- `SELECT id ... WHERE p ORDER BY available_at,id LIMIT n` and the `UPDATE` of the picked rows, which
-- the outbox and the delivery queue share.
pub mod Laws
use himate_system.Base.{
  ℕ, zero, suc, ◌==◌, Bool, true, false, ◌&&◌, ◌||◌, List, [], ◌∷◌, map, ltb, leb, if◌then◌else◌,
  select, update_where,
}

abbrev pub mem : ℕ → List ℕ → Bool
mem n [] = false
mem n (m ∷ ms) = n == m || mem n ms

module _ {ℓ} {A : Type ℓ} where
  abbrev pub take : ℕ → List A → List A
  take zero xs = []
  take (suc n) [] = []
  take (suc n) (x ∷ xs) = x ∷ take n xs

module _ {ℓ} {A : Type ℓ} (available_at id : A → ℕ) where
  -- The order of `ORDER BY available_at,id`.
  abbrev pub earlier : A → A → Bool
  earlier a b =
      ltb (available_at a) (available_at b)
      || (available_at a == available_at b && leb (id a) (id b))

  unfoldable pub insert_row : A → List A → List A
  insert_row a [] = a ∷ []
  insert_row a (b ∷ bs) = if earlier a b then a ∷ b ∷ bs else b ∷ insert_row a bs

  unfoldable pub sort_rows : List A → List A
  sort_rows [] = []
  sort_rows (a ∷ rest) = insert_row a (sort_rows rest)

  -- The ids that the `WITH picked` clause gives.
  unfoldable pub picked : (A → Bool) → ℕ → List A → List ℕ
  picked eligible n rows = map id (take n (sort_rows (select eligible rows)))

  -- The table after the `UPDATE`, and the rows that it returns.
  unfoldable pub update_picked : (A → Bool) → ℕ → (A → A) → List A → List A
  update_picked eligible n f rows =
      let ids = picked eligible n rows in update_where (λ r. mem (id r) ids) f rows

  unfoldable pub returned : (A → Bool) → ℕ → (A → A) → List A → List A
  returned eligible n f rows =
      let ids = picked eligible n rows in map f (select (λ r. mem (id r) ids) rows)
