-- ===== src/Automation/Picking/Laws.antt =====
-- What a claim may touch: only eligible rows, no more than the limit, and as many as there are.
use himate_system.Base.{
  update_where, ==_iff, ℕ, zero, suc, ◌≡◌, ◌≢◌, refl, ◌∙◌, sym, ap, ◌==◌, Bool, true, false, ◌||◌,
  List, [], ◌∷◌, map, arith, min, Bool-cases, length, select, count, All, inl, inr,
}
use himate_system.Automation.Picking.{
  mem, take, insert_row, sort_rows, picked, update_picked, returned,
}

module _ {ℓ} {A : Type ℓ} (available_at id : A → ℕ) where
  -- No two rows have one id: it is the primary key.
  abbrev pub KeyedById : List A → Type 0
  KeyedById [] = Unit
  KeyedById (a ∷ rest) = (mem (id a) (map id rest) ≡ false) × KeyedById rest

  mem-map-take :
      (k n : ℕ) (xs : List A) → mem k (map id (take n xs)) ≡ true → mem k (map id xs) ≡ true
  mem-map-take k zero xs h = cc
  mem-map-take k (suc n) [] h = cc
  mem-map-take k (suc n) (x ∷ xs) h = ground (arith, mem-map-take k n xs)

  mem-insert_row :
      (k : ℕ) (a : A) (xs : List A)
      → mem k (map id (insert_row available_at id a xs)) ≡ (k == id a || mem k (map id xs))
  unfolding insert_row
  mem-insert_row k a [] = refl
  mem-insert_row k a (x ∷ xs) = ground (arith, mem-insert_row k a xs)

  mem-sort_rows :
      (k : ℕ) (xs : List A) → mem k (map id (sort_rows available_at id xs)) ≡ mem k (map id xs)
  unfolding sort_rows
  mem-sort_rows k [] = refl
  mem-sort_rows k (x ∷ xs) =
      ground (arith, mem-insert_row k x (sort_rows available_at id xs), mem-sort_rows k xs)

  mem-select-false :
      (k : ℕ) (p : A → Bool) (xs : List A)
      → mem k (map id xs) ≡ false
      → mem k (map id (select p xs)) ≡ false
  mem-select-false k p [] h = refl
  mem-select-false k p (x ∷ xs) h = ground (arith, mem-select-false k p xs)

  All-select_cons :
      (p : A → Bool) (x : A) (all xs : List A)
      → mem (id x) (map id xs) ≡ false
      → All (λ r. mem (id r) (map id (select p all)) ≡ p r) xs
      → All (λ r. mem (id r) (map id (select p (x ∷ all))) ≡ p r) xs
  All-select_cons p x all [] n h = tt
  All-select_cons p x all (r ∷ xs) n h =
      (ground (arith, h.0), All-select_cons p x all xs (ground arith) h.1)

  -- With unique ids, the id of a row is among the selected ones exactly if the row is.
  mem-select :
      (p : A → Bool) (xs : List A)
      → KeyedById xs
      → All (λ r. mem (id r) (map id (select p xs)) ≡ p r) xs
  mem-select p [] h = tt
  mem-select p (x ∷ xs) h = (
    ground (arith, mem-select-false (id x) p xs h.0),
    All-select_cons p x xs xs h.0 (mem-select p xs h.1),
  )

  picked-mem :
      (k : ℕ) (p : A → Bool) (n : ℕ) (rows : List A)
      → mem k (picked available_at id p n rows) ≡ true
      → mem k (map id (select p rows)) ≡ true
  unfolding picked
  picked-mem k p n rows h =
      sym (mem-sort_rows k (select p rows))
      ∙ mem-map-take k n (sort_rows available_at id (select p rows)) h

  All-picked :
      (p : A → Bool) (n : ℕ) (all xs : List A)
      → All (λ r. mem (id r) (map id (select p all)) ≡ p r) xs
      → All (λ r. mem (id r) (picked available_at id p n all) ≡ true → p r ≡ true) xs
  All-picked p n all [] h = tt
  All-picked p n all (r ∷ xs) h =
      (λ m. sym h.0 ∙ picked-mem (id r) p n all m, All-picked p n all xs h.1)

  -- Only eligible rows are picked.
  pub picked-eligible :
      (p : A → Bool) (n : ℕ) (rows : List A)
      → KeyedById rows
      → All (λ r. mem (id r) (picked available_at id p n rows) ≡ true → p r ≡ true) rows
  picked-eligible p n rows h = All-picked p n rows rows (mem-select p rows h)

  length-insert_row :
      (a : A) (xs : List A) → length (insert_row available_at id a xs) ≡ suc (length xs)
  unfolding insert_row
  length-insert_row a [] = refl
  length-insert_row a (x ∷ xs) = ground (arith, length-insert_row a xs)

  length-sort_rows : (xs : List A) → length (sort_rows available_at id xs) ≡ length xs
  unfolding sort_rows
  length-sort_rows [] = refl
  length-sort_rows (x ∷ xs) =
      length-insert_row x (sort_rows available_at id xs) ∙ ap suc (length-sort_rows xs)

  length-select : (p : A → Bool) (xs : List A) → length (select p xs) ≡ count p xs
  length-select p [] = refl
  length-select p (x ∷ xs) = ground (arith, length-select p xs)

  length-map-take : (n : ℕ) (xs : List A) → length (map id (take n xs)) ≡ min n (length xs)
  length-map-take zero xs = omega arith
  length-map-take (suc n) [] = omega arith
  length-map-take (suc n) (x ∷ xs) = omega (arith, length-map-take n xs)

  -- As many rows are picked as are eligible, up to the limit: no work is left lying.
  pub length-picked :
      (p : A → Bool) (n : ℕ) (rows : List A)
      → length (picked available_at id p n rows) ≡ min n (count p rows)
  unfolding picked
  length-picked p n rows =
      length-map-take n (sort_rows available_at id (select p rows))
      ∙ ap (min n) (length-sort_rows (select p rows) ∙ length-select p rows)

  not-mem_of_ineligible :
      (k : ℕ) (ids : List ℕ) (b : Bool)
      → (mem k ids ≡ true → b ≡ false)
      → b ≡ true
      → mem k ids ≡ false
  not-mem_of_ineligible k ids b h e = ground arith

  none_selected :
      (k : ℕ) (ids : List ℕ) (p : A → Bool) (xs : List A)
      → mem k ids ≡ true
      → All (λ r. mem (id r) ids ≡ true → p r ≡ false) xs
      → mem k (map id (select p xs)) ≡ false
  none_selected k ids p [] m h = refl
  none_selected k ids p (x ∷ xs) m h = elim (Bool-cases (p x)) [
    | inl hit ↦
        let other : k ≢ id x =
          (λ e. cc (m, ap (λ j. mem j ids) e, not-mem_of_ineligible (id x) ids (p x) h.0 hit)) in
        rw hit (ground (arith, none_selected k ids p xs m h.1))
    | inr miss ↦ rw miss (none_selected k ids p xs m h.1)
  ]

  All-updated :
      (ids : List ℕ) (p : A → Bool) (f : A → A) (xs : List A)
      → ((r : A) → p (f r) ≡ false)
      → All (λ r. mem (id r) ids ≡ true → p r ≡ false) (update_where (λ r. mem (id r) ids) f xs)
  All-updated ids p f [] h = tt
  All-updated ids p f (x ∷ xs) h = elim (Bool-cases (mem (id x) ids)) [
    | inl hit ↦ rw hit ((λ _. h x), All-updated ids p f xs h)
    | inr miss ↦ rw miss ((λ e. cc), All-updated ids p f xs h)
  ]

  picked-not-mem :
      (k : ℕ) (p : A → Bool) (n : ℕ) (rows : List A)
      → mem k (map id (select p rows)) ≡ false
      → mem k (picked available_at id p n rows) ≡ false
  picked-not-mem k p n rows h = elim (Bool-cases (mem k (picked available_at id p n rows))) [
    | inl m ↦ cc (h, picked-mem k p n rows m)
    | inr m ↦ m
  ]

  -- A row that one update has picked is not picked by the next, if the update makes it ineligible.
  pub picked_disjoint :
      (k : ℕ) (p p' : A → Bool) (n n' : ℕ) (f : A → A) (rows : List A)
      → ((r : A) → p' (f r) ≡ false)
      → mem k (picked available_at id p n rows) ≡ true
      → mem k (picked available_at id p' n' (update_picked available_at id p n f rows)) ≡ false
  unfolding update_picked
  picked_disjoint k p p' n n' f rows h m =
      let ids = picked available_at id p n rows in
      picked-not-mem k p' n' (update_where (λ r. mem (id r) ids) f rows) (
        none_selected k ids p' (update_where (λ r. mem (id r) ids) f rows) m
          (All-updated ids p' f rows h))

  mem-map-select :
      (k : ℕ) (ids : List ℕ) (f : A → A) (xs : List A)
      → ((r : A) → id (f r) ≡ id r)
      → mem k (map id (map f (select (λ r. mem (id r) ids) xs))) ≡ true
      → mem k ids ≡ true
  mem-map-select k ids f [] same h = cc
  mem-map-select k ids f (x ∷ xs) same h = elim (Bool-cases (mem (id x) ids)) [
    | inl hit ↦ elim (Bool-cases (k == id x)) [
      | inl e ↦ rw ((==_iff k (id x)).0 e) hit
      | inr ne ↦ mem-map-select k ids f xs same (rw (hit, same x, ne) at h)
    ]
    | inr miss ↦ mem-map-select k ids f xs same (rw miss at h)
  ]

  -- The returned rows are picked ones.
  pub returned-mem :
      (k : ℕ) (p : A → Bool) (n : ℕ) (f : A → A) (rows : List A)
      → ((r : A) → id (f r) ≡ id r)
      → mem k (map id (returned available_at id p n f rows)) ≡ true
      → mem k (picked available_at id p n rows) ≡ true
  unfolding returned
  returned-mem k p n f rows same h =
      mem-map-select k (picked available_at id p n rows) f rows same h
