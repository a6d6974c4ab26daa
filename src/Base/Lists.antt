-- ===== src/Base/Lists.antt =====
-- Lists measured by native numbers, and the Boolean searches that the source writes as loops.
use Prim.Native.Nat.{ℕ, zero, suc, ◌+◌}
use mathlib.Core.Path.{◌≡◌, refl}
use mathlib.Core.Bool.{Bool, true, false}
use mathlib.Core.List.{List, [], ◌∷◌, ◌++◌}
use mathlib.Core.Option.{Option, none, some}
use native.Mathlib.Omega.{arith}
use himate_system.Base.Tests.{◌==◌, if◌then◌else◌, Bool-cases}
use mathlib.Core.Logic.{inl, inr}

module _ {ℓ} {A : Type ℓ} where
  abbrev pub length : List A → ℕ
  length [] = 0
  length (x ∷ xs) = suc (length xs)

  abbrev pub sum_by : (A → ℕ) → List A → ℕ
  sum_by f [] = 0
  sum_by f (x ∷ xs) = f x + sum_by f xs

  -- The first element that passes, as a query with `LIMIT 1` or `QueryRow` gives it.
  abbrev pub find : (A → Bool) → List A → Option A
  find p [] = none
  find p (x ∷ xs) = if p x then some x else find p xs

  -- How many elements pass.
  abbrev pub count : (A → Bool) → List A → ℕ
  count p [] = 0
  count p (x ∷ xs) = if p x then suc (count p xs) else count p xs

  -- `UPDATE ... WHERE p`: the rows that pass are rewritten, in place.
  abbrev pub update_where : (A → Bool) → (A → A) → List A → List A
  update_where p f [] = []
  update_where p f (x ∷ xs) = (if p x then f x else x) ∷ update_where p f xs

  -- `DELETE ... WHERE p`.
  abbrev pub delete_where : (A → Bool) → List A → List A
  delete_where p [] = []
  delete_where p (x ∷ xs) = if p x then delete_where p xs else x ∷ delete_where p xs

  -- The rows of `WHERE p`, in order.
  abbrev pub select : (A → Bool) → List A → List A
  select p [] = []
  select p (x ∷ xs) = if p x then x ∷ select p xs else select p xs

  -- `ORDER BY`, where `before a b` puts `a` first.
  unfoldable pub insert_by : (A → A → Bool) → A → List A → List A
  insert_by before a [] = a ∷ []
  insert_by before a (b ∷ bs) = if before a b then a ∷ b ∷ bs else b ∷ insert_by before a bs

  unfoldable pub sort_by : (A → A → Bool) → List A → List A
  unfolding insert_by
  sort_by before [] = []
  sort_by before (a ∷ rest) = insert_by before a (sort_by before rest)

  -- `LIMIT n`.
  abbrev pub take : ℕ → List A → List A
  take zero xs = []
  take (suc n) [] = []
  take (suc n) (x ∷ xs) = x ∷ take n xs

  abbrev pub All {κ} : (A → Type κ) → List A → Type κ
  All P [] = Unit
  All P (x ∷ xs) = P x × All P xs

  pub length-append : (xs ys : List A) → length (xs ++ ys) ≡ length xs + length ys
  length-append [] ys = omega arith
  length-append (x ∷ xs) ys = omega (arith, length-append xs ys)

  pub count-append : (p : A → Bool) (xs ys : List A) → count p (xs ++ ys) ≡ count p xs + count p ys
  count-append p [] ys = omega arith
  count-append p (x ∷ xs) ys = ground (arith, count-append p xs ys)

  pub find-concat_self :
      (p : A → Bool) (xs : List A) (x : A)
      → find p xs ≡ none
      → p x ≡ true
      → find p (xs ++ x ∷ []) ≡ some x
  find-concat_self p [] x h t = rw t
  find-concat_self p (y ∷ xs) x h t = ground (arith, find-concat_self p xs x)

  pub select-append :
      (p : A → Bool) (xs ys : List A) → select p (xs ++ ys) ≡ select p xs ++ select p ys
  select-append p [] ys = refl
  select-append p (x ∷ xs) ys = ground (arith, select-append p xs ys)

module _ {ℓ} {A : Type ℓ} where
  pub sum_by-concat :
      (f : A → ℕ) (xs : List A) (x : A) → sum_by f (xs ++ x ∷ []) ≡ sum_by f xs + f x
  sum_by-concat f [] x = omega arith
  sum_by-concat f (y ∷ xs) x = omega (arith, sum_by-concat f xs x)

-- `xs` and `ys` have the same length and are related element by element.
abbrev pub Pointwise {ℓ} : {A : Type ℓ} → (A → A → Type 0) → List A → List A → Type 0
Pointwise R [] [] = Unit
Pointwise R [] (y ∷ ys) = ⊥
Pointwise R (x ∷ xs) [] = ⊥
Pointwise R (x ∷ xs) (y ∷ ys) = R x y × Pointwise R xs ys

module _ {ℓ} {A : Type ℓ} where
  -- An `UPDATE` relates each row to itself or to its rewritten form.
  pub update_where-Pointwise :
      (R : A → A → Type 0) (q : A → Bool) (f : A → A) (xs : List A)
      → ((x : A) → R x x)
      → All (λ x. q x ≡ true → R x (f x)) xs
      → Pointwise R xs (update_where q f xs)
  update_where-Pointwise R q f [] same h = tt
  update_where-Pointwise R q f (x ∷ xs) same h = elim (Bool-cases (q x)) [
    | inl hit ↦ rw hit (h.0 hit, update_where-Pointwise R q f xs same h.1)
    | inr miss ↦ rw miss (same x, update_where-Pointwise R q f xs same h.1)
  ]

  -- So it is by cases on the query.
  pub update_where-Pointwise_cases :
      (R : A → A → Type 0) (q : A → Bool) (f : A → A) (xs : List A)
      → All (λ x. q x ≡ true → R x (f x)) xs
      → ((x : A) → q x ≡ false → R x x)
      → Pointwise R xs (update_where q f xs)
  update_where-Pointwise_cases R q f [] h k = tt
  update_where-Pointwise_cases R q f (x ∷ xs) h k = elim (Bool-cases (q x)) [
    | inl hit ↦ rw hit (h.0 hit, update_where-Pointwise_cases R q f xs h.1 k)
    | inr miss ↦ rw miss (k x miss, update_where-Pointwise_cases R q f xs h.1 k)
  ]

  pub All-every {κ} : (P : A → Type κ) (xs : List A) → ((x : A) → P x) → All P xs
  All-every P [] h = tt
  All-every P (x ∷ xs) h = (h x, All-every P xs h)

  -- An `UPDATE` that keeps what a query tests keeps what it counts.
  pub count-update_where :
      (p q : A → Bool) (f : A → A) (xs : List A)
      → ((x : A) → p (f x) ≡ p x)
      → count p (update_where q f xs) ≡ count p xs
  count-update_where p q f [] same = refl
  count-update_where p q f (x ∷ xs) same = elim (Bool-cases (q x)) [
    | inl hit ↦ rw (hit, same x) (ground (arith, count-update_where p q f xs same))
    | inr miss ↦ rw miss (ground (arith, count-update_where p q f xs same))
  ]

  -- After it, a query for the rows that it wrote finds the first of them rewritten.
  pub find-update_where :
      (p : A → Bool) (f : A → A) (xs : List A) (y : A)
      → ((x : A) → p (f x) ≡ p x)
      → find p xs ≡ some y
      → find p (update_where p f xs) ≡ some (f y)
  find-update_where p f [] y same h = cc
  find-update_where p f (x ∷ xs) y same h = elim (Bool-cases (p x)) [
    | inl hit ↦ rw (hit, same x, hit) (ground arith)
    | inr miss ↦ rw (miss, miss) (find-update_where p f xs y same (rw miss at h))
  ]

  pub find-none-count : (q : A → Bool) (xs : List A) → find q xs ≡ none → count q xs ≡ 0
  find-none-count q [] h = refl
  find-none-count q (x ∷ xs) h = ground (arith, find-none-count q xs)

  -- What a query finds passes its test.
  pub find-passes : (q : A → Bool) (xs : List A) (y : A) → find q xs ≡ some y → q y ≡ true
  find-passes q [] y h = cc
  find-passes q (x ∷ xs) y h = elim (Bool-cases (q x)) [
    | inl hit ↦ let same : x ≡ y = ground arith in rw (← same) hit
    | inr miss ↦ find-passes q xs y (rw miss at h)
  ]

  -- An `UPDATE` of other rows does not change what a query finds.
  pub find-update_other :
      (p q : A → Bool) (f : A → A) (xs : List A)
      → ((x : A) → p (f x) ≡ p x)
      → ((x : A) → q x ≡ true → p x ≡ false)
      → find p (update_where q f xs) ≡ find p xs
  find-update_other p q f [] same apart = refl
  find-update_other p q f (x ∷ xs) same apart = elim (Bool-cases (q x)) [
    | inl hit ↦ rw (hit, same x, apart x hit) (find-update_other p q f xs same apart)
    | inr miss ↦ elim (Bool-cases (p x)) [
      | inl found ↦ rw (miss, found) refl
      | inr lost ↦ rw (miss, lost) (find-update_other p q f xs same apart)
    ]
  ]

  pub find-append_some :
      (p : A → Bool) (xs ys : List A) (y : A) → find p xs ≡ some y → find p (xs ++ ys) ≡ some y
  find-append_some p [] ys y h = cc
  find-append_some p (x ∷ xs) ys y h = elim (Bool-cases (p x)) [
    | inl hit ↦ rw hit (rw hit at h)
    | inr miss ↦ rw miss (find-append_some p xs ys y (rw miss at h))
  ]

  pub find-append_miss :
      (p : A → Bool) (xs : List A) (y : A) → p y ≡ false → find p (xs ++ y ∷ []) ≡ find p xs
  find-append_miss p [] y h = rw h refl
  find-append_miss p (x ∷ xs) y h = elim (Bool-cases (p x)) [
    | inl hit ↦ rw hit refl
    | inr miss ↦ rw miss (find-append_miss p xs y h)
  ]

  pub find-some-count :
      (p : A → Bool) (xs : List A) (y : A) → find p xs ≡ some y → (count p xs == 0) ≡ false
  find-some-count p [] y h = cc
  find-some-count p (x ∷ xs) y h = elim (Bool-cases (p x)) [
    | inl hit ↦ rw hit (ground arith)
    | inr miss ↦ rw miss (find-some-count p xs y (rw miss at h))
  ]

  -- No row passes the weaker test, so none passes the stronger one.
  pub find-absent :
      (p q : A → Bool) (xs : List A)
      → ((x : A) → q x ≡ true → p x ≡ true)
      → (count p xs == 0) ≡ true
      → find q xs ≡ none
  find-absent p q [] weaker h = refl
  find-absent p q (x ∷ xs) weaker h = elim (Bool-cases (q x)) [
    | inl hit ↦ let passes = weaker x hit in let bad = (rw passes at h) in ground (arith, bad)
    | inr miss ↦ elim (Bool-cases (p x)) [
      | inl passes ↦ let bad = (rw passes at h) in ground (arith, bad)
      | inr fails ↦ rw miss (find-absent p q xs weaker (rw fails at h))
    ]
  ]

module _ {ℓ κ} {A : Type ℓ} (P : A → Type κ) where
  -- A property of all rows that an `UPDATE` keeps, and what a query, an order and a limit keep of it.
  pub All-update_where :
      (q : A → Bool) (f : A → A) (xs : List A)
      → ((x : A) → q x ≡ true → P x → P (f x))
      → All P xs
      → All P (update_where q f xs)
  All-update_where q f [] keep h = tt
  All-update_where q f (x ∷ xs) keep h = elim (Bool-cases (q x)) [
    | inl hit ↦ rw hit (keep x hit h.0, All-update_where q f xs keep h.1)
    | inr miss ↦ rw miss (h.0, All-update_where q f xs keep h.1)
  ]

  pub All-find : (q : A → Bool) (xs : List A) {x : A} → All P xs → find q xs ≡ some x → P x
  All-find q [] h found = cc
  All-find q (y ∷ xs) {x} h found = elim (Bool-cases (q y)) [
    | inl hit ↦ let same : y ≡ x = ground arith in rw (← same) h.0
    | inr miss ↦ All-find q xs h.1 (rw miss at found)
  ]

  pub All-insert_by :
      (before : A → A → Bool) (x : A) (xs : List A) → P x → All P xs → All P (insert_by before x xs)
  unfolding insert_by
  All-insert_by before x [] p h = (p, tt)
  All-insert_by before x (y ∷ ys) p h = elim (Bool-cases (before x y)) [
    | inl first ↦ rw first (p, h)
    | inr later ↦ rw later (h.0, All-insert_by before x ys p h.1)
  ]

  pub All-sort_by : (before : A → A → Bool) (xs : List A) → All P xs → All P (sort_by before xs)
  unfolding sort_by
  All-sort_by before [] h = tt
  All-sort_by before (x ∷ xs) h =
      All-insert_by before x (sort_by before xs) h.0 (All-sort_by before xs h.1)

  pub All-take : (n : ℕ) (xs : List A) → All P xs → All P (take n xs)
  All-take zero xs h = tt
  All-take (suc n) [] h = tt
  All-take (suc n) (x ∷ xs) h = (h.0, All-take n xs h.1)

module _ {ℓ κ ι} {A : Type ℓ} (P : A → Type κ) (R : A → Type ι) (q : A → Bool) where
  pub All-select :
      (xs : List A) → ((x : A) → q x ≡ true → P x → R x) → All P xs → All R (select q xs)
  All-select [] give h = tt
  All-select (x ∷ xs) give h = elim (Bool-cases (q x)) [
    | inl hit ↦ rw hit (give x hit h.0, All-select xs give h.1)
    | inr miss ↦ rw miss (All-select xs give h.1)
  ]

module _ {ℓ κ ι} {A : Type ℓ} (P : A → Type κ) (R : A → Type ι) where
  pub All-map : (xs : List A) → ((x : A) → P x → R x) → All P xs → All R xs
  All-map [] give h = tt
  All-map (x ∷ xs) give h = (give x h.0, All-map xs give h.1)

module _ {ℓ κ ι ν} {A : Type ℓ} (P : A → Type κ) (R : A → Type ι) (S : A → Type ν) where
  pub All-zip : (xs : List A) → ((x : A) → P x → R x → S x) → All P xs → All R xs → All S xs
  All-zip [] give h k = tt
  All-zip (x ∷ xs) give h k = (give x h.0 k.0, All-zip xs give h.1 k.1)
