-- ===== src/FinancePolicy/Methods.antt =====
-- The normalised payment methods: sorted, without repetition, and a fixed point.
use himate_system.Base.{
  ◌≡◌, refl, ap, ◌∙◌, ◌≢◌, inl, inr, true, false, ◌||◌, List, [], ◌∷◌, arith, All, Bool-cases, Text,
  text_eq, text_eq_iff,
}
use himate_system.FinancePolicy.{text_lt, insert_text, sort_texts, contains}

text_lt_trans : (a b c : Text) → text_lt a b ≡ true → text_lt b c ≡ true → text_lt a c ≡ true
unfolding text_lt
text_lt_trans [] [] c h k = cc
text_lt_trans [] (y ∷ b) [] h k = cc
text_lt_trans [] (y ∷ b) (z ∷ c) h k = refl
text_lt_trans (x ∷ a) [] c h k = cc
text_lt_trans (x ∷ a) (y ∷ b) [] h k = cc
text_lt_trans (x ∷ a) (y ∷ b) (z ∷ c) h k = ground (arith, text_lt_trans a b c)

text_lt_total : (a b : Text) → a ≢ b → text_lt b a ≡ false → text_lt a b ≡ true
unfolding text_lt
text_lt_total [] [] n h = absurd (n refl)
text_lt_total [] (y ∷ b) n h = refl
text_lt_total (x ∷ a) [] n h = cc
text_lt_total (x ∷ a) (y ∷ b) n h = ground (arith, text_lt_total a b)

-- Each text is smaller than all that follow it: sorted, and none twice.
abbrev pub Ascending : List Text → Type 0
Ascending [] = Unit
Ascending (x ∷ xs) = All (λ y. text_lt x y ≡ true) xs × Ascending xs

text_lt_asymm : (a b : Text) → text_lt a b ≡ true → text_lt b a ≡ false
unfolding text_lt
text_lt_asymm [] [] h = cc
text_lt_asymm [] (y ∷ b) h = refl
text_lt_asymm (x ∷ a) [] h = cc
text_lt_asymm (x ∷ a) (y ∷ b) h = ground (arith, text_lt_asymm a b)

-- No text stands twice.
abbrev pub Distinct : List Text → Type 0
Distinct [] = Unit
Distinct (x ∷ xs) = (contains x xs ≡ false) × Distinct xs

-- Insertion and sorting keep the members.
contains-insert_text :
    (z x : Text) (l : List Text) → contains z (insert_text x l) ≡ (text_eq z x || contains z l)
unfolding insert_text
contains-insert_text z x [] = refl
contains-insert_text z x (y ∷ ys) = ground (arith, contains-insert_text z x ys)

pub contains-sort_texts : (z : Text) (l : List Text) → contains z (sort_texts l) ≡ contains z l
unfolding sort_texts
contains-sort_texts z [] = refl
contains-sort_texts z (x ∷ xs) =
    contains-insert_text z x (sort_texts xs) ∙ ap (λ b. text_eq z x || b) (contains-sort_texts z xs)

All-insert_text {κ} :
    (P : Text → Type κ) (x : Text) (l : List Text) → P x → All P l → All P (insert_text x l)
unfolding insert_text
All-insert_text P x [] p h = (p, tt)
All-insert_text P x (y ∷ ys) p h = elim (Bool-cases (text_lt y x)) [
  | inl below ↦ rw below (h.0, All-insert_text P x ys p h.1)
  | inr above ↦ rw above (p, h)
]

pub All-sort_texts {κ} : (P : Text → Type κ) (l : List Text) → All P l → All P (sort_texts l)
unfolding sort_texts
All-sort_texts P [] h = tt
All-sort_texts P (x ∷ xs) h = All-insert_text P x (sort_texts xs) h.0 (All-sort_texts P xs h.1)

All-text_lt :
    (x y : Text) (l : List Text)
    → text_lt x y ≡ true
    → All (λ z. text_lt y z ≡ true) l
    → All (λ z. text_lt x z ≡ true) l
All-text_lt x y [] h a = tt
All-text_lt x y (z ∷ l) h a = (text_lt_trans x y z h a.0, All-text_lt x y l h a.1)

insert_text-Ascending :
    (x : Text) (l : List Text) → contains x l ≡ false → Ascending l → Ascending (insert_text x l)
unfolding insert_text
insert_text-Ascending x [] n h = (tt, tt)
insert_text-Ascending x (y ∷ ys) n h = elim (Bool-cases (text_lt y x)) [
  | inl below ↦ rw below (
    All-insert_text (λ z. text_lt y z ≡ true) x ys below h.0,
    insert_text-Ascending x ys (ground arith) h.1,
  )
  | inr above ↦
      let lt : text_lt x y ≡ true =
        text_lt_total x y (λ e. ground (arith, text_eq_iff x y)) above in
      rw above ((lt, All-text_lt x y ys lt h.0), h)
]

pub sort_texts-Ascending : (l : List Text) → Distinct l → Ascending (sort_texts l)
unfolding sort_texts
sort_texts-Ascending [] h = tt
sort_texts-Ascending (x ∷ xs) h =
    insert_text-Ascending x (sort_texts xs) (contains-sort_texts x xs ∙ h.0)
      (sort_texts-Ascending xs h.1)

insert_text_least :
    (x : Text) (l : List Text) → All (λ y. text_lt x y ≡ true) l → insert_text x l ≡ x ∷ l
unfolding insert_text
insert_text_least x [] h = refl
insert_text_least x (y ∷ ys) h = rw (text_lt_asymm x y h.0)

pub sort_texts_sorted : (l : List Text) → Ascending l → sort_texts l ≡ l
unfolding sort_texts
sort_texts_sorted [] h = refl
sort_texts_sorted (x ∷ xs) h = rw (sort_texts_sorted xs h.1) (insert_text_least x xs h.0)

text_lt_irrefl : (a : Text) → text_lt a a ≡ false
unfolding text_lt
text_lt_irrefl [] = refl
text_lt_irrefl (x ∷ a) = ground (arith, text_lt_irrefl a)

not-contains_below :
    (x : Text) (l : List Text) → All (λ y. text_lt x y ≡ true) l → contains x l ≡ false
not-contains_below x [] h = refl
not-contains_below x (y ∷ l) h = elim (Bool-cases (text_eq x y)) [
  | inl same ↦ let e : x ≡ y = (text_eq_iff x y).0 same in cc (h.0, e, text_lt_irrefl x)
  | inr other ↦ rw other (not-contains_below x l h.1)
]

pub Ascending-Distinct : (l : List Text) → Ascending l → Distinct l
Ascending-Distinct [] h = tt
Ascending-Distinct (x ∷ xs) h = (not-contains_below x xs h.0, Ascending-Distinct xs h.1)
