-- ===== src/Base/Strings/Case.antt =====
-- The documented behaviour of Unicode case mapping, and how it meets trimming.
use Prim.Native.Nat.{ℕ, ◌≤◌}
use mathlib.Core.Path.{◌≡◌, refl}
use mathlib.Core.Logic.{inl, inr}
use mathlib.Core.Bool.{Bool, true, false}
use mathlib.Core.List.{[], ◌∷◌}
use native.Mathlib.Omega.{arith}
use himate_system.Base.Tests.{Bool-cases}
use himate_system.Base.Strings.{
  Text, Unicode, upper_rune, to_upper, is_space, trim_left, trim_right, cons_trimmed, trim_space,
  trim_space-trim_space,
}

-- What the `unicode` package says of its upper case table: an upper case mapping is final, and
-- white space has none.
pub record UpperLaws (u : Unicode) : Type 0 where
  pub final : (c : ℕ) → 0x80 ≤ c → upper_rune ⦃u = u⦄ (u.upper c) ≡ u.upper c
  pub solid : (c : ℕ) → 0x80 ≤ c → is_space (u.upper c) ≡ is_space c

module _ ⦃u : Unicode⦄ (laws : UpperLaws u) where
  upper_rune_idem : (c : ℕ) → upper_rune (upper_rune c) ≡ upper_rune c
  unfolding upper_rune
  upper_rune_idem c = ground (arith, laws.final c)

  is_space-upper_rune : (c : ℕ) → is_space (upper_rune c) ≡ is_space c
  unfolding upper_rune is_space
  is_space-upper_rune c = ground (arith, laws.solid c)

  to_upper_idem : (s : Text) → to_upper (to_upper s) ≡ to_upper s
  unfolding to_upper
  to_upper_idem [] = refl
  to_upper_idem (c ∷ s) = cc (upper_rune_idem c, to_upper_idem s)

  trim_left-to_upper : (s : Text) → trim_left (to_upper s) ≡ to_upper (trim_left s)
  unfolding trim_left to_upper
  trim_left-to_upper [] = refl
  trim_left-to_upper (c ∷ s) = elim (Bool-cases (is_space c)) [
    | inl space ↦ rw (is_space-upper_rune, space) (trim_left-to_upper s)
    | inr other ↦ rw (is_space-upper_rune, other)
  ]

  map-cons_trimmed :
      (b : Bool) (c : ℕ) (s : Text)
      → cons_trimmed b (upper_rune c) (to_upper s) ≡ to_upper (cons_trimmed b c s)
  unfolding to_upper
  map-cons_trimmed true c [] = refl
  map-cons_trimmed true c (d ∷ s) = refl
  map-cons_trimmed false c s = refl

  trim_right-to_upper : (s : Text) → trim_right (to_upper s) ≡ to_upper (trim_right s)
  unfolding trim_right to_upper
  trim_right-to_upper [] = refl
  trim_right-to_upper (c ∷ s) =
      rw (trim_right-to_upper s, is_space-upper_rune)
        (map-cons_trimmed (is_space c) c (trim_right s))

  pub trim_space-to_upper : (s : Text) → trim_space (to_upper s) ≡ to_upper (trim_space s)
  unfolding trim_space
  trim_space-to_upper s = rw trim_left-to_upper (trim_right-to_upper (trim_left s))

  -- Normalising a code twice is normalising it once.
  pub to_upper-trim_space_idem :
      (s : Text) → to_upper (trim_space (to_upper (trim_space s))) ≡ to_upper (trim_space s)
  to_upper-trim_space_idem s =
      rw (trim_space-to_upper, trim_space-trim_space) (to_upper_idem (trim_space s))
