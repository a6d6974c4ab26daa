-- ===== src/Base/Strings.antt =====
-- Go strings that the services trim, change the case of and compare, as lists of code points.
-- Case mapping beyond ASCII is a table of the `unicode` package and a parameter here.
mod Trim
pub mod Case
pub mod Ascii
pub use Trim.{trim_space-trim_space}
unfoldable pub use Trim.{is_space, trim_left, cons_trimmed, trim_right, trim_space}
use Prim.Native.Nat.{ℕ, ◌+◌, ◌-◌}
use Prim.Native.Char.{code}
use Prim.Native.String.{String}
use mathlib.Core.Path.{◌≡◌, refl}
use mathlib.Core.Logic.{◌↔◌}
use mathlib.Core.Bool.{Bool, true, false, ◌&&◌, ◌||◌}
use mathlib.Core.List.{List, [], ◌∷◌, map}
use native.Mathlib.Omega.{arith}
use himate_system.Base.Tests.{ltb, leb, ◌==◌, if◌then◌else◌}

abbrev pub Text : Type 0
Text = List ℕ

abbrev pub codes : String → Text
codes String.[] = []
codes (String.◌∷◌ c s) = code c ∷ codes s

abbrev pub is_empty : Text → Bool
is_empty [] = true
is_empty (c ∷ s) = false

unfoldable pub text_eq : Text → Text → Bool
text_eq [] [] = true
text_eq [] (d ∷ t) = false
text_eq (c ∷ s) [] = false
text_eq (c ∷ s) (d ∷ t) = c == d && text_eq s t

pub text_eq_iff : (s t : Text) → (text_eq s t ≡ true) ↔ (s ≡ t)
unfolding text_eq
text_eq_iff [] [] = (λ h. refl, λ h. refl)
text_eq_iff [] (d ∷ t) = (λ h. cc, λ h. cc)
text_eq_iff (c ∷ s) [] = (λ h. cc, λ h. cc)
text_eq_iff (c ∷ s) (d ∷ t) =
    (λ h. ground (arith, text_eq_iff s t), λ h. ground (arith, text_eq_iff s t))

pub text_eq_refl : (s : Text) → text_eq s s ≡ true
text_eq_refl s = (text_eq_iff s s).1 refl

-- The bytes of a code point in UTF-8, and `len` of a string.
abbrev pub rune_len : ℕ → ℕ
rune_len c = if ltb c 0x80 then 1 else if ltb c 0x800 then 2 else if ltb c 0x10000 then 3 else 4

unfoldable pub byte_len : Text → ℕ
byte_len [] = 0
byte_len (c ∷ s) = rune_len c + byte_len s

-- The simple case mappings and the folding classes of the code points beyond ASCII.
pub record Unicode : Type 0 where
  pub upper : ℕ → ℕ
  pub lower : ℕ → ℕ
  pub fold : ℕ → ℕ

module _ ⦃u : Unicode⦄ where
  -- unicode.ToUpper
  unfoldable pub upper_rune : ℕ → ℕ
  upper_rune c = if ltb c 0x80 then (if leb b'a' c && leb c b'z' then c - 32 else c) else u.upper c

  -- unicode.ToLower
  unfoldable pub lower_rune : ℕ → ℕ
  lower_rune c = if ltb c 0x80 then (if leb b'A' c && leb c b'Z' then c + 32 else c) else u.lower c

  -- One code point for each class of unicode.SimpleFold.
  unfoldable pub fold_rune : ℕ → ℕ
  fold_rune c = if ltb c 0x80 then (if leb b'A' c && leb c b'Z' then c + 32 else c) else u.fold c

  -- strings.ToUpper, strings.ToLower and strings.EqualFold
  unfoldable pub to_upper : Text → Text
  to_upper s = map upper_rune s

  unfoldable pub to_lower : Text → Text
  to_lower s = map lower_rune s

  unfoldable pub equal_fold : Text → Text → Bool
  equal_fold s t = text_eq (map fold_rune s) (map fold_rune t)
