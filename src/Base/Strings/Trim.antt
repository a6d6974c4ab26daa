-- ===== src/Base/Strings/Trim.antt =====
-- strings.TrimSpace, and that trimming twice is trimming once.
use Prim.Native.Nat.{ℕ}
use mathlib.Core.Path.{◌≡◌, refl}
use mathlib.Core.Logic.{inl, inr}
use mathlib.Core.Bool.{Bool, true, false, ◌&&◌, ◌||◌}
use mathlib.Core.List.{List, [], ◌∷◌}
use himate_system.Base.Tests.{leb, ◌==◌, if◌then◌else◌, Bool-cases}

-- unicode.IsSpace
unfoldable pub is_space : ℕ → Bool
is_space c =
    (leb 9 c && leb c 13)
    || c == 0x20
    || c == 0x85
    || c == 0xa0
    || c == 0x1680
    || (leb 0x2000 c && leb c 0x200a)
    || c == 0x2028
    || c == 0x2029
    || c == 0x202f
    || c == 0x205f
    || c == 0x3000

unfoldable pub trim_left : List ℕ → List ℕ
trim_left [] = []
trim_left (c ∷ s) = if is_space c then trim_left s else c ∷ s

-- `c` before a text that is trimmed on its right.
abbrev pub cons_trimmed : Bool → ℕ → List ℕ → List ℕ
cons_trimmed true c [] = []
cons_trimmed true c (d ∷ s) = c ∷ d ∷ s
cons_trimmed false c s = c ∷ s

unfoldable pub trim_right : List ℕ → List ℕ
trim_right [] = []
trim_right (c ∷ s) = cons_trimmed (is_space c) c (trim_right s)

unfoldable pub trim_space : List ℕ → List ℕ
trim_space s = trim_right (trim_left s)

trim_right-cons_trimmed :
    (b : Bool) (c : ℕ) (s : List ℕ)
    → is_space c ≡ b
    → trim_right s ≡ s
    → trim_right (cons_trimmed b c s) ≡ cons_trimmed b c s
unfolding trim_right
trim_right-cons_trimmed true c [] h k = refl
trim_right-cons_trimmed true c (d ∷ s) h k = rw (h, k)
trim_right-cons_trimmed false c s h k = rw (h, k)

trim_right-trim_right : (s : List ℕ) → trim_right (trim_right s) ≡ trim_right s
unfolding trim_right
trim_right-trim_right [] = refl
trim_right-trim_right (c ∷ s) =
    trim_right-cons_trimmed (is_space c) c (trim_right s) refl (trim_right-trim_right s)

-- The text is empty or begins with something else than a space.
abbrev BeginsSolid : List ℕ → Type 0
BeginsSolid [] = Unit
BeginsSolid (c ∷ s) = is_space c ≡ false

trim_left-BeginsSolid : (s : List ℕ) → BeginsSolid (trim_left s)
unfolding trim_left
trim_left-BeginsSolid [] = tt
trim_left-BeginsSolid (c ∷ s) = elim (Bool-cases (is_space c)) [
  | inl space ↦ rw space (trim_left-BeginsSolid s)
  | inr other ↦ rw other other
]

trim_left_solid : (s : List ℕ) → BeginsSolid s → trim_left s ≡ s
unfolding trim_left
trim_left_solid [] h = refl
trim_left_solid (c ∷ s) h = rw h

trim_right-BeginsSolid : (s : List ℕ) → BeginsSolid s → BeginsSolid (trim_right s)
unfolding trim_right
trim_right-BeginsSolid [] h = tt
trim_right-BeginsSolid (c ∷ s) h = rw (h, cons_trimmed) h

-- Trimming twice is trimming once.
pub trim_space-trim_space : (s : List ℕ) → trim_space (trim_space s) ≡ trim_space s
unfolding trim_space
trim_space-trim_space s =
    rw
      (trim_left_solid (trim_right (trim_left s))
        (trim_right-BeginsSolid (trim_left s) (trim_left-BeginsSolid s)))
      (trim_right-trim_right (trim_left s))
