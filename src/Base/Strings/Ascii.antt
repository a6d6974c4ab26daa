-- ===== src/Base/Strings/Ascii.antt =====
-- A Unicode table for the concrete runs: no case mapping beyond ASCII.
use Prim.Native.Nat.{ℕ, ◌≤◌}
use mathlib.Core.Path.{◌≡◌, refl}
use native.Mathlib.Omega.{arith}
use himate_system.Base.Strings.{
  Unicode, text_eq, byte_len, upper_rune, lower_rune, fold_rune, to_upper, to_lower, equal_fold,
  is_space, trim_left, trim_right, trim_space,
}
use himate_system.Base.Strings.Case.{UpperLaws}

instance abbrev pub ascii : Unicode
ascii = record { upper = λ c. c; lower = λ c. c; fold = λ c. c }

final_lem : (c : ℕ) → 0x80 ≤ c → upper_rune c ≡ c
unfolding upper_rune
final_lem c h = ground arith

pub ascii-UpperLaws : UpperLaws ascii
ascii-UpperLaws = record { final = final_lem; solid = λ c h. refl }

-- Unfolding this unfolds all that a run on concrete texts computes with.
unfoldable pub evaluate_texts : Unit {0}
unfolding text_eq byte_len upper_rune lower_rune fold_rune to_upper to_lower equal_fold is_space
    trim_left trim_right trim_space
evaluate_texts = tt
