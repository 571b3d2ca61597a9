-- ===== src/Common/Texts.antt =====
-- Texts as Python's `str`: equality, order by code points, repetition.
use Prim.Native.Nat.{ℕ, zero, suc}
use Prim.Native.String.{String}
use Prim.Native.String
use Prim.Native.Char.{code}
use mathlib.Core.Bool.{Bool, true, false}
use mathlib.Core.List.{List, [], ◌∷◌}
use minispark.Common.Tests.{ltb, ◌==◌, if◌then◌else◌}
pub use text.Mathlib.Text.{◌==◌ as str_eq}
pub use text.Mathlib.TextEquality.{eq_iff as str_eq_iff}
pub use text.Mathlib.TextPositions.{eq_refl as str_eq_refl}

-- The code points of a text.
abbrev pub codes : String → List ℕ
codes String.[] = []
codes (String.◌∷◌ c s) = code c ∷ codes s

-- `s < t` on lists of code points.
unfoldable pub ltb_codes : List ℕ → List ℕ → Bool
ltb_codes [] [] = false
ltb_codes [] (y ∷ ys) = true
ltb_codes (x ∷ xs) [] = false
ltb_codes (x ∷ xs) (y ∷ ys) = let rest = ltb_codes xs ys in if x == y then rest else ltb x y

abbrev pub append_text : String → String → String
append_text s t = String.◌++◌ s t

-- `s * n`.
unfoldable pub repeat_text : ℕ → String → String
repeat_text zero s = ""
repeat_text (suc n) s = append_text s (repeat_text n s)
