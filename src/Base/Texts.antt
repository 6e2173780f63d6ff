-- ===== src/Base/Texts.antt =====
-- Whole texts are only compared.
use Prim.Native.String.{String}
use mathlib.Core.Bool.{Bool}
use text.Mathlib.Text.{◌==◌}
use text.Mathlib.TextPositions.{eq_refl}
use text.Mathlib.TextEquality.{eq_iff}
use mathlib.Core.Path.{◌≡◌}
use mathlib.Core.Bool.{true}
use native.Mathlib.Omega.{arith}

abbrev pub same_text : String → String → Bool
same_text a b = a == b

pub same_text_refl : (a : String) → same_text a a ≡ true
same_text_refl a = eq_refl a

pub same_text→eq : (a b : String) → same_text a b ≡ true → a ≡ b
same_text→eq a b h = ground (arith, eq_iff a b)
