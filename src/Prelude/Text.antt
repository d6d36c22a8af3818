-- ===== src/Prelude/Text.antt =====
-- Text that the program walks, as a list of code points; text that it only passes on or compares
-- whole stays a native `String`.
use Prim.Native.Nat.{ℕ}
use Prim.Native.Char.{code}
use Prim.Native.String.{String}
use mathlib.Core.Path.{◌≡◌}
use mathlib.Core.Logic.{◌↔◌}
use mathlib.Core.Bool.{Bool, true, false, ◌&&◌}
use mathlib.Core.List.{List, [], ◌∷◌, ◌++◌}
use native.Mathlib.Omega.{arith}
use text.Mathlib.Text.{◌==◌ as text_eq}
use route_planner.Prelude.Booleans.{◌==◌, ==_iff}

abbrev pub Text : Type 0
Text = List ℕ

-- The code points of a string.
abbrev pub codes : String → Text
codes String.[] = []
codes (String.◌∷◌ c s) = code c ∷ codes s

-- Equality of two Go strings.
abbrev pub str_eq : String → String → Bool
str_eq s t = text_eq s t

-- Equality of two texts.
abbrev pub same_text : Text → Text → Bool
same_text [] [] = true
same_text [] (_ ∷ _) = false
same_text (_ ∷ _) [] = false
same_text (a ∷ s) (b ∷ t) = (a == b) && same_text s t

pub same_text_iff : (s t : Text) → (same_text s t ≡ true) ↔ (s ≡ t)
same_text_iff [] [] = ground arith
same_text_iff [] (_ ∷ _) = ground arith
same_text_iff (_ ∷ _) [] = ground arith
same_text_iff (a ∷ s) (b ∷ t) = ground (arith, ==_iff a b, same_text_iff s t)

-- `strings.Join`
abbrev pub join : Text → List Text → Text
join sep [] = []
join sep (s ∷ []) = s
join sep (s ∷ t ∷ ts) = s ++ (sep ++ join sep (t ∷ ts))
