-- ===== src/Base/Text.antt =====
-- Texts that the program only compares (mints, addresses, signatures, labels).
use mathlib.Core.Path.{◌≡◌}
use mathlib.Core.Bool.{Bool, true, false, ◌||◌}
use mathlib.Core.Logic.{◌↔◌}
use mathlib.Core.List.{List, [], ◌∷◌}
use Prim.Native.String.{String, ◌++◌}
use text.Mathlib.Text.{◌==◌}
use text.Mathlib.TextEquality.{eq_iff}

abbrev pub str_eq : String → String → Bool
str_eq s t = s == t

pub str_eq_iff : (s t : String) → (str_eq s t ≡ true) ↔ (s ≡ t)
str_eq_iff s t = eq_iff s t

-- `s in xs` for a set or a tuple of texts.
abbrev pub str_in : String → List String → Bool
str_in s [] = false
str_in s (x ∷ xs) = str_eq s x || str_in s xs

-- `s + t`, and the parts of an f-string.
abbrev pub append : String → String → String
append s t = s ++ t

-- `bool(s)`
abbrev pub is_text : String → Bool
is_text String.[] = false
is_text (String.◌∷◌ _ _) = true
