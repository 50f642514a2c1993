-- ===== src/Base/Sets.antt =====
-- Python's sorted sets of texts.
use Prim.Native.Nat.{Ordering}
use Prim.Native.String.{String, compare}
use mathlib.Core.Path.{◌≡◌, refl, ◌∙◌}
use mathlib.Core.Bool.{Bool, true, false, ◌||◌}
use mathlib.Core.List.{List, [], ◌∷◌, ◌++◌}
use native.Mathlib.Omega.{arith}
use agent_trading.Base.Tests.{if◌then◌else◌}
use agent_trading.Base.Text.{str_eq, str_eq_iff, str_in}
use agent_trading.Base.Sort.{insert_by, sort_by}

-- `a <= b` for texts.
abbrev pub str_le : String → String → Bool
str_le a b = elim (compare a b) [ Ordering.gt ↦ false | _ ↦ true ]

-- The items that later items do not repeat.
unfoldable pub distinct : List String → List String
distinct [] = []
distinct (x ∷ xs) = let rest = distinct xs in if str_in x rest then rest else x ∷ rest

-- `sorted(set(xs))`
unfoldable pub sorted_set : List String → List String
sorted_set xs = sort_by str_le (distinct xs)

-- The sorted set of texts has all of them.
insert_by-str_in :
    (m x : String) (xs : List String)
    → str_in m (insert_by str_le x xs) ≡ (str_eq m x || str_in m xs)
unfolding insert_by
insert_by-str_in m x [] = refl
insert_by-str_in m x (y ∷ ys) = ground (arith, insert_by-str_in m x ys)

sort_by-str_in : (m : String) (xs : List String) → str_in m (sort_by str_le xs) ≡ str_in m xs
unfolding sort_by
sort_by-str_in m [] = refl
sort_by-str_in m (x ∷ xs) =
    ground (arith, insert_by-str_in m x (sort_by str_le xs), sort_by-str_in m xs)

distinct-str_in : (m : String) (xs : List String) → str_in m (distinct xs) ≡ str_in m xs
unfolding distinct
distinct-str_in m [] = refl
distinct-str_in m (x ∷ xs) = ground (arith, distinct-str_in m xs, str_eq_iff m x)

pub sorted_set-str_in : (m : String) (xs : List String) → str_in m (sorted_set xs) ≡ str_in m xs
unfolding sorted_set
sorted_set-str_in m xs = sort_by-str_in m (distinct xs) ∙ distinct-str_in m xs

pub str_in-append :
    (m : String) (xs ys : List String) → str_in m (xs ++ ys) ≡ (str_in m xs || str_in m ys)
str_in-append m [] ys = refl
str_in-append m (x ∷ xs) ys = ground (arith, str_in-append m xs ys)
