-- ===== src/Base/Sort.antt =====
-- A stable sort by a Boolean order, as `sorted` and `ORDER BY` make it, and what it keeps.
use mathlib.Core.Bool.{Bool}
use mathlib.Core.List.{List, [], ◌∷◌}
use native.Mathlib.Omega.{arith}
use agent_trading.Base.Tests.{if◌then◌else◌}
use agent_trading.Base.Lists.{All}

module _ {ℓ} {A : Type ℓ} (le : A → A → Bool) where
  -- Before the first item that it does not follow.
  unfoldable pub insert_by : A → List A → List A
  insert_by x [] = x ∷ []
  insert_by x (y ∷ ys) = if le x y then x ∷ y ∷ ys else y ∷ insert_by x ys

  unfoldable pub sort_by : List A → List A
  unfolding insert_by
  sort_by [] = []
  sort_by (x ∷ xs) = insert_by x (sort_by xs)

module _ {ℓ κ} {A : Type ℓ} (le : A → A → Bool) (P : A → Type κ) where
  All-insert_by : (x : A) (ys : List A) → P x → All P ys → All P (insert_by le x ys)
  unfolding insert_by
  All-insert_by x [] h k = (h, tt)
  All-insert_by x (y ∷ ys) h k = ground (arith, All-insert_by x ys h k.1)

  pub All-sort_by : (xs : List A) → All P xs → All P (sort_by le xs)
  unfolding sort_by
  All-sort_by [] h = tt
  All-sort_by (x ∷ xs) h = All-insert_by x (sort_by le xs) h.0 (All-sort_by xs h.1)

-- Every two items are in a symmetric relation.
module _ {ℓ κ} {A : Type ℓ} (R : A → A → Type κ) where
  abbrev pub Pairwise : List A → Type κ
  Pairwise [] = Unit
  Pairwise (x ∷ xs) = All (R x) xs × Pairwise xs

  module _ (le : A → A → Bool) (R_sym : (x y : A) → R x y → R y x) where
    Pairwise-insert_by :
        (x : A) (ys : List A) → All (R x) ys → Pairwise ys → Pairwise (insert_by le x ys)
    unfolding insert_by
    Pairwise-insert_by x [] h k = (tt, tt)
    Pairwise-insert_by x (y ∷ ys) h k =
        ground
          (arith, Pairwise-insert_by x ys h.1 k.1, All-insert_by le (R y) x ys (R_sym x y h.0) k.0)

    pub Pairwise-sort_by : (xs : List A) → Pairwise xs → Pairwise (sort_by le xs)
    unfolding sort_by
    Pairwise-sort_by [] h = tt
    Pairwise-sort_by (x ∷ xs) h =
        Pairwise-insert_by x (sort_by le xs) (All-sort_by le (R x) xs h.0) (Pairwise-sort_by xs h.1)
