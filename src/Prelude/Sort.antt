-- ===== src/Prelude/Sort.antt =====
-- Python's `sorted`, `max` and `min` with a key that is a pair of numbers, and membership.
use multi_cloud_platform.Prelude.Tests.{ltb, ◌==◌, if◌then◌else◌}
use Prim.Native.Nat.{ℕ}
use mathlib.Core.Path.{◌≡◌}
use mathlib.Core.Logic.{◌⊎◌}
use mathlib.Core.Bool.{Bool, ◌&&◌, ◌||◌}
use mathlib.Core.Option.{Option, none, some}
use mathlib.Core.List.{List, [], ◌∷◌}

-- The order of pairs.
abbrev pub key_ltb : ℕ × ℕ → ℕ × ℕ → Bool
key_ltb (a, b) (c, d) = ltb a c || (a == c && ltb b d)

module _ {A : Type 0} where
  -- `x in xs`, with the place where it stands.
  abbrev pub In : A → List A → Type 0
  In x [] = ⊥
  In x (y ∷ ys) = (x ≡ y) ⊎ In x ys

module _ {A : Type 0} (key : A → ℕ × ℕ) where
  unfoldable pub insert_by : A → List A → List A
  insert_by x [] = x ∷ []
  insert_by x (y ∷ ys) = if key_ltb (key y) (key x) then y ∷ insert_by x ys else x ∷ y ∷ ys

  -- `sorted(xs, key=key)`, which is stable.
  unfoldable pub sort_by : List A → List A
  unfolding insert_by
  sort_by [] = []
  sort_by (x ∷ xs) = insert_by x (sort_by xs)

  unfoldable pub max_from : A → List A → A
  max_from best [] = best
  max_from best (x ∷ xs) = max_from (if key_ltb (key best) (key x) then x else best) xs

  -- `max(xs, key=key)`, the first of the greatest.
  unfoldable pub max_by : List A → Option A
  unfolding max_from
  max_by [] = none
  max_by (x ∷ xs) = some (max_from x xs)

  unfoldable pub min_from : A → List A → A
  min_from best [] = best
  min_from best (x ∷ xs) = min_from (if key_ltb (key x) (key best) then x else best) xs

  -- `min(xs, key=key)`, the first of the least.
  unfoldable pub min_by : List A → Option A
  unfolding min_from
  min_by [] = none
  min_by (x ∷ xs) = some (min_from x xs)
