-- ===== src/Prelude/Sorting.antt =====
-- `Array.prototype.sort` with a comparator, as a stable insertion sort: an element goes in front of
-- the first one with which the comparator gives a negative number.
use mathlib.Core.Bool.{Bool}
use mathlib.Core.List.{List, [], ◌∷◌}
use ukpc_remote_control.Prelude.Tests.{if◌then◌else◌}

module _ {ℓ} {A : Type ℓ} (before : A → A → Bool) where
  unfoldable pub insert_sorted : A → List A → List A
  insert_sorted x [] = x ∷ []
  insert_sorted x (y ∷ ys) = if before x y then x ∷ y ∷ ys else y ∷ insert_sorted x ys

  unfoldable pub sort_into : List A → List A → List A
  sort_into sorted [] = sorted
  sort_into sorted (x ∷ xs) = sort_into (insert_sorted x sorted) xs

  unfoldable pub sort_by : List A → List A
  unfolding sort_into insert_sorted
  sort_by xs = sort_into [] xs
