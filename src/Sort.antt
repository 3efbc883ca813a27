-- ===== src/Sort.antt =====
-- Go's `sort.Slice(xs, less)`, by insertion. Go's sort is not stable: where `less` tells two
-- elements apart in neither direction their order is open, so the theorems that use a sort either
-- hold for any input order of such ties or assume that there are none.
pub mod Laws
use fleet_core.Prelude.{Bool, List, [], ◌∷◌, if◌then◌else◌}

module _ {ℓ} {A : Type ℓ} (less : A → A → Bool) where
  unfoldable pub insert_sorted : A → List A → List A
  insert_sorted x [] = x ∷ []
  insert_sorted x (y ∷ ys) = if less y x then y ∷ insert_sorted x ys else x ∷ y ∷ ys

  unfoldable pub sort_slice : List A → List A
  unfolding insert_sorted
  sort_slice [] = []
  sort_slice (x ∷ xs) = insert_sorted x (sort_slice xs)
