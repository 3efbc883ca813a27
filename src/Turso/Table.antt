-- ===== src/Turso/Table.antt =====
-- SQL on one table: the rows in the order in which they were inserted. A statement's WHERE is a test,
-- and a primary key a test that holds for at most one row.
pub mod Laws
pub mod Twice
use fleet_core.Prelude.{Bool, not, Option, none, some, List, [], ◌∷◌, map, if◌then◌else◌, keep_if}

module _ {ℓ} {A : Type ℓ} where
  -- The first row that passes.
  unfoldable pub find : (A → Bool) → List A → Option A
  find p [] = none
  find p (r ∷ rs) = if p r then some r else find p rs

  -- `INSERT … ON CONFLICT(key) DO UPDATE SET …`: `hits` holds for the row with the key of `new`, and
  -- `merge` is what the SET makes of it.
  unfoldable pub upsert : (A → Bool) → (A → A) → A → List A → List A
  upsert hits merge new [] = new ∷ []
  upsert hits merge new (r ∷ rs) = if hits r then merge r ∷ rs else r ∷ upsert hits merge new rs

  -- `UPDATE … SET … WHERE`
  unfoldable pub update_where : (A → Bool) → (A → A) → List A → List A
  update_where p f = map (λ r. if p r then f r else r)

  -- `DELETE FROM … WHERE`
  unfoldable pub delete_where : (A → Bool) → List A → List A
  delete_where p = keep_if (λ r. not (p r))
