-- ===== src/Turso/Table/Twice.antt =====
-- A statement that runs twice with the same values leaves the table as it is after the first run.
use fleet_core.Prelude.{any, ◌≡◌, refl, ap, ap₂, Bool, true, List, [], ◌∷◌, Bool-cases, inl, inr}
use fleet_core.Turso.Table.{upsert, update_where, delete_where}

module _ {ℓ} {A : Type ℓ} (hits : A → Bool) where
  pub delete_where-delete_where :
      (rs : List A) → delete_where hits (delete_where hits rs) ≡ delete_where hits rs
  unfolding delete_where
  delete_where-delete_where [] = refl
  delete_where-delete_where (r ∷ rs) = elim (Bool-cases (hits r)) [
    | inl e ↦ rw e (delete_where-delete_where rs)
    | inr e ↦ rw (e, e) (ap (◌∷◌ r) (delete_where-delete_where rs))
  ]

  pub update_where-update_where :
      (f : A → A) (rs : List A)
      → ((r : A) → f (f r) ≡ f r)
      → update_where hits f (update_where hits f rs) ≡ update_where hits f rs
  unfolding update_where
  update_where-update_where f [] k = refl
  update_where-update_where f (r ∷ rs) k = elim (Bool-cases (hits r)) [
    | inl e ↦ rw e (elim (Bool-cases (hits (f r))) [
      | inl e' ↦ rw e' (ap₂ ◌∷◌ (k r) (update_where-update_where f rs k))
      | inr e' ↦ rw e' (ap (◌∷◌ (f r)) (update_where-update_where f rs k))
    ])
    | inr e ↦ rw (e, e) (ap (◌∷◌ r) (update_where-update_where f rs k))
  ]

  pub upsert-upsert :
      (merge : A → A) (new : A) (rs : List A)
      → hits new ≡ true
      → merge new ≡ new
      → ((r : A) → hits r ≡ true → (hits (merge r) ≡ true) × (merge (merge r) ≡ merge r))
      → upsert hits merge new (upsert hits merge new rs) ≡ upsert hits merge new rs
  unfolding upsert
  upsert-upsert merge new [] h m k = rw h (ap (λ r. r ∷ []) m)
  upsert-upsert merge new (r ∷ rs) h m k = elim (Bool-cases (hits r)) [
    | inl e ↦ rw (e, (k r e).0) (ap (λ r. r ∷ rs) (k r e).1)
    | inr e ↦ rw (e, e) (ap (◌∷◌ r) (upsert-upsert merge new rs h m k))
  ]

  -- The row of an upsert is there.
  pub any-upsert :
      (new : A) (rs : List A) → hits new ≡ true → any hits (upsert hits (λ r. r) new rs) ≡ true
  unfolding upsert
  any-upsert new [] h = rw h refl
  any-upsert new (r ∷ rs) h = elim (Bool-cases (hits r)) [
    | inl e ↦ rw (e, e) refl
    | inr e ↦ rw (e, e) (any-upsert new rs h)
  ]
