-- ===== src/Turso/Table/Laws.antt =====
-- What a search finds after each kind of statement.
use fleet_core.Prelude.{
  ◌+◌, ◌≤◌, any, ◌≡◌, refl, Bool, true, false, Option, none, some, List, [], ◌∷◌, arith,
  if◌then◌else◌, Bool-cases, inl, inr, length, keep_if, ◌==◌,
}
use fleet_core.Turso.Table.{find, upsert, update_where, delete_where}

-- The row that an upsert leaves.
abbrev pub upserted {ℓ} : {A : Type ℓ} → (A → A) → A → Option A → A
upserted merge new none = new
upserted merge new (some r) = merge r

module _ {ℓ} {A : Type ℓ} (p hits : A → Bool) where
  -- The key's row, if the merge keeps the key.
  pub find-upsert_self :
      (merge : A → A) (new : A) (rs : List A)
      → hits new ≡ true
      → ((r : A) → hits r ≡ true → hits (merge r) ≡ true)
      → find hits (upsert hits merge new rs) ≡ some (upserted merge new (find hits rs))
  unfolding find upsert
  find-upsert_self merge new [] h k = rw h
  find-upsert_self merge new (r ∷ rs) h k = elim (Bool-cases (hits r)) [
    | inl e ↦ rw (e, k r e)
    | inr e ↦ rw (e, e) (find-upsert_self merge new rs h k)
  ]

  -- Another key's row.
  pub find-upsert :
      (merge : A → A) (new : A) (rs : List A)
      → p new ≡ false
      → ((r : A) → hits r ≡ true → (p r ≡ false) × (p (merge r) ≡ false))
      → find p (upsert hits merge new rs) ≡ find p rs
  unfolding find upsert
  find-upsert merge new [] h k = rw h
  find-upsert merge new (r ∷ rs) h k = elim (Bool-cases (hits r)) [
    | inl e ↦ rw (e, (k r e).0, (k r e).1)
    | inr e ↦ rw e (ground (arith, find-upsert merge new rs h k))
  ]

  pub find-update_self :
      (f : A → A) (rs : List A)
      → ((r : A) → hits r ≡ true → hits (f r) ≡ true)
      → find hits (update_where hits f rs)
        ≡ elim (find hits rs) as (λ o. Option A) [ none ↦ none | some r ↦ some (f r) ]
  unfolding find update_where
  find-update_self f [] k = refl
  find-update_self f (r ∷ rs) k = elim (Bool-cases (hits r)) [
    | inl e ↦ rw (e, k r e)
    | inr e ↦ rw (e, e) (find-update_self f rs k)
  ]

  pub find-update :
      (f : A → A) (rs : List A)
      → ((r : A) → hits r ≡ true → (p r ≡ false) × (p (f r) ≡ false))
      → find p (update_where hits f rs) ≡ find p rs
  unfolding find update_where
  find-update f [] k = refl
  find-update f (r ∷ rs) k = elim (Bool-cases (hits r)) [
    | inl e ↦ rw (e, (k r e).0, (k r e).1) (find-update f rs k)
    | inr e ↦ rw e (ground (arith, find-update f rs k))
  ]

  -- Nothing that is deleted is found.
  pub find-delete_self :
      (rs : List A) → ((r : A) → p r ≡ true → hits r ≡ true) → find p (delete_where hits rs) ≡ none
  unfolding find delete_where
  find-delete_self [] k = refl
  find-delete_self (r ∷ rs) k = elim (Bool-cases (hits r)) [
    | inl e ↦ rw e (find-delete_self rs k)
    | inr e ↦ rw e (ground (arith, find-delete_self rs k, k r))
  ]

  pub find-delete :
      (rs : List A)
      → ((r : A) → hits r ≡ true → p r ≡ false)
      → find p (delete_where hits rs) ≡ find p rs
  unfolding find delete_where
  find-delete [] k = refl
  find-delete (r ∷ rs) k = elim (Bool-cases (hits r)) [
    | inl e ↦ rw (e, k r e) (find-delete rs k)
    | inr e ↦ rw e (ground (arith, find-delete rs k))
  ]

-- What is found passes, and is counted.
module _ {ℓ} {A : Type ℓ} (p : A → Bool) where
  pub find-passes : (rs : List A) {r : A} → find p rs ≡ some r → p r ≡ true
  unfolding find
  find-passes [] h = cc
  find-passes (x ∷ rs) {r = r} h = ground (arith, find-passes rs {r = r})

  pub length-find-none : (rs : List A) → find p rs ≡ none → length (keep_if p rs) ≡ 0
  unfolding find
  length-find-none [] h = refl
  length-find-none (r ∷ rs) h = ground (arith, length-find-none rs)

  pub length-find-some :
      (rs : List A) {r : A} → find p rs ≡ some r → (length (keep_if p rs) == 0) ≡ false
  unfolding find
  length-find-some [] h = cc
  length-find-some (x ∷ rs) {r = r} h = ground (arith, length-find-some rs {r = r})

  pub update_where-none : (f : A → A) (rs : List A) → find p rs ≡ none → update_where p f rs ≡ rs
  unfolding find update_where
  update_where-none f [] h = refl
  update_where-none f (r ∷ rs) h = ground (arith, update_where-none f rs)

  pub any-find : (rs : List A) → find p rs ≡ none → any p rs ≡ false
  unfolding find
  any-find [] h = refl
  any-find (r ∷ rs) h = ground (arith, any-find rs)

  pub keep_if-find-none : (rs : List A) → find p rs ≡ none → keep_if p rs ≡ []
  unfolding find
  keep_if-find-none [] h = refl
  keep_if-find-none (r ∷ rs) h = ground (arith, keep_if-find-none rs)

  pub keep_if-find-some :
      (rs : List A) {r : A} → find p rs ≡ some r → (rest : List A) × (keep_if p rs ≡ r ∷ rest)
  unfolding find
  keep_if-find-some [] h = cc
  keep_if-find-some (x ∷ rs) {r = r} h = elim (Bool-cases (p x)) [
    | inl e ↦ (keep_if p rs, ground (arith, e))
    | inr e ↦ let (rest, k) = keep_if-find-some rs {r = r} (ground (arith, e)) in (rest, rw e k)
  ]

  -- How many rows pass, after an insertion of a new key and after an update that no test can tell.
  pub count-upsert_new :
      (hits : A → Bool) (merge : A → A) (new : A) (rs : List A)
      → find hits rs ≡ none
      → length (keep_if p (upsert hits merge new rs))
        ≡ length (keep_if p rs) + (if p new then 1 else 0)
  unfolding find upsert
  count-upsert_new hits merge new [] h = ground arith
  count-upsert_new hits merge new (r ∷ rs) h = ground (arith, count-upsert_new hits merge new rs)

  pub count-update :
      (hits : A → Bool) (f : A → A) (rs : List A)
      → ((r : A) → p (f r) ≡ p r)
      → length (keep_if p (update_where hits f rs)) ≡ length (keep_if p rs)
  unfolding update_where
  count-update hits f [] k = refl
  count-update hits f (r ∷ rs) k = ground (arith, count-update hits f rs k, k r)

none_of_count {ℓ} :
    {A : Type ℓ} (p : A → Bool) (rs : List A) → length (keep_if p rs) ≡ 0 → find p rs ≡ none
unfolding find
none_of_count p [] h = refl
none_of_count p (r ∷ rs) h = ground (arith, none_of_count p rs)

-- A test that passes only rows with one key.
module _ {ℓ} {A : Type ℓ} (p hits : A → Bool) (narrow : (r : A) → hits r ≡ true → p r ≡ true) where
  pub find-narrow_none : (rs : List A) → find p rs ≡ none → find hits rs ≡ none
  unfolding find
  find-narrow_none [] h = refl
  find-narrow_none (r ∷ rs) h = ground (arith, narrow r, find-narrow_none rs)

  pub find-narrow_refused :
      (rs : List A) (r : A)
      → find p rs ≡ some r
      → hits r ≡ false
      → length (keep_if p rs) ≤ 1
      → find hits rs ≡ none
  unfolding find
  find-narrow_refused [] r h n c = refl
  find-narrow_refused (x ∷ rs) r h n c = elim (Bool-cases (p x)) [
    | inl e ↦
        let e' : x ≡ r = ground (arith, e) in
        let rest : find p rs ≡ none = none_of_count p rs (ground (arith, e)) in
        ground (arith, e', find-narrow_none rs rest)
    | inr e ↦ ground (arith, e, narrow x, find-narrow_refused rs r)
  ]

  pub find-narrow_some :
      (rs : List A) (r : A) → find p rs ≡ some r → hits r ≡ true → find hits rs ≡ some r
  unfolding find
  find-narrow_some [] r h n = cc
  find-narrow_some (x ∷ rs) r h n = ground (arith, narrow x, find-narrow_some rs r)

  pub find-update_narrow :
      (f : A → A) (rs : List A) (r : A)
      → ((x : A) → p (f x) ≡ p x)
      → find p rs ≡ some r
      → hits r ≡ true
      → find p (update_where hits f rs) ≡ some (f r)
  unfolding find update_where
  find-update_narrow f [] r k h n = cc
  find-update_narrow f (x ∷ rs) r k h n = ground (arith, narrow x, k x, find-update_narrow f rs r k)
