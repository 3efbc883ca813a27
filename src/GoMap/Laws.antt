-- ===== src/GoMap/Laws.antt =====
-- Lookups after writes, and that no key occurs twice.
use fleet_core.Prelude.{
  String, ◌≡◌, refl, false, none, some, List, [], ◌∷◌, arith, ◌=s=◌, eq_iff, eq_refl, All,
  if◌then◌else◌, Bool-cases, inl, inr,
}
use fleet_core.GoMap.{GoMap, get, put, delete, keys}

-- No key occurs twice.
abbrev pub Distinct : List String → Type 0
Distinct [] = Unit
Distinct (k ∷ ks) = All (λ j. (k =s= j) ≡ false) ks × Distinct ks

module _ {ℓ} {V : Type ℓ} where
  pub get-put :
      (k j : String) (v : V) (m : GoMap V)
      → get j (put k v m) ≡ (if k =s= j then some v else get j m)
  unfolding get put
  get-put k j v [] = refl
  get-put k j v ((i, w) ∷ m) = ground (arith, eq_iff k j, eq_iff i k, eq_iff i j, get-put k j v m)

  pub get-delete :
      (k j : String) (m : GoMap V) → get j (delete k m) ≡ (if k =s= j then none else get j m)
  unfolding get delete
  get-delete k j [] = ground arith
  get-delete k j ((i, w) ∷ m) = ground (arith, eq_iff k j, eq_iff i k, eq_iff i j, get-delete k j m)

  pub get-put_self : (k : String) (v : V) (m : GoMap V) → get k (put k v m) ≡ some v
  get-put_self k v m = simp (get-put, eq_refl)

  pub get-delete_self : (k : String) (m : GoMap V) → get k (delete k m) ≡ none
  get-delete_self k m = simp (get-delete, eq_refl)

  All-put :
      (i k : String) (v : V) (m : GoMap V)
      → (i =s= k) ≡ false
      → All (λ j. (i =s= j) ≡ false) (keys m)
      → All (λ j. (i =s= j) ≡ false) (keys (put k v m))
  unfolding put
  All-put i k v [] e h = (e, tt)
  All-put i k v ((j, w) ∷ m) e h = ground (arith, All-put i k v m e h.1)

  All-delete :
      (i k : String) (m : GoMap V)
      → All (λ j. (i =s= j) ≡ false) (keys m)
      → All (λ j. (i =s= j) ≡ false) (keys (delete k m))
  unfolding delete
  All-delete i k [] h = tt
  All-delete i k ((j, w) ∷ m) h = ground (arith, All-delete i k m h.1)

  pub put-Distinct :
      (k : String) (v : V) (m : GoMap V) → Distinct (keys m) → Distinct (keys (put k v m))
  unfolding put
  put-Distinct k v [] h = (tt, tt)
  put-Distinct k v ((j, w) ∷ m) h = elim (Bool-cases (j =s= k)) [
    | inl e ↦ rw e (rw (← (eq_iff j k).0 e) h)
    | inr e ↦ rw e (All-put j k v m e h.0, put-Distinct k v m h.1)
  ]

  pub delete-Distinct :
      (k : String) (m : GoMap V) → Distinct (keys m) → Distinct (keys (delete k m))
  unfolding delete
  delete-Distinct k [] h = tt
  delete-Distinct k ((j, w) ∷ m) h = elim (Bool-cases (j =s= k)) [
    | inl e ↦ rw e (delete-Distinct k m h.1)
    | inr e ↦ rw e (All-delete j k m h.0, delete-Distinct k m h.1)
  ]

  -- A key that differs from all keys is missing.
  pub get_absent :
      (k : String) (m : GoMap V) → All (λ j. (k =s= j) ≡ false) (keys m) → get k m ≡ none
  unfolding get
  get_absent k [] h = refl
  get_absent k ((j, w) ∷ m) h = ground (arith, eq_iff j k, eq_iff k j, get_absent k m h.1)
