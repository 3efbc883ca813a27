-- ===== src/Sort/Laws.antt =====
-- `sort_slice` with a strict weak order: its elements, their order, and inputs without ties.
use fleet_core.Prelude.Filters.{All-map_lem}
use mathlib.Core.List.{Permᴰ, Pairwise, mem-cons_self}
use mathlib.Core.List.Permᴰ
use fleet_core.Prelude.{
  ap, if◌then◌else◌, String, ◌≡◌, refl, ap₂, sym, ◌∙◌, Bool, true, false, List, [], ◌∷◌, arith,
  ◌||◌, inl, inr, All, ◌<s◌, <s_asym, <s_trans, <s_total, Bool-cases,
}
use fleet_core.Sort.{insert_sorted, sort_slice}

-- `less` is a strict weak order, as `sort.Slice` requires.
pub record StrictWeak {ℓ} {A : Type ℓ} (less : A → A → Bool) : Type ℓ where
  pub asym : (a b : A) → less a b ≡ true → less b a ≡ false
  pub neg_trans : (a b c : A) → less a b ≡ false → less b c ≡ false → less a c ≡ false

module _ {ℓ} {A : Type ℓ} (less : A → A → Bool) where
  -- No element is less than one that stands before it.
  abbrev pub Sorted : List A → Type 0
  Sorted [] = Unit
  Sorted (x ∷ xs) = All (λ y. less y x ≡ false) xs × Sorted xs

  -- The order tells the two apart.
  abbrev pub Apart : A → A → Type 0
  Apart x y = (less x y || less y x) ≡ true

  All-insert {κ} :
      (P : A → Type κ) (x : A) (ys : List A) → P x → All P ys → All P (insert_sorted less x ys)
  unfolding insert_sorted
  All-insert P x [] p h = (p, tt)
  All-insert P x (y ∷ ys) p h = elim (Bool-cases (less y x)) [
    | inl e ↦ rw e (h.0, All-insert P x ys p h.1)
    | inr e ↦ rw e (p, h)
  ]

  pub All-sort {κ} : (P : A → Type κ) (xs : List A) → All P xs → All P (sort_slice less xs)
  unfolding sort_slice
  All-sort P [] h = tt
  All-sort P (x ∷ xs) h = All-insert P x (sort_slice less xs) h.0 (All-sort P xs h.1)

  module _ (less' : A → A → Bool) where
    insert_sorted-cong :
        (x : A) (ys : List A)
        → All (λ y. less y x ≡ less' y x) ys
        → insert_sorted less x ys ≡ insert_sorted less' x ys
    unfolding insert_sorted
    insert_sorted-cong x [] h = refl
    insert_sorted-cong x (y ∷ ys) h =
        rw h.0 (ap (λ r. if less' y x then y ∷ r else x ∷ y ∷ ys) (insert_sorted-cong x ys h.1))

    -- Two orders that agree on the elements sort them alike.
    pub sort_slice-cong :
        (xs : List A)
        → All (λ a. All (λ b. less a b ≡ less' a b) xs) xs
        → sort_slice less xs ≡ sort_slice less' xs
    unfolding sort_slice
    sort_slice-cong [] h = refl
    sort_slice-cong (x ∷ xs) h =
        insert_sorted-cong x (sort_slice less xs) (All-sort _ xs (All-map_lem xs (λ a e. e.0) h.1))
        ∙ ap (insert_sorted less' x) (sort_slice-cong xs (All-map_lem xs (λ a e. e.1) h.1))

  insert-perm : (x : A) (ys : List A) → Permᴰ (insert_sorted less x ys) (x ∷ ys)
  unfolding insert_sorted
  insert-perm x [] = Permᴰ.refl (x ∷ [])
  insert-perm x (y ∷ ys) = elim (Bool-cases (less y x)) [
    | inl e ↦ rw e (Permᴰ.trans (Permᴰ.cons refl (insert-perm x ys)) (Permᴰ.swap refl refl))
    | inr e ↦ rw e (Permᴰ.refl (x ∷ y ∷ ys))
  ]

  -- Sorting keeps every element, as often as it was there.
  pub sort_slice-perm : (xs : List A) → Permᴰ (sort_slice less xs) xs
  unfolding sort_slice
  sort_slice-perm [] = Permᴰ.nil
  sort_slice-perm (x ∷ xs) =
      Permᴰ.trans (insert-perm x (sort_slice less xs)) (Permᴰ.cons refl (sort_slice-perm xs))

  module _ (o : StrictWeak less) where
    All-below :
        (x y : A) (ys : List A)
        → less y x ≡ false
        → All (λ z. less z y ≡ false) ys
        → All (λ z. less z x ≡ false) ys
    All-below x y [] e h = tt
    All-below x y (z ∷ ys) e h = (o.neg_trans z y x h.0 e, All-below x y ys e h.1)

    insert-Sorted : (x : A) (ys : List A) → Sorted ys → Sorted (insert_sorted less x ys)
    unfolding insert_sorted
    insert-Sorted x [] s = (tt, tt)
    insert-Sorted x (y ∷ ys) s = elim (Bool-cases (less y x)) [
      | inl e ↦
          rw e (All-insert (λ z. less z y ≡ false) x ys (o.asym y x e) s.0, insert-Sorted x ys s.1)
      | inr e ↦ rw e ((e, All-below x y ys e s.0), s)
    ]

    pub sort_slice-Sorted : (xs : List A) → Sorted (sort_slice less xs)
    unfolding sort_slice
    sort_slice-Sorted [] = tt
    sort_slice-Sorted (x ∷ xs) = insert-Sorted x (sort_slice less xs) (sort_slice-Sorted xs)

    less_trans : (a b c : A) → less a b ≡ true → less b c ≡ true → less a c ≡ true
    less_trans a b c p q = elim (Bool-cases (less a c)) [
      | inl e ↦ e
      | inr e ↦ absurd (cc (p, o.neg_trans a c b e (o.asym b c q)))
    ]

    insert_swap_lt :
        (x y : A) (l : List A)
        → less x y ≡ true
        → insert_sorted less x (insert_sorted less y l)
          ≡ insert_sorted less y (insert_sorted less x l)
    unfolding insert_sorted
    insert_swap_lt x y [] h = ground (arith, o.asym x y h)
    insert_swap_lt x y (z ∷ l) h =
        ground (arith, o.asym x y h, insert_swap_lt x y l h, less_trans z x y)

    insert_swap :
        (x y : A) (l : List A)
        → Apart x y
        → insert_sorted less x (insert_sorted less y l)
          ≡ insert_sorted less y (insert_sorted less x l)
    insert_swap x y l h = elim (Bool-cases (less x y)) [
      | inl e ↦ insert_swap_lt x y l e
      | inr e ↦ sym (insert_swap_lt y x l (rw e at h))
    ]

    Apart-symm : (x y : A) → Apart x y → Apart y x
    Apart-symm x y h = ground arith

    -- The result rests on the elements alone, where no two of them tie.
    pub sort_slice-eq_of_perm :
        {xs ys : List A} → Permᴰ xs ys → Pairwise Apart xs → sort_slice less xs ≡ sort_slice less ys
    unfolding sort_slice
    sort_slice-eq_of_perm Permᴰ.nil h = refl
    sort_slice-eq_of_perm (Permᴰ.cons e p) (Pairwise.cons h t) =
        ap₂ (insert_sorted less) e (sort_slice-eq_of_perm p t)
    sort_slice-eq_of_perm (Permᴰ.swap {a} {b} {l = l} e f) (Pairwise.cons h t) =
        insert_swap a b (sort_slice less l) (h b mem-cons_self)
        ∙ ap₂ (λ x y. insert_sorted less x (insert_sorted less y (sort_slice less l))) f e
    sort_slice-eq_of_perm (Permᴰ.trans p q) h =
        sort_slice-eq_of_perm p h
        ∙ sort_slice-eq_of_perm q (Permᴰ.pairwise (λ x y. hlevel) Apart-symm p h)

pub <s_neg_trans : (r s t : String) → (r <s s) ≡ false → (s <s t) ≡ false → (r <s t) ≡ false
<s_neg_trans r s t p q = elim (Bool-cases (s <s r)) [
  | inl e ↦ ground (arith, <s_trans s r t e)
  | inr e ↦ rw (<s_total r s p e) q
]

-- The order by a text that each element carries.
module _ {ℓ} {A : Type ℓ} (name : A → String) where
  abbrev pub by_name : A → A → Bool
  by_name a b = name a <s name b

  pub by_name-StrictWeak : StrictWeak by_name
  by_name-StrictWeak = record {
    asym = λ a b. <s_asym (name a) (name b);
    neg_trans = λ a b c. <s_neg_trans (name a) (name b) (name c);
  }
