-- ===== src/Prelude/Filters.antt =====
-- Lists and predicates through filters, reorderings and parts of a list.
use mathlib.Core.List.{Permᴰ}
use mathlib.Core.List.Permᴰ
use fleet_core.Prelude.{
  sym, ℕ, zero, suc, ◌≡◌, refl, ap, ◌∙◌, subst, inl, inr, Bool, true, false, List, [], ◌∷◌, ◌++◌,
  arith, Bool-cases, length, drop, keep_if, All,
}

module _ {ℓ} {A : Type ℓ} where
  pub keep_if-append :
      (p : A → Bool) (xs ys : List A) → keep_if p (xs ++ ys) ≡ keep_if p xs ++ keep_if p ys
  keep_if-append p [] ys = refl
  keep_if-append p (x ∷ xs) ys = elim (Bool-cases (p x)) [
    | inl e ↦ rw e (ap (◌∷◌ x) (keep_if-append p xs ys))
    | inr e ↦ rw e (keep_if-append p xs ys)
  ]

  pub keep_if-swap :
      (p q : A → Bool) (xs : List A) → keep_if p (keep_if q xs) ≡ keep_if q (keep_if p xs)
  keep_if-swap p q [] = refl
  keep_if-swap p q (x ∷ xs) = ground (arith, keep_if-swap p q xs)

  pub keep_if-perm :
      (p : A → Bool) {xs ys : List A} → Permᴰ xs ys → Permᴰ (keep_if p xs) (keep_if p ys)
  keep_if-perm p Permᴰ.nil = Permᴰ.nil
  keep_if-perm p (Permᴰ.cons {a} {b} e t) = elim (Bool-cases (p a)) [
    | inl q ↦ rw q (rw (ap p (sym e) ∙ q) (Permᴰ.cons e (keep_if-perm p t)))
    | inr q ↦ rw q (rw (ap p (sym e) ∙ q) (keep_if-perm p t))
  ]
  keep_if-perm p (Permᴰ.swap {a} {b} {l = l} e f) = elim (Bool-cases (p a)) [
    | inl q ↦ elim (Bool-cases (p b)) [
      | inl r ↦ rw (q, r) (rw (ap p (sym e) ∙ q, ap p (sym f) ∙ r) (Permᴰ.swap e f))
      | inr r ↦
          rw (q, r)
            (rw (ap p (sym e) ∙ q, ap p (sym f) ∙ r) (Permᴰ.cons e (Permᴰ.refl (keep_if p l))))
    ]
    | inr q ↦ elim (Bool-cases (p b)) [
      | inl r ↦
          rw (q, r)
            (rw (ap p (sym e) ∙ q, ap p (sym f) ∙ r) (Permᴰ.cons f (Permᴰ.refl (keep_if p l))))
      | inr r ↦ rw (q, r) (rw (ap p (sym e) ∙ q, ap p (sym f) ∙ r) (Permᴰ.refl (keep_if p l)))
    ]
  ]
  keep_if-perm p (Permᴰ.trans s t) = Permᴰ.trans (keep_if-perm p s) (keep_if-perm p t)

  -- The number of elements that pass a test does not rest on their order.
  pub length-keep_if-perm :
      (p : A → Bool) {xs ys : List A} → Permᴰ xs ys → length (keep_if p xs) ≡ length (keep_if p ys)
  length-keep_if-perm p Permᴰ.nil = refl
  length-keep_if-perm p (Permᴰ.cons {a} {b} e t) = ground (arith, ap p e, length-keep_if-perm p t)
  length-keep_if-perm p (Permᴰ.swap {a} {b} {l = l} e f) = ground (arith, ap p e, ap p f)
  length-keep_if-perm p (Permᴰ.trans s t) = length-keep_if-perm p s ∙ length-keep_if-perm p t

  pub keep_if-none : (p : A → Bool) (xs : List A) → All (λ x. p x ≡ false) xs → keep_if p xs ≡ []
  keep_if-none p [] h = refl
  keep_if-none p (x ∷ xs) h = rw h.0 (keep_if-none p xs h.1)

  pub All-perm {κ} : (P : A → Type κ) {xs ys : List A} → Permᴰ xs ys → All P xs → All P ys
  All-perm P Permᴰ.nil h = h
  All-perm P (Permᴰ.cons e t) h = (subst P e h.0, All-perm P t h.1)
  All-perm P (Permᴰ.swap e f) h = (subst P f h.1.0, (subst P e h.0, h.1.1))
  All-perm P (Permᴰ.trans s t) h = All-perm P t (All-perm P s h)

  pub All-both {κ κ'} :
      (P : A → Type κ) (Q : A → Type κ') (xs : List A)
      → All P xs
      → All Q xs
      → All (λ x. P x × Q x) xs
  All-both P Q [] h k = tt
  All-both P Q (x ∷ xs) h k = ((h.0, k.0), All-both P Q xs h.1 k.1)

  pub All-of_keep_if {κ} :
      (P : A → Type κ) (p : A → Bool) (xs : List A)
      → All P (keep_if p xs)
      → All (λ x. p x ≡ true → P x) xs
  All-of_keep_if P p [] h = tt
  All-of_keep_if P p (x ∷ xs) h = elim (Bool-cases (p x)) [
    | inl e ↦ let h' = rw e at h in (λ q. h'.0, All-of_keep_if P p xs h'.1)
    | inr e ↦ (λ q. absurd (cc (e, q)), All-of_keep_if P p xs (rw e at h))
  ]

  pub All-keep_if {κ} :
      (P : A → Type κ) (p : A → Bool) (xs : List A)
      → All (λ x. p x ≡ true → P x) xs
      → All P (keep_if p xs)
  All-keep_if P p [] h = tt
  All-keep_if P p (x ∷ xs) h = elim (Bool-cases (p x)) [
    | inl e ↦ rw e (h.0 e, All-keep_if P p xs h.1)
    | inr e ↦ rw e (All-keep_if P p xs h.1)
  ]

  pub All-map_lem {κ κ'} :
      {P : A → Type κ} {Q : A → Type κ'} (xs : List A) → ((x : A) → P x → Q x) → All P xs → All Q xs
  All-map_lem [] f h = tt
  All-map_lem (x ∷ xs) f h = (f x h.0, All-map_lem xs f h.1)

  pub All-intro {κ} : {P : A → Type κ} (xs : List A) → ((x : A) → P x) → All P xs
  All-intro [] f = tt
  All-intro (x ∷ xs) f = (f x, All-intro xs f)

  pub keep_if-all : (p : A → Bool) (xs : List A) → ((x : A) → p x ≡ true) → keep_if p xs ≡ xs
  keep_if-all p [] h = refl
  keep_if-all p (x ∷ xs) h = rw (h x) (ap (◌∷◌ x) (keep_if-all p xs h))

  -- A test that passes wherever another does leaves what that one selects.
  pub keep_if-absorb :
      (p q : A → Bool) (xs : List A)
      → ((x : A) → p x ≡ true → q x ≡ true)
      → keep_if p (keep_if q xs) ≡ keep_if p xs
  keep_if-absorb p q [] h = refl
  keep_if-absorb p q (x ∷ xs) h = ground (arith, h x, keep_if-absorb p q xs h)

  pub All-append {κ} : (P : A → Type κ) (xs ys : List A) → All P xs → All P ys → All P (xs ++ ys)
  All-append P [] ys h k = k
  All-append P (x ∷ xs) ys h k = (h.0, All-append P xs ys h.1 k)

  pub All-drop {κ} : (P : A → Type κ) (n : ℕ) (xs : List A) → All P xs → All P (drop n xs)
  All-drop P zero xs h = h
  All-drop P (suc n) [] h = tt
  All-drop P (suc n) (x ∷ xs) h = All-drop P n xs h.1
