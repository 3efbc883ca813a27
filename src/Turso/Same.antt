-- ===== src/Turso/Same.antt =====
-- A table with a text as primary key, and the map in memory that it stands for.
use fleet_core.Prelude.{
  String, ◌≡◌, refl, sym, ap, ◌∙◌, subst, Bool, true, false, Option, none, some, List, Bool-cases,
  inl, inr, ◌=s=◌, eq_iff, eq_refl,
}
use fleet_core.Prelude.Int.{pos, negsuc}
use fleet_core.GoMap.{GoMap, get, put, delete}
use fleet_core.GoMap.Laws.{get-put, get-delete, get-put_self, get-delete_self}
use fleet_core.Turso.{SqlValue, text, integer, blob, null, ◌=v=◌}
use fleet_core.Turso.Table.{find, upsert, update_where, delete_where}
use fleet_core.Turso.Table.Laws.{
  upserted, find-upsert_self, find-upsert, find-update_self, find-update, find-delete_self,
  find-delete, find-passes, find-update_narrow,
}

pub text_of_eq : (v : SqlValue) (s : String) → (v =v= text s) ≡ true → v ≡ text s
unfolding ◌=v=◌
text_of_eq (text t) s h = ap text ((eq_iff t s).0 h)
text_of_eq (integer (pos n)) s h = cc
text_of_eq (integer (negsuc n)) s h = cc
text_of_eq (blob b) s h = cc
text_of_eq null s h = cc

abbrev pub row_of : {A R : Type 0} → (A → R) → Option A → Option R
row_of row none = none
row_of row (some a) = some (row a)

-- What is found under each key.
abbrev pub Same : {A R : Type 0} → (R → SqlValue) → (A → R) → GoMap A → List R → Type 0
Same key row ms rs = (id : String) → find (λ r. key r =v= text id) rs ≡ row_of row (get id ms)

-- A cell that is one text is not another one.
pub other_text :
    (v : SqlValue) (id j : String)
    → (id =s= j) ≡ false
    → (v =v= text id) ≡ true
    → (v =v= text j) ≡ false
unfolding ◌=v=◌
other_text v id j d h = rw (text_of_eq v id h) d

text_eq_self : (id : String) → (text id =v= text id) ≡ true
unfolding ◌=v=◌
text_eq_self id = eq_refl id

pub upserted_row :
    {A R : Type 0} (row : A → R) (merge : R → R) (a : A) (o : Option A)
    → ((b : A) → o ≡ some b → merge (row b) ≡ row a)
    → upserted merge (row a) (row_of row o) ≡ row a
upserted_row row merge a none h = refl
upserted_row row merge a (some b) h = h b refl

module _ {A R : Type 0} (key : R → SqlValue) (row : A → R) (ms : GoMap A) (rs : List R)
    (same : Same key row ms rs) (id : String) where
  -- The row of a record has its key.
  pub Same-key : {b : A} → get id ms ≡ some b → key (row b) ≡ text id
  Same-key {b} there =
      text_of_eq (key (row b)) id
        (find-passes (λ r. key r =v= text id) rs (same id ∙ ap (row_of row) there))

  -- `INSERT … ON CONFLICT … DO UPDATE` is `m[id] = a`, if the merge makes the row of `a`.
  pub Same-upsert :
      (a : A) (merge : R → R)
      → key (row a) ≡ text id
      → ((r : R) → key (merge r) ≡ key r)
      → ((b : A) → get id ms ≡ some b → merge (row b) ≡ row a)
      → Same key row (put id a ms) (upsert (λ r. key r =v= text id) merge (row a) rs)
  Same-upsert a merge k keeps merges j = elim (Bool-cases (id =s= j)) [
    | inl e ↦
        subst
          (λ i.
            find (λ r. key r =v= text i) (upsert (λ r. key r =v= text id) merge (row a) rs)
            ≡ row_of row (get i (put id a ms)))
          ((eq_iff id j).0 e)
          (find-upsert_self (λ r. false) (λ r. key r =v= text id) merge (row a) rs
              (rw k (text_eq_self id)) (λ r h. rw (keeps r) h)
            ∙ ap some (rw (same id) (upserted_row row merge a (get id ms) merges))
            ∙ ap (row_of row) (sym (get-put_self id a ms)))
    | inr d ↦
        find-upsert (λ r. key r =v= text j) (λ r. key r =v= text id) merge (row a) rs
          (rw k (other_text (text id) id j d (text_eq_self id)))
          (λ r h. (other_text (key r) id j d h, rw (keeps r) (other_text (key r) id j d h)))
        ∙ same j
        ∙ ap (row_of row) (sym (rw (get-put, d) refl))
  ]

  -- `UPDATE … WHERE id=?` of a row that is there.
  pub Same-update :
      (a b : A) (f : R → R)
      → get id ms ≡ some b
      → ((r : R) → key (f r) ≡ key r)
      → f (row b) ≡ row a
      → Same key row (put id a ms) (update_where (λ r. key r =v= text id) f rs)
  Same-update a b f there keeps sets j = elim (Bool-cases (id =s= j)) [
    | inl e ↦
        subst
          (λ i.
            find (λ r. key r =v= text i) (update_where (λ r. key r =v= text id) f rs)
            ≡ row_of row (get i (put id a ms)))
          ((eq_iff id j).0 e)
          (find-update_self (λ r. false) (λ r. key r =v= text id) f rs (λ r h. rw (keeps r) h)
            ∙ rw (same id, there) (ap some sets)
            ∙ ap (row_of row) (sym (get-put_self id a ms)))
    | inr d ↦
        find-update (λ r. key r =v= text j) (λ r. key r =v= text id) f rs
          (λ r h. (other_text (key r) id j d h, rw (keeps r) (other_text (key r) id j d h)))
        ∙ same j
        ∙ ap (row_of row) (sym (rw (get-put, d) refl))
  ]

  -- `DELETE … WHERE id=?` is `delete(m, id)`.
  pub Same-delete : Same key row (delete id ms) (delete_where (λ r. key r =v= text id) rs)
  Same-delete j = elim (Bool-cases (id =s= j)) [
    | inl e ↦
        subst
          (λ i.
            find (λ r. key r =v= text i) (delete_where (λ r. key r =v= text id) rs)
            ≡ row_of row (get i (delete id ms)))
          ((eq_iff id j).0 e)
          (find-delete_self (λ r. key r =v= text id) (λ r. key r =v= text id) rs (λ r h. h)
            ∙ ap (row_of row) (sym (get-delete_self id ms)))
    | inr d ↦
        find-delete (λ r. key r =v= text j) (λ r. key r =v= text id) rs
          (λ r h. other_text (key r) id j d h)
        ∙ same j
        ∙ ap (row_of row) (sym (rw (get-delete, d) refl))
  ]

  -- An UPDATE by a test that only rows of this key pass.
  pub Same-update_narrow :
      (a b : A) (hits : R → Bool) (f : R → R)
      → ((r : R) → hits r ≡ true → (key r =v= text id) ≡ true)
      → get id ms ≡ some b
      → hits (row b) ≡ true
      → ((r : R) → key (f r) ≡ key r)
      → f (row b) ≡ row a
      → Same key row (put id a ms) (update_where hits f rs)
  Same-update_narrow a b hits f narrow there passes keeps sets j = elim (Bool-cases (id =s= j)) [
    | inl e ↦
        subst
          (λ i.
            find (λ r. key r =v= text i) (update_where hits f rs)
            ≡ row_of row (get i (put id a ms)))
          ((eq_iff id j).0 e)
          (find-update_narrow (λ r. key r =v= text id) hits narrow f rs (row b)
              (λ x. ap (λ v. v =v= text id) (keeps x)) (same id ∙ ap (row_of row) there) passes
            ∙ ap some sets
            ∙ ap (row_of row) (sym (get-put_self id a ms)))
    | inr d ↦
        find-update (λ r. key r =v= text j) hits f rs
          (λ r h. (
            other_text (key r) id j d (narrow r h),
            rw (keeps r) (other_text (key r) id j d (narrow r h)),
          ))
        ∙ same j
        ∙ ap (row_of row) (sym (rw (get-put, d) refl))
  ]
