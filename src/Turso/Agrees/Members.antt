-- ===== src/Turso/Agrees/Members.antt =====
-- internal/store/turso.go: the table of members against the FileStore's map of sets.
use fleet_core.Prelude.{
  String, ◌≡◌, refl, sym, ap, ◌∙◌, true, false, ◌&&◌, none, some, List, [], ◌∷◌, arith,
  if◌then◌else◌, Bool-cases, inl, inr, ◌=s=◌, eq_iff, eq_refl,
}
use fleet_core.GoMap.{GoMap, get, put, delete}
use fleet_core.GoMap.Laws.{get-put, get-delete}
use fleet_core.Store.Machines.{forget_member}
use fleet_core.Store.Groups.{members_of, remove_member}
use fleet_core.Turso.{text, ◌=v=◌}
use fleet_core.Turso.Table.{find, upsert, delete_where}
use fleet_core.Turso.Table.Laws.{find-upsert_self, find-upsert, find-delete_self, find-delete}
use fleet_core.Turso.Tables.{MemberRow}
use fleet_core.Turso.Groups.{is_member}
use fleet_core.Turso.Same.{row_of, text_of_eq, other_text, upserted_row}
use fleet_core.Turso.Agrees.{member_row}

abbrev Members : Type 0
Members = GoMap (GoMap (Unit {0}))

-- Whether a machine is a member, after each change of the map.
members-add :
    (g m i n : String) (ms : Members)
    → get n (members_of i (put g (put m tt (members_of g ms)) ms))
      ≡ (if (g =s= i) && (m =s= n) then some tt else get n (members_of i ms))
members-add g m i n ms = ground (
  arith,
  get-put g i (put m tt (members_of g ms)) ms,
  get-put m n tt (members_of g ms),
  eq_iff g i,
  eq_iff m n,
)

members-remove :
    (g m i n : String) (ms : Members)
    → get n (members_of i (remove_member g m ms))
      ≡ (if (g =s= i) && (m =s= n) then none else get n (members_of i ms))
unfolding get remove_member
members-remove g m i n ms = ground (
  arith,
  get-put g i (delete m (members_of g ms)) ms,
  get-delete m n (members_of g ms),
  eq_iff g i,
  eq_iff m n,
)

members-delete :
    (g i n : String) (ms : Members)
    → get n (members_of i (delete g ms)) ≡ (if g =s= i then none else get n (members_of i ms))
unfolding get
members-delete g i n ms = ground (arith, get-delete g i ms)

members-forget :
    (m i n : String) (ms : Members)
    → get n (members_of i (forget_member m ms))
      ≡ (if m =s= n then none else get n (members_of i ms))
unfolding get forget_member
members-forget m i n [] = ground arith
members-forget m i n ((g, set) ∷ ms) = ground (arith, get-delete m n set, members-forget m i n ms)

abbrev pub SameMembers : Members → List MemberRow → Type 0
SameMembers ms rs =
    (g m : String)
    → find (is_member (text g) (text m)) rs ≡ row_of (λ _. member_row g m) (get m (members_of g ms))

member_of_eq :
    (g m : String) (r : MemberRow) → is_member (text g) (text m) r ≡ true → r ≡ member_row g m
member_of_eq g m r h = ground (arith, text_of_eq r.group_id g, text_of_eq r.machine_id m)

-- The row of a member is no other member.
is_member_row :
    (g m i n : String) → is_member (text i) (text n) (member_row g m) ≡ (g =s= i) && (m =s= n)
unfolding ◌=v=◌
is_member_row g m i n = refl

other_member :
    (g m i n : String) (r : MemberRow)
    → ((g =s= i) && (m =s= n)) ≡ false
    → is_member (text g) (text m) r ≡ true
    → is_member (text i) (text n) r ≡ false
other_member g m i n r d h = rw (member_of_eq g m r h) (is_member_row g m i n ∙ d)

both_eq : (g i m n : String) → ((g =s= i) && (m =s= n)) ≡ true → (g ≡ i) × (m ≡ n)
both_eq g i m n h = ground (arith, eq_iff g i, eq_iff m n)

self : (g m : String) → ((g =s= g) && (m =s= m)) ≡ true
self g m = rw (eq_refl g, eq_refl m) refl

module _ (ms : Members) (rs : List MemberRow) (same : SameMembers ms rs) where
  pub SameMembers-add :
      (g m : String)
      → SameMembers
          (put g (put m tt (members_of g ms)) ms)
          (upsert (is_member (text g) (text m)) (λ r. r) (member_row g m) rs)
  SameMembers-add g m i n = elim (Bool-cases ((g =s= i) && (m =s= n))) [
    | inl e ↦
        let (eg, em) = both_eq g i m n e in
        rw (← eg, ← em)
          (find-upsert_self (λ r. false) (is_member (text g) (text m)) (λ r. r) (member_row g m) rs
              (is_member_row g m g m ∙ self g m) (λ r h. h)
            ∙ ap some (
                rw (same g m) (
                  upserted_row (λ _. member_row g m) (λ r. r) tt (get m (members_of g ms))
                    (λ b h. refl)))
            ∙ ap (row_of (λ _. member_row g m)) (
                sym (
                  members-add g m g m ms
                  ∙ ap (λ b. if b then some tt else get m (members_of g ms)) (self g m))))
    | inr d ↦
        find-upsert (is_member (text i) (text n)) (is_member (text g) (text m)) (λ r. r)
          (member_row g m) rs (is_member_row g m i n ∙ d)
          (λ r h. (other_member g m i n r d h, other_member g m i n r d h))
        ∙ same i n
        ∙ ap (row_of (λ _. member_row i n)) (sym (members-add g m i n ms ∙ rw d refl))
  ]

  pub SameMembers-remove :
      (g m : String)
      → SameMembers (remove_member g m ms) (delete_where (is_member (text g) (text m)) rs)
  SameMembers-remove g m i n = elim (Bool-cases ((g =s= i) && (m =s= n))) [
    | inl e ↦
        find-delete_self (is_member (text i) (text n)) (is_member (text g) (text m)) rs
          (λ r h. rw ((both_eq g i m n e).0, (both_eq g i m n e).1) h)
        ∙ ap (row_of (λ _. member_row i n)) (
            sym
              (members-remove g m i n ms ∙ ap (λ b. if b then none else get n (members_of i ms)) e))
    | inr d ↦
        find-delete (is_member (text i) (text n)) (is_member (text g) (text m)) rs
          (λ r h. other_member g m i n r d h)
        ∙ same i n
        ∙ ap (row_of (λ _. member_row i n)) (sym (members-remove g m i n ms ∙ rw d refl))
  ]

  pub SameMembers-delete_group :
      (g : String) → SameMembers (delete g ms) (delete_where (λ r. r.group_id =v= text g) rs)
  SameMembers-delete_group g i n = elim (Bool-cases (g =s= i)) [
    | inl e ↦
        find-delete_self (is_member (text i) (text n)) (λ r. r.group_id =v= text g) rs
          (λ r h. rw ((eq_iff g i).0 e) (ground arith))
        ∙ ap (row_of (λ _. member_row i n)) (
            sym (members-delete g i n ms ∙ ap (λ b. if b then none else get n (members_of i ms)) e))
    | inr d ↦
        find-delete (is_member (text i) (text n)) (λ r. r.group_id =v= text g) rs
          (λ r h. ground (arith, other_text r.group_id g i d h))
        ∙ same i n
        ∙ ap (row_of (λ _. member_row i n)) (sym (members-delete g i n ms ∙ rw d refl))
  ]

  pub SameMembers-delete_machine :
      (m : String)
      → SameMembers (forget_member m ms) (delete_where (λ r. r.machine_id =v= text m) rs)
  SameMembers-delete_machine m i n = elim (Bool-cases (m =s= n)) [
    | inl e ↦
        find-delete_self (is_member (text i) (text n)) (λ r. r.machine_id =v= text m) rs
          (λ r h. rw ((eq_iff m n).0 e) (ground arith))
        ∙ ap (row_of (λ _. member_row i n)) (
            sym (members-forget m i n ms ∙ ap (λ b. if b then none else get n (members_of i ms)) e))
    | inr d ↦
        find-delete (is_member (text i) (text n)) (λ r. r.machine_id =v= text m) rs
          (λ r h. ground (arith, other_text r.machine_id m n d h))
        ∙ same i n
        ∙ ap (row_of (λ _. member_row i n)) (sym (members-forget m i n ms ∙ rw d refl))
  ]
