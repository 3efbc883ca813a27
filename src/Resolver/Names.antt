-- ===== src/Resolver/Names.antt =====
-- Lists of module specs with at most one spec for each name, in the order of the names.
use fleet_core.Prelude.{
  String, ◌≡◌, refl, sym, ap, ap₂, ◌∙◌, subst, inl, inr, true, false, Option, none, some, List, [],
  ◌∷◌, map, arith, if◌then◌else◌, Bool-cases, or_else, All, ◌=s=◌, ◌<s◌, eq_iff, eq_refl, <s_irrefl,
  <s_trans, <s_total, <s_connex,
}
use fleet_core.GoMap.Laws.{Distinct}
use fleet_core.Sort.{insert_sorted, sort_slice}
use fleet_core.Sort.Laws.{by_name}
use fleet_core.Api.{ModuleSpec}
use fleet_core.Resolver.{spec_name}

-- The first spec of a name.
unfoldable pub find_spec : String → List ModuleSpec → Option ModuleSpec
find_spec n [] = none
find_spec n (s ∷ ss) = if s.name =s= n then some s else find_spec n ss

-- The last spec of a name.
unfoldable pub last_spec : String → List ModuleSpec → Option ModuleSpec
last_spec n [] = none
last_spec n (s ∷ ss) = or_else (last_spec n ss) (if s.name =s= n then some s else none)

-- Names rise strictly, so no name occurs twice.
abbrev pub Ascending : List ModuleSpec → Type 0
Ascending [] = Unit
Ascending (s ∷ ss) = All (λ (t : ModuleSpec). (s.name <s t.name) ≡ true) ss × Ascending ss

abbrev pub names : List ModuleSpec → List String
names = map spec_name

abbrev IsNew : ModuleSpec → List ModuleSpec → Type 0
IsNew s ss = All (λ j. (s.name =s= j) ≡ false) (names ss)

find-insert :
    (n : String) (s : ModuleSpec) (ss : List ModuleSpec)
    → IsNew s ss
    → find_spec n (insert_sorted (by_name spec_name) s ss) ≡ find_spec n (s ∷ ss)
unfolding find_spec insert_sorted
find-insert n s [] h = refl
find-insert n s (t ∷ ss) h =
    ground (arith, find-insert n s ss h.1, eq_iff s.name n, eq_iff t.name n, eq_iff s.name t.name)

IsNew-insert :
    (u s : ModuleSpec) (ss : List ModuleSpec)
    → (u.name =s= s.name) ≡ false
    → IsNew u ss
    → IsNew u (insert_sorted (by_name spec_name) s ss)
unfolding insert_sorted
IsNew-insert u s [] e h = (e, tt)
IsNew-insert u s (t ∷ ss) e h = ground (arith, IsNew-insert u s ss e h.1)

IsNew-sort :
    (u : ModuleSpec) (ss : List ModuleSpec)
    → IsNew u ss
    → IsNew u (sort_slice (by_name spec_name) ss)
unfolding sort_slice
IsNew-sort u [] h = tt
IsNew-sort u (s ∷ ss) h =
    IsNew-insert u s (sort_slice (by_name spec_name) ss) h.0 (IsNew-sort u ss h.1)

-- Sorting does not change which spec a name has.
pub find-sort :
    (n : String) (ss : List ModuleSpec)
    → Distinct (names ss)
    → find_spec n (sort_slice (by_name spec_name) ss) ≡ find_spec n ss
unfolding find_spec sort_slice
find-sort n [] h = refl
find-sort n (s ∷ ss) h =
    find-insert n s (sort_slice (by_name spec_name) ss) (IsNew-sort s ss h.0)
    ∙ ap (λ r. if s.name =s= n then some s else r) (find-sort n ss h.1)

abbrev IsBelow : ModuleSpec → List ModuleSpec → Type 0
IsBelow s = All (λ (t : ModuleSpec). (s.name <s t.name) ≡ true)

IsBelow-insert :
    (u s : ModuleSpec) (ss : List ModuleSpec)
    → (u.name <s s.name) ≡ true
    → IsBelow u ss
    → IsBelow u (insert_sorted (by_name spec_name) s ss)
unfolding insert_sorted
IsBelow-insert u s [] e h = (e, tt)
IsBelow-insert u s (t ∷ ss) e h = ground (arith, IsBelow-insert u s ss e h.1)

IsBelow-trans :
    (s t : ModuleSpec) (ss : List ModuleSpec)
    → (s.name <s t.name) ≡ true
    → IsBelow t ss
    → IsBelow s ss
IsBelow-trans s t [] e h = tt
IsBelow-trans s t (u ∷ ss) e h = (<s_trans s.name t.name u.name e h.0, IsBelow-trans s t ss e h.1)

insert-Ascending :
    (s : ModuleSpec) (ss : List ModuleSpec)
    → IsNew s ss
    → Ascending ss
    → Ascending (insert_sorted (by_name spec_name) s ss)
unfolding insert_sorted
insert-Ascending s [] h a = (tt, tt)
insert-Ascending s (t ∷ ss) h a = elim (Bool-cases (t.name <s s.name)) [
  | inl e ↦ rw e (IsBelow-insert t s ss e a.0, insert-Ascending s ss h.1 a.1)
  | inr e ↦
      let below : (s.name <s t.name) ≡ true = <s_connex s.name t.name h.0 e in
      rw e ((below, IsBelow-trans s t ss below a.0), a)
]

-- Specs of different names sort into strictly rising names.
pub sort-Ascending :
    (ss : List ModuleSpec) → Distinct (names ss) → Ascending (sort_slice (by_name spec_name) ss)
unfolding sort_slice
sort-Ascending [] h = tt
sort-Ascending (s ∷ ss) h =
    insert-Ascending s (sort_slice (by_name spec_name) ss) (IsNew-sort s ss h.0)
      (sort-Ascending ss h.1)

find-below : (s : ModuleSpec) (ss : List ModuleSpec) → IsBelow s ss → find_spec s.name ss ≡ none
unfolding find_spec
find-below s [] h = refl
find-below s (t ∷ ss) h =
    ground (arith, find-below s ss h.1, eq_iff t.name s.name, <s_irrefl s.name)

find_head : (s : ModuleSpec) (ss : List ModuleSpec) → find_spec s.name (s ∷ ss) ≡ some s
unfolding find_spec
find_head s ss = rw (eq_refl s.name)

find_lower :
    (n : String) (s : ModuleSpec) (ss : List ModuleSpec)
    → (n <s s.name) ≡ true
    → IsBelow s ss
    → find_spec n (s ∷ ss) ≡ none
unfolding find_spec
find_lower n s [] e h = ground (arith, eq_iff s.name n, <s_irrefl n)
find_lower n s (t ∷ ss) e h =
    ground
      (arith, find_lower n s ss e h.1, <s_trans n s.name t.name e h.0, eq_iff t.name n, <s_irrefl n)

abbrev pub SameSpecs : List ModuleSpec → List ModuleSpec → Type 0
SameSpecs as' bs = (n : String) → find_spec n as' ≡ find_spec n bs

heads_ne_lt :
    (x y : ModuleSpec) (xs ys : List ModuleSpec)
    → IsBelow y ys
    → SameSpecs (x ∷ xs) (y ∷ ys)
    → (x.name <s y.name) ≡ false
heads_ne_lt x y xs ys b h = elim (Bool-cases (x.name <s y.name)) [
  | inl e ↦ absurd (cc (h x.name, find_head x xs, find_lower x.name y ys e b))
  | inr e ↦ e
]

heads_eq :
    (x y : ModuleSpec) (xs ys : List ModuleSpec)
    → IsBelow x xs
    → IsBelow y ys
    → SameSpecs (x ∷ xs) (y ∷ ys)
    → x ≡ y
heads_eq x y xs ys a b h =
    let e : x.name ≡ y.name =
      <s_total x.name y.name (heads_ne_lt x y xs ys b h)
        (heads_ne_lt y x ys xs a (λ n. sym (h n))) in
    let f : some x ≡ some y =
      sym (find_head x xs) ∙ h x.name ∙ ap (λ n. find_spec n (y ∷ ys)) e ∙ find_head y ys in
    cc

tails_same :
    (x : ModuleSpec) (xs ys : List ModuleSpec)
    → IsBelow x xs
    → IsBelow x ys
    → SameSpecs (x ∷ xs) (x ∷ ys)
    → SameSpecs xs ys
unfolding find_spec
tails_same x xs ys a b h n =
    ground (arith, h n, eq_iff x.name n, find-below x xs a, find-below x ys b)

find_nil : (n : String) → find_spec n [] ≡ none
unfolding find_spec
find_nil n = refl

-- Two such lists that give each name the same spec are one list.
pub Ascending-ext :
    (as' bs : List ModuleSpec) → Ascending as' → Ascending bs → SameSpecs as' bs → as' ≡ bs
Ascending-ext [] [] a b h = refl
Ascending-ext [] (y ∷ ys) a b h = absurd (cc (h y.name, find_head y ys, find_nil y.name))
Ascending-ext (x ∷ xs) [] a b h = absurd (cc (h x.name, find_head x xs, find_nil x.name))
Ascending-ext (x ∷ xs) (y ∷ ys) a b h =
    let e = heads_eq x y xs ys a.0 b.0 h in
    ap₂ ◌∷◌ e (
      Ascending-ext xs ys a.1 b.1
        (tails_same x xs ys a.0 (rw e b.0) (subst (λ z. SameSpecs (x ∷ xs) (z ∷ ys)) (sym e) h)))
