-- ===== src/Resolver/Effective.antt =====
-- What `computeModules` computes: the last spec of each name among those that the machine's groups,
-- in the order of their names, and then its overrides give.
use fleet_core.Prelude.{
  String, ◌≡◌, refl, sym, ap, ap₂, ◌∙◌, inl, inr, false, Option, none, some, List, [], ◌∷◌, ◌++◌,
  map, arith, if◌then◌else◌, Bool-cases, or_else, All, ◌=s=◌, ◌<s◌, <s_connex,
}
use mathlib.Core.List.{Permᴰ, Pairwise, Mem, not-mem-nil, eq-or-mem_of_mem-cons}
use mathlib.Core.Logic.Or
use fleet_core.GoMap.{GoMap, get, put, keys, values}
use fleet_core.GoMap.Laws.{Distinct, get-put, put-Distinct}
use fleet_core.Sort.{sort_slice}
use fleet_core.Sort.Laws.{by_name, by_name-StrictWeak, Apart, sort_slice-eq_of_perm}
use fleet_core.Api.{ModuleSpec, Machine, Group}
use fleet_core.Resolver.{
  Members, applies, put_specs, put_groups, group_name, spec_name, effective, compute_modules,
}
use fleet_core.Resolver.Names.{
  find_spec, last_spec, Ascending, names, find-sort, sort-Ascending, Ascending-ext,
}

-- The specs of the groups that apply, in the order of the list.
unfoldable pub contributed : Members → Machine → List Group → List ModuleSpec
contributed members m [] = []
contributed members m (g ∷ gs) =
    (if applies members m g then g.modules else []) ++ contributed members m gs

-- All specs that a machine is given, later ones over earlier ones.
unfoldable pub given : Machine → List Group → Members → List ModuleSpec
given m groups members =
    contributed members m (sort_slice (by_name group_name) groups) ++ m.override

or_else_assoc : (a b c : Option ModuleSpec) → or_else a (or_else b c) ≡ or_else (or_else a b) c
or_else_assoc none b c = refl
or_else_assoc (some x) b c = refl

or_else-none : (a : Option ModuleSpec) → or_else a none ≡ a
or_else-none none = refl
or_else-none (some x) = refl

get-nil : (n : String) → get {V = ModuleSpec} n [] ≡ none
unfolding get
get-nil n = refl

last_spec-append :
    (n : String) (as' bs : List ModuleSpec)
    → last_spec n (as' ++ bs) ≡ or_else (last_spec n bs) (last_spec n as')
unfolding last_spec
last_spec-append n [] bs = ground arith
last_spec-append n (a ∷ as') bs = ground (arith, last_spec-append n as' bs)

get-put_specs :
    (n : String) (specs : List ModuleSpec) (eff : GoMap ModuleSpec)
    → get n (put_specs specs eff) ≡ or_else (last_spec n specs) (get n eff)
unfolding put_specs last_spec
get-put_specs n [] eff = refl
get-put_specs n (s ∷ ss) eff =
    ground (arith, get-put_specs n ss (put s.name s eff), get-put s.name n s eff)

get-put_groups :
    (n : String) (members : Members) (m : Machine) (gs : List Group) (eff : GoMap ModuleSpec)
    → get n (put_groups members m gs eff)
      ≡ or_else (last_spec n (contributed members m gs)) (get n eff)
unfolding put_groups contributed last_spec
get-put_groups n members m [] eff = refl
get-put_groups n members m (g ∷ gs) eff = elim (Bool-cases (applies members m g)) [
  | inl e ↦ rw e (
      rw (get-put_groups n members m gs (put_specs g.modules eff), get-put_specs n g.modules eff)
        (rw last_spec-append (
          or_else_assoc (last_spec n (contributed members m gs)) (last_spec n g.modules)
            (get n eff))))
  | inr e ↦ rw e (get-put_groups n members m gs eff)
]

-- Each spec stands under its name, and no name stands twice.
abbrev IsTidy : GoMap ModuleSpec → Type 0
IsTidy eff = All (λ (e : String × ModuleSpec). e.1.name ≡ e.0) eff × Distinct (keys eff)

named-put :
    (s : ModuleSpec) (eff : GoMap ModuleSpec)
    → All (λ (e : String × ModuleSpec). e.1.name ≡ e.0) eff
    → All (λ (e : String × ModuleSpec). e.1.name ≡ e.0) (put s.name s eff)
unfolding put
named-put s [] h = (refl, tt)
named-put s ((k, t) ∷ eff) h = ground (arith, named-put s eff h.1)

put_specs-IsTidy :
    (specs : List ModuleSpec) (eff : GoMap ModuleSpec) → IsTidy eff → IsTidy (put_specs specs eff)
unfolding put_specs
put_specs-IsTidy [] eff h = h
put_specs-IsTidy (s ∷ ss) eff h =
    put_specs-IsTidy ss (put s.name s eff) (named-put s eff h.0, put-Distinct s.name s eff h.1)

put_groups-IsTidy :
    (members : Members) (m : Machine) (gs : List Group) (eff : GoMap ModuleSpec)
    → IsTidy eff
    → IsTidy (put_groups members m gs eff)
unfolding put_groups
put_groups-IsTidy members m [] eff h = h
put_groups-IsTidy members m (g ∷ gs) eff h = elim (Bool-cases (applies members m g)) [
  | inl e ↦
      rw e (
        put_groups-IsTidy members m gs (put_specs g.modules eff) (put_specs-IsTidy g.modules eff h))
  | inr e ↦ rw e (put_groups-IsTidy members m gs eff h)
]

effective-IsTidy :
    (m : Machine) (groups : List Group) (members : Members) → IsTidy (effective m groups members)
unfolding effective
effective-IsTidy m groups members =
    put_specs-IsTidy m.override _
      (put_groups-IsTidy members m (sort_slice (by_name group_name) groups) [] (tt, tt))

find-values :
    (n : String) (eff : GoMap ModuleSpec)
    → All (λ (e : String × ModuleSpec). e.1.name ≡ e.0) eff
    → find_spec n (values eff) ≡ get n eff
unfolding find_spec get
find-values n [] h = refl
find-values n ((k, s) ∷ eff) h =
    ap₂ (λ j r. if j =s= n then some s else r) h.0 (find-values n eff h.1)

names-values :
    (eff : GoMap ModuleSpec)
    → All (λ (e : String × ModuleSpec). e.1.name ≡ e.0) eff
    → names (values eff) ≡ keys eff
names-values [] h = refl
names-values ((k, s) ∷ eff) h = ap₂ ◌∷◌ h.0 (names-values eff h.1)

values-Distinct : (eff : GoMap ModuleSpec) → IsTidy eff → Distinct (names (values eff))
values-Distinct eff h = rw (names-values eff h.0) h.1

-- The desired modules stand in strictly rising order of their names, one for each name.
pub compute_modules-Ascending :
    (m : Machine) (groups : List Group) (members : Members)
    → Ascending (compute_modules m groups members)
unfolding compute_modules
compute_modules-Ascending m groups members =
    sort-Ascending (values (effective m groups members))
      (values-Distinct (effective m groups members) (effective-IsTidy m groups members))

get-effective :
    (n : String) (m : Machine) (groups : List Group) (members : Members)
    → get n (effective m groups members) ≡ last_spec n (given m groups members)
unfolding effective given
get-effective n m groups members =
    let gs = sort_slice (by_name group_name) groups in
    rw (get-put_specs n m.override (put_groups members m gs []), get-put_groups n members m gs [])
      (rw (last_spec-append, get-nil n, or_else-none))

-- A module is desired exactly if an override or an applying group names it, in the version and with
-- the config that the last of these gives: overrides win over groups, and later group names over earlier.
pub find-compute_modules :
    (n : String) (m : Machine) (groups : List Group) (members : Members)
    → find_spec n (compute_modules m groups members) ≡ last_spec n (given m groups members)
unfolding compute_modules
find-compute_modules n m groups members =
    let eff = effective m groups members in
    let tidy = effective-IsTidy m groups members in
    find-sort n (values eff) (values-Distinct eff tidy)
    ∙ find-values n eff tidy.0
    ∙ get-effective n m groups members

-- No other list in rising order gives each name its last spec.
pub compute_modules_unique :
    (m : Machine) (groups : List Group) (members : Members) (l : List ModuleSpec)
    → Ascending l
    → ((n : String) → find_spec n l ≡ last_spec n (given m groups members))
    → l ≡ compute_modules m groups members
compute_modules_unique m groups members l a h =
    Ascending-ext l (compute_modules m groups members) a
      (compute_modules-Ascending m groups members)
      (λ n. h n ∙ sym (find-compute_modules n m groups members))

module _ {A : Type 0} (name : A → String) where
  Apart-of_ne : (x y : A) → (name x =s= name y) ≡ false → Apart (by_name name) x y
  Apart-of_ne x y h = elim (Bool-cases (name y <s name x)) [
    | inl e ↦ ground arith
    | inr e ↦ ground (arith, <s_connex (name x) (name y) h e)
  ]

  Apart-from_All :
      (x y : A) (ys : List A)
      → All (λ j. (name x =s= j) ≡ false) (map name ys)
      → Mem y ys
      → Apart (by_name name) x y
  Apart-from_All x y [] h m = absurd (not-mem-nil m)
  Apart-from_All x y (z ∷ ys) h m =
      Or.elim (hlevel) (eq-or-mem_of_mem-cons m) (λ e. rw e (Apart-of_ne x z h.0))
        (Apart-from_All x y ys h.1)

  Pairwise-Apart : (xs : List A) → Distinct (map name xs) → Pairwise (Apart (by_name name)) xs
  Pairwise-Apart [] h = Pairwise.nil
  Pairwise-Apart (x ∷ xs) h = Pairwise.cons (λ y. Apart-from_All x y xs h.0) (Pairwise-Apart xs h.1)

-- Where the tenant's groups have different names, neither the order in which the store lists them
-- nor the order in which Go visits the map of effective modules changes the desired modules.
pub compute_modules_deterministic :
    (m : Machine) (groups groups' : List Group) (members : Members) (specs : List ModuleSpec)
    → Distinct (map group_name groups)
    → Permᴰ groups groups'
    → Permᴰ (values (effective m groups' members)) specs
    → sort_slice (by_name spec_name) specs ≡ compute_modules m groups members
unfolding compute_modules effective
compute_modules_deterministic m groups groups' members specs d p q =
    let apart = Pairwise-Apart spec_name (values (effective m groups' members)) in
    sym (
      sort_slice-eq_of_perm (by_name spec_name) (by_name-StrictWeak spec_name) q
        (apart (values-Distinct _ (effective-IsTidy m groups' members))))
    ∙ sym (
        ap
          (λ gs.
            sort_slice (by_name spec_name)
              (values (put_specs m.override (put_groups members m gs []))))
          (sort_slice-eq_of_perm (by_name group_name) (by_name-StrictWeak group_name) p
            (Pairwise-Apart group_name groups d)))
