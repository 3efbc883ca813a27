-- ===== src/Resolver/Repeated.antt =====
-- internal/server/groups.go: `Recompute` called twice, where the store lists its groups in another order the
-- second time, as a range over a Go map may.
use mathlib.Core.List.{Permᴰ}
use mathlib.Core.List.Permᴰ
use fleet_core.Prelude.{
  ◌+◌, false, String, ◌≡◌, refl, sym, ap, ap₂, ◌∙◌, inl, inr, Bool, ◌||◌, none, some, List, [], ◌∷◌,
  map, Bool-cases, All, if◌then◌else◌, ◌=s=◌, eq_iff, eq_refl,
}
use fleet_core.Prelude.Exec.{ok}
use fleet_core.Prelude.Filters.{All-both, All-map_lem, All-perm, keep_if-perm}
use fleet_core.GoMap.{GoMap, get, put, values}
use fleet_core.GoMap.Laws.{Distinct, get-put}
use fleet_core.Sort.{sort_slice}
use fleet_core.Sort.Laws.{by_name, All-sort}
use fleet_core.Api.{Machine, Group, ModuleSpec}
use fleet_core.Store.Groups.{members_of}
use fleet_core.Store.Writes.Keyed.{Keyed}
use fleet_core.Server.{Server}
use fleet_core.Resolver.{
  same_json, Members, group_name, spec_name, applies, put_groups, put_specs, effective,
  compute_modules, member_set, selector_matches, settle_all, recompute,
}
use fleet_core.Resolver.Effective.{compute_modules_deterministic}
use fleet_core.Resolver.Settled.{settle, settle_all_settled}
use fleet_core.Resolver.Recompute.{
  members_table, groups_of, now_groups, now_members, selected, recompute-Settles,
}

abbrev ListedIn : Members → Members → List Group → Type 0
ListedIn members members' = All (λ g. get g.id members ≡ get g.id members')

applies-same :
    (members members' : Members) (m : Machine) (g : Group)
    → get g.id members ≡ get g.id members'
    → applies members m g ≡ applies members' m g
unfolding applies
applies-same members members' m g e =
    ap
      (λ o.
        g.match_all
        || (elim o as (λ x. Bool) [
          | none ↦ false
          | some set ↦ elim (get m.id set) as (λ x. Bool) [ none ↦ false | some b ↦ b ]
        ])
        || selector_matches g.selector m.labels)
      e

put_groups-same :
    (members members' : Members) (m : Machine) (gs : List Group) (eff : GoMap ModuleSpec)
    → ListedIn members members' gs
    → put_groups members m gs eff ≡ put_groups members' m gs eff
unfolding put_groups
put_groups-same members members' m [] eff h = refl
put_groups-same members members' m (g ∷ gs) eff h =
    ap (λ b. put_groups members m gs (if b then put_specs g.modules eff else eff))
      (applies-same members members' m g h.0)
    ∙ put_groups-same members members' m gs _ h.1

-- Neither the order of groups of different names nor that of the tables of their members matters.
compute_modules-same :
    (m : Machine) (groups groups' : List Group) (members members' : Members)
    → Distinct (map group_name groups)
    → Permᴰ groups groups'
    → ListedIn members members' groups'
    → compute_modules m groups members ≡ compute_modules m groups' members'
unfolding compute_modules effective
compute_modules-same m groups groups' members members' d p h =
    sym (
      compute_modules_deterministic m groups groups' members (values (effective m groups' members))
        d p (Permᴰ.refl _))
    ∙ ap (λ eff. sort_slice (by_name spec_name) (values (put_specs m.override eff)))
        (put_groups-same members members' m (sort_slice (by_name group_name) groups') []
          (All-sort (by_name group_name) _ groups' h))

settle-same :
    (groups groups' : List Group) (members members' : Members)
    → Distinct (map group_name groups)
    → Permᴰ groups groups'
    → ListedIn members members' groups'
    → (ms : List Machine) → map (settle groups members) ms ≡ map (settle groups' members') ms
unfolding settle
settle-same groups groups' members members' d p h [] = refl
settle-same groups groups' members members' d p h (m ∷ ms) =
    ap₂ ◌∷◌
      (ap
        (λ next. if same_json m.desired.modules (some next) then m else record m {
          desired = record { revision = m.desired.revision + 1; modules = some next };
        })
        (compute_modules-same m groups groups' members members' d p h))
      (settle-same groups groups' members members' d p h ms)

-- A map whose value at each key is that of one function.
put-found :
    {V : Type 0} (f : String → V) (k id : String) (t : GoMap V)
    → get id t ≡ some (f id)
    → get id (put k (f k) t) ≡ some (f id)
put-found f k id t e = elim (Bool-cases (k =s= id)) [
  | inl same ↦ get-put k id (f k) t ∙ rw same (ap (λ i. some (f i)) ((eq_iff k id).0 same))
  | inr other ↦ get-put k id (f k) t ∙ rw other e
]

abbrev members_set : GoMap (GoMap (Unit {0})) → String → GoMap Bool
members_set ms id = member_set (map (λ e. e.0) (members_of id ms))

members_table-found :
    (ms : GoMap (GoMap (Unit {0}))) (gs : List Group)
    → All (λ g. get g.id (members_table ms gs) ≡ some (members_set ms g.id)) gs
unfolding members_table
members_table-found ms [] = tt
members_table-found ms (g ∷ gs) = (
  get-put g.id g.id (members_set ms g.id) (members_table ms gs) ∙ rw (eq_refl g.id) refl,
  All-map_lem gs (λ x e. put-found (members_set ms) g.id x.id (members_table ms gs) e)
      (members_table-found ms gs),
)

members_table-listed :
    (ms : GoMap (GoMap (Unit {0}))) (groups groups' : List Group)
    → Permᴰ groups groups'
    → ListedIn (members_table ms groups) (members_table ms groups') groups'
members_table-listed ms groups groups' p =
    All-map_lem groups' (λ g e. e.0 ∙ sym e.1)
      (All-both _ _ groups' (All-perm _ p (members_table-found ms groups))
        (members_table-found ms groups'))

-- The store with its groups in another order.
abbrev pub relisted : GoMap Group → Server → Server
relisted gs s = record s {
  store = record s.store { contents = record s.store.contents { groups = gs } };
}

groups_of-perm :
    (tenant : String) {gs gs' : GoMap Group}
    → Permᴰ gs gs'
    → Permᴰ (groups_of tenant gs) (groups_of tenant gs')
unfolding groups_of
groups_of-perm tenant p = keep_if-perm _ (Permᴰ.map (λ e. e.1) p)

-- Where the tenant's groups have different names, a call that succeeds settles the machines for good: to
-- repeat it changes nothing, writes nothing and wakes nobody, in whatever order the store then lists its
-- groups.
pub recompute_idem :
    (tenant id : String) (ids : List String) (s : Server) (gs : GoMap Group)
    → Keyed (λ (m : Machine). m.id) s.store.contents.machines
    → Distinct (map group_name (groups_of tenant s.store.contents.groups))
    → Permᴰ s.store.contents.groups gs
    → (recompute tenant (id ∷ ids) s).0 ≡ ok tt
    → let s' = relisted gs (recompute tenant (id ∷ ids) s).1 in
      recompute tenant (id ∷ ids) s' ≡ (ok tt, s')
recompute_idem tenant id ids s gs k d p e =
    let s' = relisted gs (recompute tenant (id ∷ ids) s).1 in
    let (ms, r) = recompute-Settles tenant id ids s k e in
    let groups = now_groups tenant id ids s in
    let groups' = groups_of tenant gs in
    let held = s.store.contents.members in
    let same = groups_of-perm tenant p in
    let settled = map (settle groups (now_members tenant id ids s)) ms in
    selected tenant id ids s' settled r.settled
    ∙ ap (λ mt. settle_all groups' (members_table mt groups') settled s') r.members_same
    ∙ ap (λ l. settle_all groups' (members_table held groups') l s')
        (settle-same groups groups' (members_table held groups) (members_table held groups') d same
          (members_table-listed held groups groups' same) ms)
    ∙ settle_all_settled groups' (members_table held groups') ms s'
