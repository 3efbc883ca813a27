-- ===== src/Resolver.antt =====
-- internal/server/groups.go: the desired state that a machine's groups and overrides compute to, and
-- the Resolver that brings the stored state up to date. The errors of `Recompute` are the store's.
pub mod Names
pub mod Effective
pub mod Settled
pub mod Recompute
pub mod Repeated
use fleet_core.Prelude.{
  ◌+◌, String, Bool, true, false, ◌&&◌, ◌||◌, Option, none, some, List, [], ◌∷◌, if◌then◌else◌,
  ◌=s=◌,
}
use fleet_core.Prelude.Exec.{Result, Exec, pure, ◌>>=◌, ◌>>◌}
use fleet_core.GoMap.{GoMap, get, put, get_text, values}
use fleet_core.Sort.{sort_slice}
use fleet_core.Sort.Laws.{by_name}
use fleet_core.Api.{ModuleSpec, Machine, Group}
use fleet_core.Store.{StoreError}
use fleet_core.Store.Machines.{get_machine, list_machines, save_machine}
use fleet_core.Store.Groups.{list_groups, list_group_members}
use fleet_core.Server.{Server, on_store, publish}

-- `for k, v := range selector { if labels[k] != v { return false } }; return true`
unfoldable pub all_match : GoMap String → GoMap String → Bool
all_match [] labels = true
all_match ((k, v) ∷ selector) labels = (get_text k labels =s= v) && all_match selector labels

unfoldable pub selector_matches : GoMap String → GoMap String → Bool
unfolding all_match
selector_matches [] labels = false
selector_matches (e ∷ selector) labels = all_match (e ∷ selector) labels

-- groupID -> the machine IDs of its explicit members, each with the value `true`
abbrev pub Members : Type 0
Members = GoMap (GoMap Bool)

-- `members[g.ID][m.ID]`: false for a missing key of either map.
unfoldable pub is_member : Members → Group → Machine → Bool
is_member members g m = elim (get g.id members) [
  | none ↦ false
  | some set ↦ elim (get m.id set) [ none ↦ false | some b ↦ b ]
]

-- The test that `computeModules` negates to skip a group.
unfoldable pub applies : Members → Machine → Group → Bool
unfolding is_member selector_matches
applies members m g = g.match_all || is_member members g m || selector_matches g.selector m.labels

-- `for _, spec := range specs { eff[spec.Name] = spec }`
unfoldable pub put_specs : List ModuleSpec → GoMap ModuleSpec → GoMap ModuleSpec
put_specs [] eff = eff
put_specs (spec ∷ specs) eff = put_specs specs (put spec.name spec eff)

unfoldable pub put_groups : Members → Machine → List Group → GoMap ModuleSpec → GoMap ModuleSpec
put_groups members m [] eff = eff
put_groups members m (g ∷ gs) eff =
    put_groups members m gs (if applies members m g then put_specs g.modules eff else eff)

abbrev pub group_name : Group → String
group_name g = g.name

abbrev pub spec_name : ModuleSpec → String
spec_name s = s.name

-- The map `eff` when both loops are done.
unfoldable pub effective : Machine → List Group → Members → GoMap ModuleSpec
unfolding put_groups put_specs applies
effective m groups members =
    put_specs m.override (put_groups members m (sort_slice (by_name group_name) groups) [])

-- The sort of `groups` in place changes nothing for the next machine: it is sorted again.
unfoldable pub compute_modules : Machine → List Group → Members → List ModuleSpec
unfolding effective
compute_modules m groups members =
    sort_slice (by_name spec_name) (values (effective m groups members))

-- Equality of the JSON of two `map[string]string`, which lists the keys in order.
unfoldable pub same_entries : GoMap String → GoMap String → Bool
same_entries [] [] = true
same_entries ((j, v) ∷ a) ((k, w) ∷ b) = (j =s= k) && (v =s= w) && same_entries a b
same_entries _ _ = false

abbrev pub entry_key : String × String → String
entry_key e = e.0

-- A nil config and an empty one are both left out of the JSON.
unfoldable pub same_spec : ModuleSpec → ModuleSpec → Bool
unfolding same_entries
same_spec a b =
    (a.name =s= b.name)
    && (a.version =s= b.version)
    && same_entries (sort_slice (by_name entry_key) a.config)
        (sort_slice (by_name entry_key) b.config)

unfoldable pub same_specs : List ModuleSpec → List ModuleSpec → Bool
unfolding same_spec
same_specs [] [] = true
same_specs (a ∷ as') (b ∷ bs) = same_spec a b && same_specs as' bs
same_specs _ _ = false

-- `string(prev) == string(cur)` for the JSON of two slices: nil is `null`, not `[]`.
unfoldable pub same_json : Option (List ModuleSpec) → Option (List ModuleSpec) → Bool
unfolding same_specs
same_json none none = true
same_json (some a) (some b) = same_specs a b
same_json _ _ = false

-- The body of the last loop of `Recompute`, for one machine.
unfoldable pub settle_machine : List Group → Members → Machine → Exec Server StoreError (Unit {0})
settle_machine groups members m =
    let next = compute_modules m groups members in
    if same_json m.desired.modules (some next) then pure tt else do
      let m' = record m {
        desired = record { revision = m.desired.revision + 1; modules = some next };
      }
      on_store (save_machine m')
      publish m.id

unfoldable pub settle_all : List Group → Members → List Machine → Exec Server StoreError (Unit {0})
settle_all groups members [] = pure tt
settle_all groups members (m ∷ ms) = settle_machine groups members m >> settle_all groups members ms

-- `set[id] = true`
unfoldable pub member_set : List String → GoMap Bool
member_set [] = []
member_set (id ∷ ids) = put id true (member_set ids)

unfoldable pub load_members : List Group → Exec Server StoreError Members
unfolding member_set
load_members [] = pure []
load_members (g ∷ gs) = do
  ids ← on_store (list_group_members g.id)
  rest ← load_members gs
  pure (put g.id (member_set ids) rest)

unfoldable pub load_machines : List String → Exec Server StoreError (List Machine)
load_machines [] = pure []
load_machines (id ∷ ids) = do
  m ← on_store (get_machine id)
  rest ← load_machines ids
  pure (m ∷ rest)

-- All machines of the tenant where no machine is named.
unfoldable pub select_machines : String → List String → Exec Server StoreError (List Machine)
unfolding load_machines
select_machines tenant [] = on_store (list_machines tenant)
select_machines tenant (id ∷ ids) = load_machines (id ∷ ids)

unfoldable pub recompute : String → List String → Exec Server StoreError (Unit {0})
unfolding load_members select_machines settle_all settle_machine
recompute tenant machine_ids = do
  groups ← on_store (list_groups tenant)
  members ← load_members groups
  machines ← select_machines tenant machine_ids
  settle_all groups members machines
