-- ===== src/Admin/Listings.antt =====
-- internal/server/commands.go: the two listings, of all commands and of a machine's groups. `decode`
-- is the conversion of bytes to a string.
use fleet_core.Prelude.{
  ℕ, String, Bool, ◌&&◌, Option, none, some, List, [], ◌∷◌, map, ltb, if◌then◌else◌, length, take,
  keep_if, any, ◌=s=◌,
}
use fleet_core.Prelude.Exec.{Result, ok, err, Exec, pure, gets, ◌>>=◌}
use fleet_core.Prelude.Int.{ℤ, pos, negsuc}
use fleet_core.GoMap.{GoMap}
use fleet_core.Sort.{sort_slice}
use fleet_core.Sort.Laws.{by_name}
use fleet_core.Api.{Bytes, ModuleArtifact, Machine, Group}
use fleet_core.Store
use fleet_core.Store.{StoreError}
use fleet_core.Store.Machines
use fleet_core.Store.Groups
use fleet_core.Store.Modules
use fleet_core.Server.{Server, on_store}
use fleet_core.Resolver.{selector_matches}
use fleet_core.Commands.{is_command, command_created_at}
use fleet_core.Admin.{HttpError, unknown, store_error, or_http}

pub record Listed : Type 0 where
  pub name : String
  pub version : String
  pub created : ℕ
  pub script : String

unfoldable pub listed : ModuleArtifact → Listed
listed m = record {
  name = m.name;
  version = m.version;
  created = command_created_at m.name;
  script = "";
}

unfoldable pub page_size : ℤ → ℕ
page_size (pos n) = if ltb 0 n then n else 50
page_size (negsuc n) = 50

unfoldable pub by_created : Listed → Listed → Bool
by_created a b = ltb b.created a.created

module _ (decode : Bytes → String) where
  -- A script that cannot be read stays empty.
  unfoldable pub fill_scripts : List Listed → Exec Server HttpError (List Listed)
  fill_scripts [] s = (ok [], s)
  fill_scripts (c ∷ cs) s =
      let script : String = elim (Store.Modules.get_module c.name c.version s.store).0 [
        | ok full ↦ decode full.payload
        | err x ↦ c.script
      ] in
      (do rest ← fill_scripts cs; pure (record c { script = script } ∷ rest)) s

  -- `limit` is the number in the query, 0 where there is none.
  unfoldable pub list_commands : ℤ → Exec Server HttpError (List Listed)
  unfolding fill_scripts listed by_created page_size
  list_commands limit = do
    mods ← or_http store_error (on_store Store.Modules.list_modules)
    let out : List Listed =
        sort_slice by_created (map listed (keep_if (λ m. is_command m.name) mods))
    fill_scripts (take (page_size limit) out)

pub data Joined : Type 0 where
  match_all by_selector explicit : Joined

pub record GroupRow : Type 0 where
  pub id : String
  pub name : String
  pub via : Joined
  pub selector : GoMap String
  pub modules : ℕ

unfoldable pub group_row : Group → Joined → GroupRow
group_row g via = record {
  id = g.id;
  name = g.name;
  via = via;
  selector = elim via [ match_all ↦ [] | by_selector ↦ g.selector | explicit ↦ [] ];
  modules = length g.modules;
}

-- The `default` case: the group's explicit members are read, and an error skips the group.
unfoldable pub joined_explicitly : Machine → Group → Result StoreError (List String) → Option Joined
joined_explicitly m g (ok ids) = if any (λ id. id =s= m.id) ids then some explicit else none
joined_explicitly m g (err x) = none

unfoldable pub joined : Machine → Group → Result StoreError (List String) → Option Joined
unfolding joined_explicitly
joined m g ids =
    if g.match_all
    then some match_all
    else if selector_matches g.selector m.labels && ltb 0 (length g.selector)
    then some by_selector
    else joined_explicitly m g ids

unfoldable pub group_rows : Machine → List Group → Server → List GroupRow
unfolding joined group_row
group_rows m [] s = []
group_rows m (g ∷ gs) s =
    let rest = group_rows m gs s in
    elim (joined m g (Store.Groups.list_group_members g.id s.store).0) [
      | none ↦ rest
      | some via ↦ group_row g via ∷ rest
    ]

abbrev pub row_name : GroupRow → String
row_name r = r.name

unfoldable pub machine_groups : String → Exec Server HttpError (List GroupRow)
unfolding group_rows
machine_groups id = do
  m ← or_http (unknown "not found") (on_store (Store.Machines.get_machine id))
  groups ← or_http store_error (on_store (Store.Groups.list_groups m.tenant_id))
  gets (λ s. sort_slice (by_name row_name) (group_rows m groups s))
