-- ===== src/Admin/Groups.antt =====
-- internal/server/groups.go: the handlers of groups, their members and labels.
use fleet_core.Prelude.{
  String, Bool, false, not, ◌&&◌, Option, none, some, List, [], ◌∷◌, if◌then◌else◌, ◌=s=◌,
}
use fleet_core.Prelude.Exec.{Exec, pure, ◌>>=◌, ◌>>◌, guard}
use fleet_core.GoMap.{GoMap, get}
use fleet_core.Api.{ModuleSpec, Machine, Group}
use fleet_core.Store.{StoreError}
use fleet_core.Store
use fleet_core.Store.Machines
use fleet_core.Store.Groups
use fleet_core.Server.{Server, on_store, new_id, time_now}
use fleet_core.Resolver.{member_set, selector_matches, recompute}
use fleet_core.Admin.{
  HttpError, bad_request, unknown, store_error, or_http, decoded, logged, validate_modules,
}

pub record CreateGroup : Type 0 where
  pub tenant_id : String
  pub name : String
  pub match_all : Bool
  pub selector : GoMap String
  pub modules : List ModuleSpec

unfoldable pub create_group : Option CreateGroup → Exec Server HttpError Group
create_group body = do
  req ← decoded (bad_request "tenant_id and name required") body
  guard (not (req.tenant_id =s= "") && not (req.name =s= ""))
      (bad_request "tenant_id and name required")
  or_http (unknown "unknown tenant") (on_store (Store.get_tenant req.tenant_id))
  validate_modules req.modules
  id ← new_id
  now ← time_now
  let g : Group = record {
    id = id;
    tenant_id = req.tenant_id;
    name = req.name;
    match_all = req.match_all;
    selector = req.selector;
    modules = req.modules;
    created = now;
  }
  or_http store_error (on_store (Store.Groups.save_group g))
  logged (recompute g.tenant_id [])
  pure g

unfoldable pub list_groups : String → Exec Server HttpError (List Group)
list_groups tenant = or_http store_error (on_store (Store.Groups.list_groups tenant))

-- A field that the body leaves out is nil, and stays as it is.
pub record UpdateGroup : Type 0 where
  pub name : Option String
  pub selector : Option (GoMap String)
  pub modules : Option (List ModuleSpec)

-- `if req.F != nil { g.F = *req.F }`
abbrev pub given {ℓ} : {A : Type ℓ} → Option A → A → A
given none old = old
given (some new) old = new

unfoldable pub update_group : String → Option UpdateGroup → Exec Server HttpError Group
update_group id body = do
  g ← or_http (unknown "not found") (on_store (Store.Groups.get_group id))
  req ← decoded (bad_request "bad request") body
  validate_modules (given req.modules [])
  let g' : Group = record g {
    name = given req.name g.name;
    selector = given req.selector g.selector;
    modules = given req.modules g.modules;
  }
  or_http store_error (on_store (Store.Groups.save_group g'))
  logged (recompute g'.tenant_id [])
  pure g'

unfoldable pub delete_group : String → Exec Server HttpError (Unit {0})
delete_group id = do
  g ← or_http (unknown "not found") (on_store (Store.Groups.get_group id))
  or_http store_error (on_store (Store.Groups.delete_group g.id))
  logged (recompute g.tenant_id [])

-- The body carries a machine's identity.
unfoldable pub add_group_member : String → Option String → Exec Server HttpError (Unit {0})
add_group_member id body = do
  g ← or_http (unknown "group not found") (on_store (Store.Groups.get_group id))
  machine_id ← decoded (bad_request "machine_id required") body
  guard (not (machine_id =s= "")) (bad_request "machine_id required")
  m ←
      or_http (unknown "unknown machine in this tenant")
        (on_store (Store.Machines.get_machine machine_id))
  guard (m.tenant_id =s= g.tenant_id) (unknown "unknown machine in this tenant")
  or_http store_error (on_store (Store.Groups.add_group_member g.id m.id))
  logged (recompute g.tenant_id (m.id ∷ []))

unfoldable pub remove_group_member : String → String → Exec Server HttpError (Unit {0})
remove_group_member id machine_id = do
  g ← or_http (unknown "group not found") (on_store (Store.Groups.get_group id))
  or_http store_error (on_store (Store.Groups.remove_group_member g.id machine_id))
  logged (recompute g.tenant_id (machine_id ∷ []))

pub data Via : Type 0 where
  explicit by_selector both all : Via

pub record Member : Type 0 where
  pub machine_id : String
  pub name : String
  pub via : Via

-- `explicitSet[m.ID]`
unfoldable pub is_explicit : GoMap Bool → Machine → Bool
is_explicit set m = elim (get m.id set) [ none ↦ false | some b ↦ b ]

-- The row of a machine in the list of a group's members, if it is one.
unfoldable pub member_row : Group → GoMap Bool → Machine → Option Member
unfolding is_explicit
member_row g set m =
    let exp = is_explicit set m in
    let sel = selector_matches g.selector m.labels in
    let row : Via → Option Member =
      λ via. some (record { machine_id = m.id; name = m.name; via = via }) in
    if not g.match_all && not exp && not sel
    then none
    else if g.match_all
    then row all
    else if exp && sel
    then row both
    else if sel
    then row by_selector
    else row explicit

unfoldable pub member_rows : Group → GoMap Bool → List Machine → List Member
unfolding member_row
member_rows g set [] = []
member_rows g set (m ∷ ms) =
    let rest = member_rows g set ms in elim (member_row g set m) [ none ↦ rest | some r ↦ r ∷ rest ]

unfoldable pub list_group_members : String → Exec Server HttpError (List Member)
unfolding member_rows
list_group_members id = do
  g ← or_http (unknown "group not found") (on_store (Store.Groups.get_group id))
  ids ← or_http store_error (on_store (Store.Groups.list_group_members g.id))
  ms ← or_http store_error (on_store (Store.Machines.list_machines g.tenant_id))
  pure (member_rows g (member_set ids) ms)

unfoldable pub put_labels : String → Option (GoMap String) → Exec Server HttpError Machine
put_labels id body = do
  m ← or_http (unknown "not found") (on_store (Store.Machines.get_machine id))
  labels ← decoded (bad_request "bad request") body
  let m' : Machine = record m { labels = labels }
  or_http store_error (on_store (Store.Machines.save_machine m'))
  logged (recompute m'.tenant_id (m'.id ∷ []))
  pure m'
