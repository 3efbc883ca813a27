-- ===== src/Store/Groups.antt =====
-- internal/store/store.go: groups and their explicit members.
use fleet_core.Prelude.{String, ◌||◌, none, some, List, [], keep_if, ◌=s=◌}
use fleet_core.Prelude.Exec.{Exec, gets}
use fleet_core.GoMap.{GoMap, get, put, delete, keys, values}
use fleet_core.Api.{Group}
use fleet_core.Store.{StoreError, FileStore, commit, or_not_found}

unfoldable pub save_group : Group → Exec FileStore StoreError (Unit {0})
save_group g = commit (λ d. record d { groups = put g.id g d.groups })

unfoldable pub get_group : String → Exec FileStore StoreError Group
get_group id fs = or_not_found (get id fs.contents.groups) fs

unfoldable pub list_groups : String → Exec FileStore StoreError (List Group)
list_groups tenant =
    gets
      (λ fs. keep_if (λ g. (tenant =s= "") || (g.tenant_id =s= tenant)) (values fs.contents.groups))

unfoldable pub delete_group : String → Exec FileStore StoreError (Unit {0})
delete_group id =
    commit (λ d. record d { groups = delete id d.groups; members = delete id d.members })

-- The members of a group: a group that has no entry has none.
abbrev pub members_of : String → GoMap (GoMap (Unit {0})) → GoMap (Unit {0})
members_of group_id ms = elim (get group_id ms) [ none ↦ [] | some set ↦ set ]

unfoldable pub add_group_member : String → String → Exec FileStore StoreError (Unit {0})
add_group_member group_id machine_id = commit (λ d. record d {
  members = put group_id (put machine_id tt (members_of group_id d.members)) d.members;
})

-- `delete(fs.data.Members[groupID], machineID)`: nothing happens for a group without an entry.
unfoldable pub remove_member : String → String → GoMap (GoMap (Unit {0})) → GoMap (GoMap (Unit {0}))
remove_member group_id machine_id ms = elim (get group_id ms) [
  | none ↦ ms
  | some set ↦ put group_id (delete machine_id set) ms
]

unfoldable pub remove_group_member : String → String → Exec FileStore StoreError (Unit {0})
unfolding remove_member
remove_group_member group_id machine_id =
    commit (λ d. record d { members = remove_member group_id machine_id d.members })

unfoldable pub list_group_members : String → Exec FileStore StoreError (List String)
list_group_members group_id = gets (λ fs. keys (members_of group_id fs.contents.members))
