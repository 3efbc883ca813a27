-- ===== src/Store/Machines.antt =====
-- internal/store/store.go: machines.
use fleet_core.Prelude.{ℕ, String, ◌||◌, List, map, keep_if, ◌=s=◌}
use fleet_core.Prelude.Exec.{Exec, gets, ◌>>=◌}
use fleet_core.GoMap.{GoMap, get, put, delete, values}
use fleet_core.Api.{Machine, Inventory, ModuleStatus}
use fleet_core.Store.{StoreError, FileStore, commit, or_not_found}

unfoldable pub save_machine : Machine → Exec FileStore StoreError (Unit {0})
save_machine m = commit (λ d. record d { machines = put m.id m d.machines })

unfoldable pub get_machine : String → Exec FileStore StoreError Machine
get_machine id fs = or_not_found (get id fs.contents.machines) fs

-- All machines for the tenant "".
unfoldable pub list_machines : String → Exec FileStore StoreError (List Machine)
list_machines tenant =
    gets (λ fs.
      keep_if (λ m. (tenant =s= "") || (m.tenant_id =s= tenant)) (values fs.contents.machines))

-- `for gid := range fs.data.Members { delete(fs.data.Members[gid], id) }`
unfoldable pub forget_member : String → GoMap (GoMap (Unit {0})) → GoMap (GoMap (Unit {0}))
forget_member id = map (λ e. (e.0, delete id e.1))

unfoldable pub delete_machine : String → Exec FileStore StoreError (Unit {0})
unfolding forget_member
delete_machine id =
    commit (λ d. record d { machines = delete id d.machines; members = forget_member id d.members })

unfoldable pub touch_heartbeat : String → ℕ → Inventory → Exec FileStore StoreError (Unit {0})
touch_heartbeat id last_seen inv = do
  m ← λ fs. or_not_found (get id fs.contents.machines) fs
  commit (λ d. record d {
    machines = put id (record m { last_seen = last_seen; inventory = inv }) d.machines;
  })

unfoldable pub set_status : String → ℕ → List ModuleStatus → Exec FileStore StoreError (Unit {0})
set_status id last_seen status = do
  m ← λ fs. or_not_found (get id fs.contents.machines) fs
  commit (λ d. record d {
    machines = put id (record m { last_seen = last_seen; status = status }) d.machines;
  })
