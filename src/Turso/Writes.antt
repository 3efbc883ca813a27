-- ===== src/Turso/Writes.antt =====
-- internal/store/turso.go: the calls of the Store interface that write, on the Turso store.
use fleet_core.Prelude.Exec.{Exec, pure, ◌>>◌}
use fleet_core.Store.Writes.{
  Write, tenant, token, consume, machine, drop_machine, heartbeat, status, artifact, drop_artifact,
  group, drop_group, member, drop_member,
}
use fleet_core.Turso.{Hrana, Remote, TursoError}
use fleet_core.Turso.Tables.{Tables}
use fleet_core.Turso.Accounts.{save_tenant, save_token, consume_token}
use fleet_core.Turso.Machines.{Json, save_machine, delete_machine, touch_heartbeat, set_status}
use fleet_core.Turso.Modules.{save_module, delete_module}
use fleet_core.Turso.Groups.{save_group, delete_group, add_group_member, remove_group_member}

-- The call, without the token that `ConsumeToken` returns.
unfoldable pub remote_call : Json → Hrana → Write → Exec (Remote Tables) TursoError (Unit {0})
remote_call j h (tenant t) = save_tenant h t
remote_call j h (token t) = save_token h j.labels t
remote_call j h (consume now k) = do consume_token h j.labels now k; pure tt
remote_call j h (machine m) = save_machine j h m
remote_call j h (drop_machine id) = delete_machine h id
remote_call j h (heartbeat id t inv) = touch_heartbeat j h id t inv
remote_call j h (status id t st) = set_status j h id t st
remote_call j h (artifact a) = save_module h a
remote_call j h (drop_artifact n v) = delete_module h n v
remote_call j h (group g) = save_group j h g
remote_call j h (drop_group id) = delete_group h id
remote_call j h (member g m) = add_group_member h g m
remote_call j h (drop_member g m) = remove_group_member h g m
