-- ===== src/Admin/Machines.antt =====
-- internal/server/admin.go: machines, and the desired modules that an operator sets for one.
use fleet_core.Prelude.{String, Option, none, List, [], ◌∷◌}
use fleet_core.Prelude.Exec.{Result, ok, err, Exec, ◌>>=◌, ◌>>◌}
use fleet_core.Api.{ModuleSpec, DesiredState, Machine}
use fleet_core.Store
use fleet_core.Store.{StoreError}
use fleet_core.Store.Machines
use fleet_core.Server.{Server, on_store, publish}
use fleet_core.Resolver.{recompute}
use fleet_core.Admin.{
  HttpError, http_error, bad_request, unknown, store_error, or_http, decoded, validate_modules,
}

unfoldable pub list_machines : String → Exec Server HttpError (List Machine)
list_machines tenant = or_http store_error (on_store (Store.Machines.list_machines tenant))

unfoldable pub get_machine : String → Exec Server HttpError Machine
get_machine id = or_http (unknown "not found") (on_store (Store.Machines.get_machine id))

-- The desired state of a machine; that of `api.Machine{}` for one that is gone.
abbrev pub desired_of : Result StoreError Machine → DesiredState
desired_of (ok m) = m.desired
desired_of (err x) = record { revision = 0; modules = none }

-- `m, _ = s.Store.GetMachine(id); writeJSON(w, m.Desired)`
unfoldable pub read_desired : String → Exec Server HttpError DesiredState
read_desired id s = (ok (desired_of (Store.Machines.get_machine id s.store).0), s)

unfoldable pub put_desired : String → Option (List ModuleSpec) → Exec Server HttpError DesiredState
unfolding read_desired
put_desired id body = do
  m ← or_http (unknown "not found") (on_store (Store.Machines.get_machine id))
  modules ← decoded (bad_request "bad request") body
  validate_modules modules
  or_http store_error (on_store (Store.Machines.save_machine (record m { override = modules })))
  or_http (http_error 500 "recompute error") (recompute m.tenant_id (m.id ∷ []))
  read_desired id

unfoldable pub delete_machine : String → Exec Server HttpError (Unit {0})
delete_machine id = do
  m ← or_http (unknown "not found") (on_store (Store.Machines.get_machine id))
  or_http store_error (on_store (Store.Machines.delete_machine m.id))
  publish m.id
