-- ===== src/AgentApi/Revocation.antt =====
-- internal/server/server.go and admin.go: the requests of a machine that was deleted.
use fleet_core.Prelude.{
  String, ◌≡◌, refl, ap, inl, inr, Bool, Option, none, some, List, [], arith, Option-cases,
}
use fleet_core.Prelude.Exec.{Result, ok, err}
use fleet_core.GoMap.{get}
use fleet_core.GoMap.Laws.{get-delete_self}
use fleet_core.Store
use fleet_core.Bus
use fleet_core.Store.{FileStore, StoreError}
use fleet_core.Store.Machines.{forget_member}
use fleet_core.Store.Writes.Keyed.{Keyed, contents-commit}
use fleet_core.Api.{Machine, Inventory, StatusReport}
use fleet_core.Server.{Server, time_now, publish}
use fleet_core.Admin.Machines.{delete_machine}
use fleet_core.AgentApi.{
  Identity, forbidden, handle_renew, handle_heartbeat, handle_status, handle_stream, Wake, Frame,
  desired, send,
}

-- The machine is not in the store.
abbrev Gone : String → Server → Type 0
Gone id s = get id s.store.contents.machines ≡ none

dropped :
    (id : String) (fs : FileStore)
    → get id (Store.Machines.delete_machine id fs).1.contents.machines ≡ none
unfolding Store.Machines.delete_machine
dropped id fs = rw contents-commit (get-delete_self id fs.contents.machines)

delete_machine-Gone :
    (id : String) (s : Server)
    → Keyed (λ (m : Machine). m.id) s.store.contents.machines
    → (delete_machine id s).0 ≡ ok tt
    → Gone id (delete_machine id s).1
unfolding delete_machine Store.Machines.get_machine publish
delete_machine-Gone id s k h = elim (Option-cases (get id s.store.contents.machines)) [
  | inl e ↦ absurd (ground (arith, e))
  | inr (m, e) ↦ ground (arith, e, k.at id m e, dropped m.id s.store)
]

get_machine-Gone :
    (id : String) (s : Server)
    → Gone id s
    → (Store.Machines.get_machine id s.store).0 ≡ err Store.not_found
unfolding Store.Machines.get_machine
get_machine-Gone id s g = rw g refl

module _ (me : Identity) (s : Server) (g : Gone me.machine_id s) where
  renew-Gone :
      (sign : String → String → String → Option String) (csr : String)
      → (handle_renew sign me (some csr) s).0 ≡ err (forbidden "unknown machine")
  unfolding handle_renew Store.Machines.get_machine
  renew-Gone sign csr = rw g refl

  heartbeat-Gone :
      (inv : Inventory) → (handle_heartbeat me (some inv) s).0 ≡ err (forbidden "unknown machine")
  unfolding handle_heartbeat Store.Machines.touch_heartbeat time_now
  heartbeat-Gone inv = rw g refl

  status-Gone :
      (rep : StatusReport) → (handle_status me (some rep) s).0 ≡ err (forbidden "unknown machine")
  unfolding handle_status Store.Machines.set_status time_now
  status-Gone rep = rw g refl

  send-Gone : send me (record s { bus = (Bus.subscribe me.machine_id s.bus).1 }) ≡ none
  unfolding send
  send-Gone =
      ap
        (λ (r : Result StoreError Machine). elim r as (λ _. Option Frame) [
          | ok m ↦ some (desired m.desired)
          | err x ↦ none
        ])
        (get_machine-Gone me.machine_id s g)

  stream-Gone : (ws : List (Wake × Server × Bool)) (up : Bool) → (handle_stream me ws up s).0 ≡ []
  unfolding handle_stream
  stream-Gone ws up = rw (send-Gone, handle_stream) refl

-- Once a machine is deleted, its certificate is worth nothing to the handlers that look the machine
-- up: to renew, to send a heartbeat or to report its status is forbidden, and a new stream ends
-- without a frame.
pub deleted_machine_refused :
    (me : Identity) (s : Server)
    → Keyed (λ (m : Machine). m.id) s.store.contents.machines
    → (delete_machine me.machine_id s).0 ≡ ok tt
    → let s' = (delete_machine me.machine_id s).1 in
      ((sign : String → String → String → Option String) (csr : String)
        → (handle_renew sign me (some csr) s').0 ≡ err (forbidden "unknown machine"))
      × ((inv : Inventory)
          → (handle_heartbeat me (some inv) s').0 ≡ err (forbidden "unknown machine"))
      × ((rep : StatusReport)
          → (handle_status me (some rep) s').0 ≡ err (forbidden "unknown machine"))
      × ((ws : List (Wake × Server × Bool)) (up : Bool) → (handle_stream me ws up s').0 ≡ [])
deleted_machine_refused me s k h =
    let s' = (delete_machine me.machine_id s).1 in
    let g : Gone me.machine_id s' = delete_machine-Gone me.machine_id s k h in
    (renew-Gone me s' g, heartbeat-Gone me s' g, status-Gone me s' g, stream-Gone me s' g)
