-- ===== src/AgentApi.antt =====
-- internal/server/server.go: the API that agents call. The certificate authority is a parameter:
-- `sign_agent csr machine tenant` is `CA.SignAgent`, nothing where it refuses, `ca_pem` is the root
-- certificate and `module_pub` what `ModulePubPEM` returns. Each request of a stream's loop sees the
-- server as it is at that moment.
pub mod Revocation
use fleet_core.Prelude.{ℕ, String, Bool, not, Option, none, some, List, [], ◌∷◌, if◌then◌else◌}
use fleet_core.Prelude.Exec.{Result, ok, err, Exec, pure, ◌>>=◌, ◌>>◌}
use fleet_core.Prelude.Int
use fleet_core.Api.{
  EnrollRequest, EnrollResponse, Inventory, ModuleArtifact, StatusReport, DesiredState, Machine,
}
use fleet_core.Store
use fleet_core.Store.{StoreError, not_found}
use fleet_core.Store.Tokens
use fleet_core.Store.Machines
use fleet_core.Store.Modules
use fleet_core.Bus
use fleet_core.Server.{Server, on_store, new_id, time_now}
use fleet_core.Resolver.{recompute}
use fleet_core.Admin.{
  HttpError, http_error, bad_request, unknown, store_error, or_http, decoded, logged,
}

pub record Identity : Type 0 where
  pub machine_id : String
  pub tenant_id : String

-- What the handlers read of a certificate's subject.
pub record Subject : Type 0 where
  pub common_name : String
  pub organizational_unit : List String

abbrev pub forbidden : String → HttpError
forbidden = http_error 403

-- `none` is a connection without TLS; the list holds the certificates that the client sent.
unfoldable pub identify : Option (List Subject) → Result HttpError Identity
identify none = err (http_error 401 "client certificate required")
identify (some []) = err (http_error 401 "client certificate required")
identify (some (leaf ∷ rest)) = elim leaf.organizational_unit [
  | [] ↦ err (forbidden "certificate missing tenant")
  | unit ∷ units ↦ ok (record { machine_id = leaf.common_name; tenant_id = unit })
]

unfoldable pub with_identity :
    {A : Type 0}
    → (Identity → Exec Server HttpError A)
    → Option (List Subject)
    → Exec Server HttpError A
unfolding identify
with_identity next peers = do me ← λ s. (identify peers, s); next me

-- `errors.Is(err, store.ErrNotFound)` tells a missing record from the other errors.
abbrev pub found_or : {A : Type 0} → HttpError → Result StoreError A → Result HttpError A
found_or missing (ok a) = ok a
found_or missing (err not_found) = err missing
found_or missing (err x) = err store_error

abbrev pub or_missing :
    {A : Type 0} → HttpError → Exec Server StoreError A → Exec Server HttpError A
or_missing missing m s = let (r, s') = m s in (found_or missing r, s')

abbrev pub no_inventory : Inventory
no_inventory = record {
  hostname = "";
  os = "";
  os_version = "";
  kernel = "";
  arch = "";
  cpu_cores = 0;
  uptime_sec = 0;
  packages = Int.pos 0;
  processes = 0;
  gpus = [];
  services = [];
  kubernetes = "";
  updates = none;
  agent_version = "";
  interfaces = [];
  primary_ip = "";
}

module _ (sign_agent : String → String → String → Option String) (ca_pem : String)
    (module_pub : Option String) where
  unfoldable pub handle_enroll : Option EnrollRequest → Exec Server HttpError EnrollResponse
  handle_enroll body = do
    req ← decoded (bad_request "bad request") body
    now ← time_now
    tok ← or_http (forbidden "invalid token") (on_store (Store.Tokens.consume_token now req.token))
    machine_id ← new_id
    cert ← decoded (bad_request "csr rejected") (sign_agent req.csr_pem machine_id tok.tenant_id)
    let m : Machine = record {
      id = machine_id;
      tenant_id = tok.tenant_id;
      name = req.name;
      labels = tok.labels;
      enrolled = now;
      last_seen = now;
      inventory = no_inventory;
      override = [];
      desired = record { revision = 0; modules = none };
      status = [];
    }
    or_http store_error (on_store (Store.Machines.save_machine m))
    mod_pub ← decoded (http_error 500 "internal error") module_pub
    logged (recompute tok.tenant_id (machine_id ∷ []))
    let answer : EnrollResponse = record {
      machine_id = machine_id;
      tenant_id = tok.tenant_id;
      cert_pem = cert;
      ca_pem = ca_pem;
      module_pub_pem = mod_pub;
    }
    pure answer

module _ (sign_agent : String → String → String → Option String) where
  -- The body carries a request for a certificate.
  unfoldable pub handle_renew : Identity → Option String → Exec Server HttpError String
  handle_renew me body = do
    or_http (forbidden "unknown machine") (on_store (Store.Machines.get_machine me.machine_id))
    csr ← decoded (bad_request "bad request") body
    decoded (bad_request "csr rejected") (sign_agent csr me.machine_id me.tenant_id)

-- The body carries an inventory.
unfoldable pub handle_heartbeat : Identity → Option Inventory → Exec Server HttpError (Unit {0})
handle_heartbeat me body = do
  inv ← decoded (bad_request "bad request") body
  now ← time_now
  or_missing (forbidden "unknown machine")
      (on_store (Store.Machines.touch_heartbeat me.machine_id now inv))

unfoldable pub handle_status : Identity → Option StatusReport → Exec Server HttpError (Unit {0})
handle_status me body = do
  rep ← decoded (bad_request "bad request") body
  now ← time_now
  or_missing (forbidden "unknown machine")
      (on_store (Store.Machines.set_status me.machine_id now rep.modules))

unfoldable pub handle_module : Identity → String → String → Exec Server HttpError ModuleArtifact
handle_module me name version =
    or_missing (unknown "module not found") (on_store (Store.Modules.get_module name version))

pub data Frame : Type 0 where
  desired : DesiredState → Frame
  ping : Frame

-- What wakes the loop of a stream.
pub data Wake : Type 0 where
  closed signal keepalive : Wake

-- The frame that `send` writes, if the machine is known.
unfoldable pub send : Identity → Server → Option Frame
send me s = elim (Store.Machines.get_machine me.machine_id s.store).0 [
  | ok m ↦ some (desired m.desired)
  | err x ↦ none
]

-- The loop: each event with the server as it is then, and whether the connection takes the frame.
unfoldable pub stream_loop : Identity → List (Wake × Server × Bool) → List Frame
unfolding send
stream_loop me [] = []
stream_loop me ((closed, s, up) ∷ ws) = []
stream_loop me ((keepalive, s, up) ∷ ws) =
    let rest = stream_loop me ws in if up then ping ∷ rest else []
stream_loop me ((signal, s, up) ∷ ws) =
    let rest = stream_loop me ws in
    elim (send me s) [ none ↦ [] | some frame ↦ if up then frame ∷ rest else [] ]

-- `defer cancel()`, on the server as it is when the stream ends.
unfoldable pub end_stream : Identity → ℕ → Server → Server
end_stream me ch s = record s { bus = Bus.cancel me.machine_id ch s.bus }

-- `Bus.Subscribe`, the first `send`, and the loop where that works: the frames, the server with the
-- subscription, and what the end of the stream does to the server.
unfoldable pub handle_stream :
    Identity → List (Wake × Server × Bool) → Bool → Server → List Frame × Server × (Server → Server)
unfolding send stream_loop end_stream
handle_stream me ws up s =
    let s' : Server = record s { bus = (Bus.subscribe me.machine_id s.bus).1 } in
    let rest = stream_loop me ws in
    (
      elim (send me s') [ none ↦ [] | some frame ↦ if up then frame ∷ rest else [] ],
      s',
      end_stream me (Bus.subscribe me.machine_id s.bus).0,
    )
