-- ===== src/Admin/Tenants.antt =====
-- internal/server/admin.go: tenants, enrollment tokens and modules. `sign` is `CA.SignModule`,
-- which is the standard library's ed25519.
use fleet_core.Prelude.{
  ℕ, ◌+◌, String, true, false, not, ◌&&◌, Option, List, [], ◌==◌, if◌then◌else◌, length, ◌=s=◌,
}
use fleet_core.Prelude.Exec.{Exec, pure, ◌>>=◌, ◌>>◌, guard}
use Prim.Native.String.{◌++◌ as ◌++s◌}
use fleet_core.Prelude.Int.{ℤ, pos, negsuc}
use fleet_core.GoMap.{GoMap}
use fleet_core.Api.{Bytes, Tenant, EnrollToken, ModuleArtifact, Group}
use fleet_core.Store
use fleet_core.Store.Tokens
use fleet_core.Store.Modules
use fleet_core.Store.Groups
use fleet_core.Server.{Server, on_store, new_id, time_now}
use fleet_core.Admin.{HttpError, http_error, bad_request, unknown, store_error, or_http, decoded}

-- The body carries a name.
unfoldable pub create_tenant : Option String → Exec Server HttpError Tenant
create_tenant body = do
  name ← decoded (bad_request "name required") body
  guard (not (name =s= "")) (bad_request "name required")
  id ← new_id
  now ← time_now
  let t : Tenant = record { id = id; name = name; created = now }
  or_http store_error (on_store (Store.save_tenant t))
  group_id ← new_id
  let everyone : Group = record {
    id = group_id;
    tenant_id = t.id;
    name = "all";
    match_all = true;
    selector = [];
    modules = [];
    created = t.created;
  }
  or_http store_error (on_store (Store.Groups.save_group everyone))
  pure t

unfoldable pub list_tenants : Exec Server HttpError (List Tenant)
list_tenants = or_http store_error (on_store Store.list_tenants)

pub record CreateToken : Type 0 where
  pub tenant_id : String
  pub labels : GoMap String
  pub ttl_sec : ℤ
  pub max_uses : ℤ

-- 0 is the default of a day, and a negative time to live is no expiry, which is stored as 0.
unfoldable pub expires_at : ℕ → ℤ → ℕ
expires_at now (pos n) = if n == 0 then now + 86400 else now + n
expires_at now (negsuc n) = 0

unfoldable pub create_token : Option CreateToken → Exec Server HttpError EnrollToken
unfolding expires_at
create_token body = do
  req ← decoded (bad_request "tenant_id required") body
  guard (not (req.tenant_id =s= "")) (bad_request "tenant_id required")
  or_http (unknown "unknown tenant") (on_store (Store.get_tenant req.tenant_id))
  now ← time_now
  left ← new_id
  right ← new_id
  let t : EnrollToken = record {
    token = left ++s right;
    tenant_id = req.tenant_id;
    labels = req.labels;
    created = now;
    expires_at = expires_at now req.ttl_sec;
    max_uses = req.max_uses;
    uses = 0;
    used = false;
  }
  or_http store_error (on_store (Store.Tokens.save_token t))
  pure t

pub record UploadModule : Type 0 where
  pub name : String
  pub version : String
  pub exec : String
  pub payload : Bytes

module _ (sign : Bytes → Bytes) where
  unfoldable pub upload_module : Option UploadModule → Exec Server HttpError ModuleArtifact
  upload_module body = do
    req ← decoded (bad_request "bad request") body
    guard (not (req.name =s= "") && not (req.version =s= "") && not (length req.payload == 0))
        (bad_request "name, version, payload required")
    let a : ModuleArtifact = record {
      name = req.name;
      version = req.version;
      exec = if req.exec =s= "" then "payload" else req.exec;
      payload = req.payload;
      signature = sign req.payload;
    }
    or_http store_error (on_store (Store.Modules.save_module a))
    pure (Store.Modules.without_payload a)

unfoldable pub list_modules : Exec Server HttpError (List ModuleArtifact)
list_modules = or_http store_error (on_store Store.Modules.list_modules)

unfoldable pub healthz : Exec Server HttpError String
healthz = do or_http (http_error 503 "store unavailable") (on_store Store.list_tenants); pure "ok"
