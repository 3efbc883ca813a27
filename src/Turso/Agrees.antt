-- ===== src/Turso/Agrees.antt =====
-- The tables of the Turso store that stand for the maps of the FileStore: the row of each record.
pub mod Machines
pub mod Members
pub mod Groups
pub mod Accounts
pub mod Consume
pub mod Modules
use fleet_core.Prelude.{
  ◌≤◌, String, ◌≡◌, Bool, true, not, ◌&&◌, ◌==◌, List, ◌∷◌, if◌then◌else◌, length, keep_if,
}
use fleet_core.Prelude.Int.{pos, is_zero}
use fleet_core.GoMap.{GoMap, get}
use fleet_core.Api.{Tenant, EnrollToken, Machine, ModuleArtifact, Group}
use fleet_core.Store.{FileData}
use fleet_core.Store.Tokens.{legacy}
use fleet_core.Store.Groups.{members_of}
use fleet_core.Prelude.Exec.{Result, ok}
use Prim.Native.Char.{code}
use fleet_core.Store.Modules.{module_key}
use fleet_core.Turso.{text, integer, blob, ◌=v=◌, Remote, TursoError}
use fleet_core.Turso.Table.{find}
use fleet_core.Turso.Tables.{
  TenantRow, TokenRow, MachineRow, GroupRow, MemberRow, ModuleRow, Tables, of_bool,
}
use fleet_core.Turso.Machines.{Json}
use fleet_core.Turso.Modules.{is_module}
use fleet_core.Turso.Groups.{is_member}
use fleet_core.Turso.Same.{row_of, Same}

abbrev pub tenant_row : Tenant → TenantRow
tenant_row t = record { id = text t.id; name = text t.name; created = integer (pos t.created) }

abbrev pub member_row : String → String → MemberRow
member_row group_id machine_id = record { group_id = text group_id; machine_id = text machine_id }

abbrev pub artifact_row : ModuleArtifact → ModuleRow
artifact_row a = record {
  name = text a.name;
  version = text a.version;
  exec = text a.exec;
  payload = blob a.payload;
  signature = blob a.signature;
}

-- A module's name without "@": with one, two modules may share a key of the FileStore.
unfoldable pub no_at : String → Bool
no_at String.[] = true
no_at (String.◌∷◌ c s) = not (code c == b'@') && no_at s

module _ (j : Json) where
  -- A token whose only use is the mark `used` has its use counted, as the last migration does.
  abbrev pub token_row : EnrollToken → TokenRow
  token_row t = record {
    token = text t.token;
    tenant_id = text t.tenant_id;
    labels = text (j.labels.marshal t.labels);
    created = integer (pos t.created);
    expires_at = integer (pos t.expires_at);
    max_uses = integer (if is_zero t.max_uses then pos 1 else t.max_uses);
    uses = integer (pos (legacy t).uses);
    used = of_bool t.used;
  }

  abbrev pub machine_row : Machine → MachineRow
  machine_row m = record {
    id = text m.id;
    tenant_id = text m.tenant_id;
    name = text m.name;
    labels = text (j.labels.marshal m.labels);
    override = text (j.specs.marshal m.override);
    enrolled = integer (pos m.enrolled);
    last_seen = integer (pos m.last_seen);
    inventory = text (j.inventory.marshal m.inventory);
    desired = text (j.desired.marshal m.desired);
    status = text (j.status.marshal m.status);
  }

  abbrev pub group_row : Group → GroupRow
  group_row g = record {
    id = text g.id;
    tenant_id = text g.tenant_id;
    name = text g.name;
    match_all = of_bool g.match_all;
    selector = text (j.labels.marshal g.selector);
    modules = text (j.specs.marshal g.modules);
    created = integer (pos g.created);
  }

  -- Each table has the row of each record under its key, and no other key; no two rows have one token.
  pub record Agrees (d : FileData) (db : Tables) : Type 0 where
    pub tenants : Same (λ r. r.id) tenant_row d.tenants db.tenants
    pub tokens : Same (λ r. r.token) token_row d.tokens db.tokens
    pub tokens_once : (id : String) → length (keep_if (λ r. r.token =v= text id) db.tokens) ≤ 1
    pub machines : Same (λ r. r.id) machine_row d.machines db.machines
    pub groups : Same (λ r. r.id) group_row d.groups db.groups
    pub members :
        (g m : String)
        → find (is_member (text g) (text m)) db.members
          ≡ row_of (λ _. member_row g m) (get m (members_of g d.members))
    pub modules :
        (n v : String)
        → no_at n ≡ true
        → find (is_module (text n) (text v)) db.modules
          ≡ row_of artifact_row (get (module_key n v) d.modules)

  -- A call that works, and the tables that it leaves.
  abbrev pub Done : FileData → Result TursoError (Unit {0}) × Remote Tables → Type 0
  Done d out = (out.0 ≡ ok tt) × Agrees d out.1.db

  -- The tables agree still after one of them has changed with its map.
  pub Agrees-tenants :
      {d : FileData} {db : Tables} (a : Agrees d db) (xs : GoMap Tenant) (rs : List TenantRow)
      → Same (λ r. r.id) tenant_row xs rs
      → Agrees (record d { tenants = xs }) (record db { tenants = rs })
  Agrees-tenants a xs rs same = record {
    tenants = same;
    tokens = a.tokens;
    tokens_once = a.tokens_once;
    machines = a.machines;
    groups = a.groups;
    members = a.members;
    modules = a.modules;
  }

  pub Agrees-machines :
      {d : FileData} {db : Tables} (a : Agrees d db) (xs : GoMap Machine) (rs : List MachineRow)
      → Same (λ r. r.id) machine_row xs rs
      → Agrees (record d { machines = xs }) (record db { machines = rs })
  Agrees-machines a xs rs same = record {
    tenants = a.tenants;
    tokens = a.tokens;
    tokens_once = a.tokens_once;
    machines = same;
    groups = a.groups;
    members = a.members;
    modules = a.modules;
  }

  pub Agrees-groups :
      {d : FileData} {db : Tables} (a : Agrees d db) (xs : GoMap Group) (rs : List GroupRow)
      → Same (λ r. r.id) group_row xs rs
      → Agrees (record d { groups = xs }) (record db { groups = rs })
  Agrees-groups a xs rs same = record {
    tenants = a.tenants;
    tokens = a.tokens;
    tokens_once = a.tokens_once;
    machines = a.machines;
    groups = same;
    members = a.members;
    modules = a.modules;
  }

  pub Agrees-tokens :
      {d : FileData} {db : Tables} (a : Agrees d db) (xs : GoMap EnrollToken) (rs : List TokenRow)
      → Same (λ r. r.token) token_row xs rs
      → ((id : String) → length (keep_if (λ r. r.token =v= text id) rs) ≤ 1)
      → Agrees (record d { tokens = xs }) (record db { tokens = rs })
  Agrees-tokens a xs rs same once = record {
    tenants = a.tenants;
    tokens = same;
    tokens_once = once;
    machines = a.machines;
    groups = a.groups;
    members = a.members;
    modules = a.modules;
  }

  pub Agrees-members :
      {d : FileData} {db : Tables} (a : Agrees d db) (xs : GoMap (GoMap (Unit {0})))
      (rs : List MemberRow)
      → ((g m : String)
          → find (is_member (text g) (text m)) rs
            ≡ row_of (λ _. member_row g m) (get m (members_of g xs)))
      → Agrees (record d { members = xs }) (record db { members = rs })
  Agrees-members a xs rs same = record {
    tenants = a.tenants;
    tokens = a.tokens;
    tokens_once = a.tokens_once;
    machines = a.machines;
    groups = a.groups;
    members = same;
    modules = a.modules;
  }

  pub Agrees-modules :
      {d : FileData} {db : Tables} (a : Agrees d db) (xs : GoMap ModuleArtifact)
      (rs : List ModuleRow)
      → ((n v : String)
          → no_at n ≡ true
          → find (is_module (text n) (text v)) rs ≡ row_of artifact_row (get (module_key n v) xs))
      → Agrees (record d { modules = xs }) (record db { modules = rs })
  Agrees-modules a xs rs same = record {
    tenants = a.tenants;
    tokens = a.tokens;
    tokens_once = a.tokens_once;
    machines = a.machines;
    groups = a.groups;
    members = a.members;
    modules = same;
  }
