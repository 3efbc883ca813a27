-- ===== src/Store.antt =====
-- internal/store/store.go: the FileStore. `contents` is `fs.data` and `disk` the JSON file, read as
-- the data that it decodes to. A call holds the mutex from its first line to its last, so
-- each is one step. Whether the n-th write of the file works is the environment's choice, `io n`.
pub mod Tokens
pub mod Machines
pub mod Modules
pub mod Groups
pub mod Writes
use fleet_core.Prelude.{ℕ, ◌+◌, String, Bool, Option, none, some, List, [], if◌then◌else◌}
use fleet_core.Prelude.Exec.{Result, ok, err, Exec, pure, raise, gets, ◌>>=◌, ◌>>◌, modify}
use fleet_core.GoMap.{GoMap, get, put, values}
use fleet_core.Api.{Tenant, EnrollToken, Machine, ModuleArtifact, Group}

pub data StoreError : Type 0 where
  not_found token_used io_failed corrupt : StoreError

pub record FileData : Type 0 where
  pub tenants : GoMap Tenant
  pub tokens : GoMap EnrollToken
  pub machines : GoMap Machine
  pub modules : GoMap ModuleArtifact
  pub groups : GoMap Group
  pub members : GoMap (GoMap (Unit {0}))

pub record FileStore : Type 0 where
  pub contents : FileData
  pub disk : Option FileData
  pub io : ℕ → Bool
  pub writes : ℕ

abbrev pub no_data : FileData
no_data = record {
  tenants = [];
  tokens = [];
  machines = [];
  modules = [];
  groups = [];
  members = [];
}

-- What `os.ReadFile` and `json.Unmarshal` find at the path.
pub data FileRead : Type 0 where
  missing unreadable malformed : FileRead
  found : FileData → FileRead

-- A `map` that the file lacks is an empty one here, so the two nil checks have no line.
unfoldable pub open_file : FileRead → Result StoreError FileData
open_file missing = ok no_data
open_file unreadable = err io_failed
open_file malformed = err corrupt
open_file (found d) = ok d

-- A temporary file is written and renamed over the old one: a failure at any point leaves the old.
unfoldable pub flush : Exec FileStore StoreError (Unit {0})
flush fs =
    if fs.io fs.writes
    then (ok tt, record fs { disk = some fs.contents; writes = fs.writes + 1 })
    else (err io_failed, record fs { writes = fs.writes + 1 })

-- `fs.data… = …; return fs.flush()`: what memory holds is changed even if the write fails.
unfoldable pub commit : (FileData → FileData) → Exec FileStore StoreError (Unit {0})
unfolding flush
commit f = do modify (λ fs. record fs { contents = f fs.contents }); flush

-- A value that is read from a map, or `ErrNotFound`.
abbrev pub or_not_found : {A : Type 0} → Option A → Exec FileStore StoreError A
or_not_found none = raise not_found
or_not_found (some a) = pure a

unfoldable pub save_tenant : Tenant → Exec FileStore StoreError (Unit {0})
save_tenant t = commit (λ d. record d { tenants = put t.id t d.tenants })

unfoldable pub get_tenant : String → Exec FileStore StoreError Tenant
get_tenant id fs = or_not_found (get id fs.contents.tenants) fs

unfoldable pub list_tenants : Exec FileStore StoreError (List Tenant)
list_tenants = gets (λ fs. values fs.contents.tenants)

-- The process ends and starts again: memory is what the file holds.
unfoldable pub restart : FileStore → FileStore
restart fs = record fs { contents = elim fs.disk [ none ↦ no_data | some d ↦ d ] }
