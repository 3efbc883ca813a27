-- ===== src/Store/Modules.antt =====
-- internal/store/store.go: module artifacts, under the key name@version.
use fleet_core.Prelude.{String, List, [], map}
use fleet_core.Prelude.Exec.{Exec, gets}
use Prim.Native.String.{◌++◌ as ◌++s◌}
use fleet_core.GoMap.{get, put, delete, values}
use fleet_core.Api.{ModuleArtifact}
use fleet_core.Store.{StoreError, FileStore, commit, or_not_found}

unfoldable pub module_key : String → String → String
module_key name version = name ++s ("@" ++s version)

unfoldable pub save_module : ModuleArtifact → Exec FileStore StoreError (Unit {0})
save_module a = commit (λ d. record d { modules = put (module_key a.name a.version) a d.modules })

unfoldable pub delete_module : String → String → Exec FileStore StoreError (Unit {0})
delete_module name version =
    commit (λ d. record d { modules = delete (module_key name version) d.modules })

unfoldable pub get_module : String → String → Exec FileStore StoreError ModuleArtifact
get_module name version fs = or_not_found (get (module_key name version) fs.contents.modules) fs

-- Listing does not ship payloads.
unfoldable pub without_payload : ModuleArtifact → ModuleArtifact
without_payload a = record a { payload = []; signature = [] }

unfoldable pub list_modules : Exec FileStore StoreError (List ModuleArtifact)
unfolding without_payload
list_modules = gets (λ fs. map without_payload (values fs.contents.modules))
