-- ===== src/Turso/Modules.antt =====
-- internal/store/turso.go: module artifacts, by name and version.
use fleet_core.Prelude.{
  String, Bool, false, ◌&&◌, List, [], ◌∷◌, map, if◌then◌else◌, length, keep_if, ◌<s◌,
}
use fleet_core.Prelude.Exec.{Exec, pure, raise, ◌>>=◌, ◌>>◌}
use fleet_core.Sort.{sort_slice}
use fleet_core.Api.{ModuleArtifact}
use fleet_core.Store.{not_found}
use fleet_core.Turso.{
  HranaValue, str, bytes, SqlValue, text, blob_bytes, Hrana, Remote, Statement, done, param,
  TursoError, store, exec, ◌=v=◌,
}
use fleet_core.Turso.Table.{upsert, delete_where}
use fleet_core.Turso.Tables.{ModuleRow, Tables, column}

-- `name=? AND version=?`
abbrev pub is_module : SqlValue → SqlValue → ModuleRow → Bool
is_module name version r = (r.name =v= name) && (r.version =v= version)

unfoldable pub insert_module : Statement Tables
insert_module vs db =
    let new : ModuleRow = record {
      name = param 0 vs;
      version = param 1 vs;
      exec = param 2 vs;
      payload = param 3 vs;
      signature = param 4 vs;
    } in
    let merge : ModuleRow → ModuleRow =
      λ r. record r { exec = new.exec; payload = new.payload; signature = new.signature } in
    (
      done [] 1,
      record db { modules = upsert (is_module new.name new.version) merge new db.modules },
    )

unfoldable pub select_module : Statement Tables
select_module vs db =
    let rows = keep_if (is_module (param 0 vs) (param 1 vs)) db.modules in
    (done (map (λ r. r.name ∷ r.version ∷ r.exec ∷ r.payload ∷ r.signature ∷ []) rows) 0, db)

unfoldable pub delete_module_row : Statement Tables
delete_module_row vs db =
    let hits = is_module (param 0 vs) (param 1 vs) in
    (
      done [] (length (keep_if hits db.modules)),
      record db { modules = delete_where hits db.modules },
    )

-- `<` on the texts of two cells.
abbrev pub text_less : SqlValue → SqlValue → Bool
text_less (text s) (text t) = s <s t
text_less _ _ = false

-- `SELECT name, version, exec FROM modules ORDER BY name, version`
unfoldable pub select_modules : Statement Tables
unfolding ◌<s◌
select_modules vs db =
    let before : ModuleRow → ModuleRow → Bool =
      λ a b. if a.name =v= b.name then text_less a.version b.version else text_less a.name b.name in
    (done (map (λ r. r.name ∷ r.version ∷ r.exec ∷ []) (sort_slice before db.modules)) 0, db)

unfoldable pub scan_module : List HranaValue → ModuleArtifact
unfolding blob_bytes
scan_module row = record {
  name = (column 0 row).value;
  version = (column 1 row).value;
  exec = (column 2 row).value;
  payload = blob_bytes (column 3 row);
  signature = blob_bytes (column 4 row);
}

unfoldable pub scan_listed : List HranaValue → ModuleArtifact
scan_listed row = record {
  name = (column 0 row).value;
  version = (column 1 row).value;
  exec = (column 2 row).value;
  payload = [];
  signature = [];
}

module _ (h : Hrana) where
  unfoldable pub save_module : ModuleArtifact → Exec (Remote Tables) TursoError (Unit {0})
  unfolding insert_module
  save_module a = do
    exec h insert_module
        (str a.name ∷ str a.version ∷ str a.exec ∷ bytes a.payload ∷ bytes a.signature ∷ [])
    pure tt

  unfoldable pub get_module : String → String → Exec (Remote Tables) TursoError ModuleArtifact
  unfolding select_module scan_module
  get_module name version = do
    r ← exec h select_module (str name ∷ str version ∷ [])
    elim r.rows [ [] ↦ raise (store not_found) | row ∷ rows ↦ pure (scan_module row) ]

  unfoldable pub delete_module : String → String → Exec (Remote Tables) TursoError (Unit {0})
  unfolding delete_module_row
  delete_module name version = do exec h delete_module_row (str name ∷ str version ∷ []); pure tt

  unfoldable pub list_modules : Exec (Remote Tables) TursoError (List ModuleArtifact)
  unfolding select_modules scan_listed
  list_modules = do r ← exec h select_modules []; pure (map scan_listed r.rows)
