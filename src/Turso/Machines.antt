-- ===== src/Turso/Machines.antt =====
-- internal/store/turso.go: machines. Their nested parts are columns of JSON.
use fleet_core.Prelude.{
  ℕ, String, Bool, List, [], ◌∷◌, map, ◌==◌, if◌then◌else◌, length, keep_if, ◌=s=◌,
}
use fleet_core.Prelude.Exec.{ok, err, Exec, pure, raise, ◌>>=◌, ◌>>◌}
use fleet_core.Prelude.Int.{pos}
use fleet_core.GoMap.{GoMap}
use fleet_core.Sort.{sort_slice}
use fleet_core.Api.{Machine, Inventory, ModuleSpec, ModuleStatus, DesiredState}
use fleet_core.Store.{not_found}
use fleet_core.Turso.{
  HranaValue, HranaResult, str, int, SqlValue, i64, Hrana, Remote, Statement, done, param,
  TursoError, store, message, exec, less, ◌=v=◌,
}
use fleet_core.Turso.Table.{upsert, update_where, delete_where}
use fleet_core.Turso.Tables.{MachineRow, Tables, Codec, column}
use Prim.Native.String.{◌++◌ as ◌++s◌}

-- The JSON of each nested part.
pub record Json : Type 0 where
  pub labels : Codec (GoMap String)
  pub specs : Codec (List ModuleSpec)
  pub inventory : Codec Inventory
  pub desired : Codec DesiredState
  pub status : Codec (List ModuleStatus)

-- `json.Unmarshal(…)` with the error wrapped under a name.
abbrev pub unmarshal_as : {S A : Type 0} → Codec A → String → String → Exec S TursoError A
unmarshal_as codec what s st = elim (codec.unmarshal s) [
  | ok a ↦ (ok a, st)
  | err e ↦ (err (message (what ++s (": " ++s e))), st)
]

-- The SET of `SaveMachine`: the tenant and the time of enrollment stay.
unfoldable pub merge_machine : MachineRow → MachineRow → MachineRow
merge_machine new r = record r {
  name = new.name;
  labels = new.labels;
  override = new.override;
  last_seen = new.last_seen;
  inventory = new.inventory;
  desired = new.desired;
  status = new.status;
}

unfoldable pub insert_machine : Statement Tables
unfolding merge_machine
insert_machine vs db =
    let new : MachineRow = record {
      id = param 0 vs;
      tenant_id = param 1 vs;
      name = param 2 vs;
      labels = param 3 vs;
      override = param 4 vs;
      enrolled = param 5 vs;
      last_seen = param 6 vs;
      inventory = param 7 vs;
      desired = param 8 vs;
      status = param 9 vs;
    } in
    (
      done [] 1,
      record db { machines = upsert (λ r. r.id =v= new.id) (merge_machine new) new db.machines },
    )

-- `machineCols`
unfoldable pub machine_cols : MachineRow → List SqlValue
machine_cols r =
    r.id ∷ r.tenant_id ∷ r.name ∷ r.labels ∷ r.override ∷ r.enrolled ∷ r.last_seen ∷ r.inventory
    ∷ r.desired ∷ r.status ∷ []

unfoldable pub select_machine : Statement Tables
unfolding machine_cols
select_machine vs db =
    (done (map machine_cols (keep_if (λ r. r.id =v= param 0 vs) db.machines)) 0, db)

-- `ORDER BY enrolled`
unfoldable pub by_enrolled : List MachineRow → List MachineRow
unfolding less
by_enrolled = sort_slice (λ a b. less a.enrolled b.enrolled)

unfoldable pub select_machines : Statement Tables
unfolding by_enrolled machine_cols
select_machines vs db = (done (map machine_cols (by_enrolled db.machines)) 0, db)

-- `WHERE tenant_id=? ORDER BY enrolled`
unfoldable pub select_tenant_machines : Statement Tables
unfolding by_enrolled machine_cols
select_tenant_machines vs db =
    let rows = keep_if (λ r. r.tenant_id =v= param 0 vs) db.machines in
    (done (map machine_cols (by_enrolled rows)) 0, db)

unfoldable pub delete_machine_members : Statement Tables
delete_machine_members vs db = (
  done [] (length (keep_if (λ r. r.machine_id =v= param 0 vs) db.members)),
  record db { members = delete_where (λ r. r.machine_id =v= param 0 vs) db.members },
)

unfoldable pub delete_machine_row : Statement Tables
delete_machine_row vs db = (
  done [] (length (keep_if (λ r. r.id =v= param 0 vs) db.machines)),
  record db { machines = delete_where (λ r. r.id =v= param 0 vs) db.machines },
)

-- `UPDATE machines SET last_seen=?, inventory=? WHERE id=?`
unfoldable pub update_inventory : Statement Tables
update_inventory vs db =
    let hits : MachineRow → Bool = λ r. r.id =v= param 2 vs in
    let set : MachineRow → MachineRow =
      λ r. record r { last_seen = param 0 vs; inventory = param 1 vs } in
    (
      done [] (length (keep_if hits db.machines)),
      record db { machines = update_where hits set db.machines },
    )

-- `UPDATE machines SET last_seen=?, status=? WHERE id=?`
unfoldable pub update_status : Statement Tables
update_status vs db =
    let hits : MachineRow → Bool = λ r. r.id =v= param 2 vs in
    let set : MachineRow → MachineRow =
      λ r. record r { last_seen = param 0 vs; status = param 1 vs } in
    (
      done [] (length (keep_if hits db.machines)),
      record db { machines = update_where hits set db.machines },
    )

-- `if r.AffectedRowCount == 0 { return ErrNotFound }`
abbrev pub found_some : {S : Type 0} → HranaResult → Exec S TursoError (Unit {0})
found_some r = if r.affected_row_count == 0 then raise (store not_found) else pure tt

module _ (j : Json) where
  unfoldable pub scan_machine : {S : Type 0} → List HranaValue → Exec S TursoError Machine
  unfolding i64
  scan_machine row = do
    let id = (column 0 row).value
    labels ← unmarshal_as j.labels ("machine " ++s (id ++s " labels")) (column 3 row).value
    override ← unmarshal_as j.specs ("machine " ++s (id ++s " override")) (column 4 row).value
    inventory ← unmarshal_as j.inventory ("machine " ++s (id ++s " inventory")) (column 7 row).value
    desired ← unmarshal_as j.desired ("machine " ++s (id ++s " desired")) (column 8 row).value
    status ← unmarshal_as j.status ("machine " ++s (id ++s " status")) (column 9 row).value
    pure (record {
      id = id;
      tenant_id = (column 1 row).value;
      name = (column 2 row).value;
      labels = labels;
      enrolled = i64 (column 5 row);
      last_seen = i64 (column 6 row);
      inventory = inventory;
      override = override;
      desired = desired;
      status = status;
    })

  -- The loop over the rows, up to the first that does not scan.
  unfoldable pub scan_machines :
      {S : Type 0} → List (List HranaValue) → Exec S TursoError (List Machine)
  unfolding scan_machine
  scan_machines [] = pure []
  scan_machines (row ∷ rows) = do m ← scan_machine row; ms ← scan_machines rows; pure (m ∷ ms)

  module _ (h : Hrana) where
    unfoldable pub save_machine : Machine → Exec (Remote Tables) TursoError (Unit {0})
    unfolding insert_machine
    save_machine m = do
      exec h insert_machine (
          str m.id
          ∷ str m.tenant_id
          ∷ str m.name
          ∷ str (j.labels.marshal m.labels)
          ∷ str (j.specs.marshal m.override)
          ∷ int (pos m.enrolled)
          ∷ int (pos m.last_seen)
          ∷ str (j.inventory.marshal m.inventory)
          ∷ str (j.desired.marshal m.desired)
          ∷ str (j.status.marshal m.status)
          ∷ [])
      pure tt

    unfoldable pub get_machine : String → Exec (Remote Tables) TursoError Machine
    unfolding select_machine scan_machine
    get_machine id = do
      r ← exec h select_machine (str id ∷ [])
      elim r.rows [ [] ↦ raise (store not_found) | row ∷ rows ↦ scan_machine row ]

    unfoldable pub list_machines : String → Exec (Remote Tables) TursoError (List Machine)
    unfolding select_machines select_tenant_machines scan_machines
    list_machines tenant = do
      r ←
          if tenant =s= ""
          then exec h select_machines []
          else exec h select_tenant_machines (str tenant ∷ [])
      scan_machines r.rows

    unfoldable pub touch_heartbeat :
        String → ℕ → Inventory → Exec (Remote Tables) TursoError (Unit {0})
    unfolding update_inventory
    touch_heartbeat id last_seen inv = do
      r ←
          exec h update_inventory
            (int (pos last_seen) ∷ str (j.inventory.marshal inv) ∷ str id ∷ [])
      found_some r

    unfoldable pub set_status :
        String → ℕ → List ModuleStatus → Exec (Remote Tables) TursoError (Unit {0})
    unfolding update_status
    set_status id last_seen status = do
      r ← exec h update_status (int (pos last_seen) ∷ str (j.status.marshal status) ∷ str id ∷ [])
      found_some r

-- The members go first.
unfoldable pub delete_machine : Hrana → String → Exec (Remote Tables) TursoError (Unit {0})
unfolding delete_machine_members delete_machine_row
delete_machine h id = do
  exec h delete_machine_members (str id ∷ [])
  exec h delete_machine_row (str id ∷ [])
  pure tt
