-- ===== src/Turso/Agrees/Machines.antt =====
-- internal/store/turso.go: what the calls on machines do to the tables, against the FileStore's maps.
use fleet_core.Prelude.{
  ℕ, String, ◌≡◌, refl, ap, ◌∙◌, none, some, List, [], ◌∷◌, map, All, arith, length, keep_if,
}
use fleet_core.Prelude.Exec.{err, pure, bind_of_ok, ◌>>=◌}
use fleet_core.Prelude.Int.{pos}
use fleet_core.GoMap.{get, put}
use fleet_core.Api.{Machine, Inventory, ModuleStatus}
use fleet_core.Store.{FileData, not_found}
use fleet_core.Turso.{
  str, int, text, Hrana, IsHrana, delivered, Remote, store, exec, ◌=v=◌, GoValue, Fits, Statement,
  cell_of, done,
}
use fleet_core.Turso.Delivered.{exec-done}
use fleet_core.Turso.Table.{update_where}
use fleet_core.Turso.Table.Laws.{length-find-some, length-find-none, update_where-none}
use fleet_core.Turso.Tables.{MachineRow, Tables}
use fleet_core.Turso.Machines.{
  Json, merge_machine, insert_machine, update_inventory, update_status, save_machine,
  touch_heartbeat, set_status, found_some,
}
use fleet_core.Turso.Same.{Same-upsert, Same-update, Same-key, row_of}
use fleet_core.Turso.Agrees.{Agrees-machines, Agrees, Done, machine_row}

merged :
    (j : Json) (old m : Machine)
    → text old.id ≡ text m.id
    → old.tenant_id ≡ m.tenant_id
    → old.enrolled ≡ m.enrolled
    → merge_machine (machine_row j m) (machine_row j old) ≡ machine_row j m
unfolding merge_machine
merged j old m k t e = ground (arith, k, t, e)

abbrev pub machine_args : Json → Machine → List GoValue
machine_args j m =
    str m.id
    ∷ str m.tenant_id
    ∷ str m.name
    ∷ str (j.labels.marshal m.labels)
    ∷ str (j.specs.marshal m.override)
    ∷ int (pos m.enrolled)
    ∷ int (pos m.last_seen)
    ∷ str (j.inventory.marshal m.inventory)
    ∷ str (j.desired.marshal m.desired)
    ∷ str (j.status.marshal m.status)
    ∷ []

abbrev pub inventory_args : Json → String → ℕ → Inventory → List GoValue
inventory_args j id last_seen inv =
    int (pos last_seen) ∷ str (j.inventory.marshal inv) ∷ str id ∷ []

abbrev pub status_args : Json → String → ℕ → List ModuleStatus → List GoValue
status_args j id last_seen status =
    int (pos last_seen) ∷ str (j.status.marshal status) ∷ str id ∷ []

module _ (j : Json) (h : Hrana) (hrana : IsHrana h) {d : FileData} (ts : Remote Tables)
    (a : Agrees j d ts.db) (works : (n : ℕ) → ts.fates n ≡ delivered) where
  -- A machine that keeps its tenant and its time of enrollment is stored as it is.
  pub save_machine-Agrees :
      (m : Machine)
      → All Fits (machine_args j m)
      → ((old : Machine)
          → get m.id d.machines ≡ some old
          → (old.tenant_id ≡ m.tenant_id) × (old.enrolled ≡ m.enrolled))
      → Done j (record d { machines = put m.id m d.machines }) (save_machine j h m ts)
  unfolding save_machine insert_machine merge_machine
  save_machine-Agrees m f keeps =
      rw
        (bind_of_ok (exec h insert_machine _) (λ _. pure tt) ts _ _
          (exec-done h hrana insert_machine (machine_args j m) ts [] 1 _ f (works ts.calls) refl))
        (
          refl,
          Agrees-machines j a (put m.id m d.machines) _ (
              Same-upsert (λ r. r.id) (machine_row j) d.machines ts.db.machines a.machines m.id m
                (merge_machine (machine_row j m)) refl (λ r. refl)
                (λ old there.
                  let k =
                    Same-key (λ r. r.id) (machine_row j) d.machines ts.db.machines a.machines m.id
                      there in
                  merged j old m k (keeps old there).0 (keeps old there).1)),
        )

  -- An UPDATE of one machine's columns.
  module _ (sql : Statement Tables) (args : List GoValue) (fits : All Fits args) (id : String)
      (f : MachineRow → MachineRow)
      (runs : sql (map cell_of args) ts.db ≡ (
        done [] (length (keep_if (λ r. r.id =v= text id) ts.db.machines)),
        record ts.db { machines = update_where (λ r. r.id =v= text id) f ts.db.machines },
      )) where
    updated :
        (m m' : Machine)
        → get id d.machines ≡ some m
        → ((r : MachineRow) → (f r).id ≡ r.id)
        → f (machine_row j m) ≡ machine_row j m'
        → Done j
            (record d { machines = put id m' d.machines })
            ((exec h sql args >>= found_some) ts)
    updated m m' there keeps sets =
        let found = a.machines id ∙ ap (row_of (machine_row j)) there in
        rw
          (bind_of_ok (exec h sql args) found_some ts _ _
            (exec-done h hrana sql args ts [] _ _ fits (works ts.calls) runs))
          (rw (length-find-some (λ r. r.id =v= text id) ts.db.machines found) (
            refl,
            Agrees-machines j a _ _ (
                Same-update (λ r. r.id) (machine_row j) d.machines ts.db.machines a.machines id m' m
                  f there keeps sets),
          ))

    not_updated :
        get id d.machines ≡ none
        → (((exec h sql args >>= found_some) ts).0 ≡ err (store not_found))
          × Agrees j d ((exec h sql args >>= found_some) ts).1.db
    not_updated absent =
        let found = a.machines id ∙ ap (row_of (machine_row j)) absent in
        rw
          (bind_of_ok (exec h sql args) found_some ts _ _
            (exec-done h hrana sql args ts [] _ _ fits (works ts.calls) runs))
          (rw (length-find-none (λ r. r.id =v= text id) ts.db.machines found)
            (refl, rw (update_where-none (λ r. r.id =v= text id) f ts.db.machines found) a))

  -- A heartbeat or a status of a known machine sets its columns.
  pub touch_heartbeat-Agrees :
      (id : String) (last_seen : ℕ) (inv : Inventory) (m : Machine)
      → All Fits (inventory_args j id last_seen inv)
      → get id d.machines ≡ some m
      → Done j
          (record d {
            machines = put id (record m { last_seen = last_seen; inventory = inv }) d.machines;
          })
          (touch_heartbeat j h id last_seen inv ts)
  unfolding touch_heartbeat update_inventory
  touch_heartbeat-Agrees id last_seen inv m l there =
      updated update_inventory _ l id _ refl m _ there (λ r. refl) refl

  pub set_status-Agrees :
      (id : String) (last_seen : ℕ) (status : List ModuleStatus) (m : Machine)
      → All Fits (status_args j id last_seen status)
      → get id d.machines ≡ some m
      → Done j
          (record d {
            machines = put id (record m { last_seen = last_seen; status = status }) d.machines;
          })
          (set_status j h id last_seen status ts)
  unfolding set_status update_status
  set_status-Agrees id last_seen status m l there =
      updated update_status _ l id _ refl m _ there (λ r. refl) refl

  -- Both answer that an unknown machine is not found, and change no table.
  pub touch_heartbeat-missing :
      (id : String) (last_seen : ℕ) (inv : Inventory)
      → All Fits (inventory_args j id last_seen inv)
      → get id d.machines ≡ none
      → ((touch_heartbeat j h id last_seen inv ts).0 ≡ err (store not_found))
        × Agrees j d (touch_heartbeat j h id last_seen inv ts).1.db
  unfolding touch_heartbeat update_inventory
  touch_heartbeat-missing id last_seen inv l absent =
      not_updated update_inventory _ l id _ refl absent

  pub set_status-missing :
      (id : String) (last_seen : ℕ) (status : List ModuleStatus)
      → All Fits (status_args j id last_seen status)
      → get id d.machines ≡ none
      → ((set_status j h id last_seen status ts).0 ≡ err (store not_found))
        × Agrees j d (set_status j h id last_seen status ts).1.db
  unfolding set_status update_status
  set_status-missing id last_seen status l absent = not_updated update_status _ l id _ refl absent
