-- ===== src/Turso/Retry/Statements.antt =====
-- internal/store/turso.go: each statement that writes, but the one of ConsumeToken, leaves the tables as
-- they are when it runs again with the same values.
use fleet_core.Prelude.{◌≡◌, refl, ap, true, ◌&&◌, List, Bool-cases, inl, inr, any}
use fleet_core.Turso.{param, SqlValue, ◌=v=◌}
use fleet_core.Turso.Tables.{TokenRow, Tables}
use fleet_core.Turso.Machines.{
  insert_machine, delete_machine_members, delete_machine_row, update_inventory, update_status,
  merge_machine,
}
use fleet_core.Turso.Accounts.{insert_tenant, insert_token}
use fleet_core.Turso.Modules.{insert_module, delete_module_row}
use fleet_core.Turso.Groups.{
  insert_group, insert_member, delete_member, delete_group_members, delete_group_row, merge_group,
}
use fleet_core.Turso.Table.Twice.{
  delete_where-delete_where, update_where-update_where, upsert-upsert, any-upsert,
}

pub insert_tenant-twice :
    (vs : List SqlValue) (db : Tables)
    → (param 0 vs =v= param 0 vs) ≡ true
    → (insert_tenant vs (insert_tenant vs db).1).1 ≡ (insert_tenant vs db).1
unfolding insert_tenant
insert_tenant-twice vs db e =
    ap (λ rs. record db { tenants = rs }) (upsert-upsert _ _ _ db.tenants e refl (λ r k. (k, refl)))

pub insert_machine-twice :
    (vs : List SqlValue) (db : Tables)
    → (param 0 vs =v= param 0 vs) ≡ true
    → (insert_machine vs (insert_machine vs db).1).1 ≡ (insert_machine vs db).1
unfolding insert_machine merge_machine
insert_machine-twice vs db e =
    ap (λ rs. record db { machines = rs })
      (upsert-upsert _ _ _ db.machines e refl (λ r k. (k, refl)))

pub insert_group-twice :
    (vs : List SqlValue) (db : Tables)
    → (param 0 vs =v= param 0 vs) ≡ true
    → (insert_group vs (insert_group vs db).1).1 ≡ (insert_group vs db).1
unfolding insert_group merge_group
insert_group-twice vs db e =
    ap (λ rs. record db { groups = rs }) (upsert-upsert _ _ _ db.groups e refl (λ r k. (k, refl)))

pub insert_module-twice :
    (vs : List SqlValue) (db : Tables)
    → ((param 0 vs =v= param 0 vs) && (param 1 vs =v= param 1 vs)) ≡ true
    → (insert_module vs (insert_module vs db).1).1 ≡ (insert_module vs db).1
unfolding insert_module
insert_module-twice vs db e =
    ap (λ rs. record db { modules = rs }) (upsert-upsert _ _ _ db.modules e refl (λ r k. (k, refl)))

pub insert_member-twice :
    (vs : List SqlValue) (db : Tables)
    → ((param 0 vs =v= param 0 vs) && (param 1 vs =v= param 1 vs)) ≡ true
    → (insert_member vs (insert_member vs db).1).1 ≡ (insert_member vs db).1
unfolding insert_member
insert_member-twice vs db e =
    ap (λ rs. record db { members = rs }) (upsert-upsert _ _ _ db.members e refl (λ r k. (k, refl)))

pub delete_machine_members-twice :
    (vs : List SqlValue) (db : Tables)
    → (delete_machine_members vs (delete_machine_members vs db).1).1
      ≡ (delete_machine_members vs db).1
unfolding delete_machine_members
delete_machine_members-twice vs db =
    ap (λ rs. record db { members = rs }) (delete_where-delete_where _ db.members)

pub delete_machine_row-twice :
    (vs : List SqlValue) (db : Tables)
    → (delete_machine_row vs (delete_machine_row vs db).1).1 ≡ (delete_machine_row vs db).1
unfolding delete_machine_row
delete_machine_row-twice vs db =
    ap (λ rs. record db { machines = rs }) (delete_where-delete_where _ db.machines)

pub delete_group_members-twice :
    (vs : List SqlValue) (db : Tables)
    → (delete_group_members vs (delete_group_members vs db).1).1 ≡ (delete_group_members vs db).1
unfolding delete_group_members
delete_group_members-twice vs db =
    ap (λ rs. record db { members = rs }) (delete_where-delete_where _ db.members)

pub delete_group_row-twice :
    (vs : List SqlValue) (db : Tables)
    → (delete_group_row vs (delete_group_row vs db).1).1 ≡ (delete_group_row vs db).1
unfolding delete_group_row
delete_group_row-twice vs db =
    ap (λ rs. record db { groups = rs }) (delete_where-delete_where _ db.groups)

pub delete_module_row-twice :
    (vs : List SqlValue) (db : Tables)
    → (delete_module_row vs (delete_module_row vs db).1).1 ≡ (delete_module_row vs db).1
unfolding delete_module_row
delete_module_row-twice vs db =
    ap (λ rs. record db { modules = rs }) (delete_where-delete_where _ db.modules)

pub delete_member-twice :
    (vs : List SqlValue) (db : Tables)
    → (delete_member vs (delete_member vs db).1).1 ≡ (delete_member vs db).1
unfolding delete_member
delete_member-twice vs db =
    ap (λ rs. record db { members = rs }) (delete_where-delete_where _ db.members)

pub update_inventory-twice :
    (vs : List SqlValue) (db : Tables)
    → (update_inventory vs (update_inventory vs db).1).1 ≡ (update_inventory vs db).1
unfolding update_inventory
update_inventory-twice vs db =
    ap (λ rs. record db { machines = rs }) (update_where-update_where _ _ db.machines (λ r. refl))

pub update_status-twice :
    (vs : List SqlValue) (db : Tables)
    → (update_status vs (update_status vs db).1).1 ≡ (update_status vs db).1
unfolding update_status
update_status-twice vs db =
    ap (λ rs. record db { machines = rs }) (update_where-update_where _ _ db.machines (λ r. refl))

-- A second row of a token is refused.
pub insert_token-twice :
    (vs : List SqlValue) (db : Tables)
    → (param 0 vs =v= param 0 vs) ≡ true
    → (insert_token vs (insert_token vs db).1).1 ≡ (insert_token vs db).1
unfolding insert_token
insert_token-twice vs db e = elim (Bool-cases (any (λ r. r.token =v= param 0 vs) db.tokens)) [
  | inl there ↦ rw (there, there) refl
  | inr absent ↦
      let new : TokenRow = record {
        token = param 0 vs;
        tenant_id = param 1 vs;
        labels = param 2 vs;
        created = param 3 vs;
        expires_at = param 4 vs;
        max_uses = param 5 vs;
        uses = param 6 vs;
        used = param 7 vs;
      } in
      rw absent (rw (any-upsert (λ r. r.token =v= param 0 vs) new db.tokens e) refl)
]
