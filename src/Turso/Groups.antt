-- ===== src/Turso/Groups.antt =====
-- internal/store/turso.go: groups and their members.
use fleet_core.Prelude.{
  String, Bool, ◌&&◌, List, [], ◌∷◌, map, ◌==◌, if◌then◌else◌, length, keep_if, ◌=s=◌, ◌<s◌,
}
use fleet_core.Prelude.Exec.{Exec, pure, raise, ◌>>=◌, ◌>>◌}
use fleet_core.Prelude.Int.{pos}
use fleet_core.Sort.{sort_slice}
use fleet_core.Api.{Group}
use fleet_core.Store.{not_found}
use fleet_core.Turso.{
  HranaValue, str, int, bool, SqlValue, i64, Hrana, Remote, Statement, done, param, TursoError,
  store, exec, ◌=v=◌,
}
use fleet_core.Turso.Table.{upsert, delete_where}
use fleet_core.Turso.Tables.{GroupRow, MemberRow, Tables, column}
use fleet_core.Turso.Machines.{Json, unmarshal_as}
use fleet_core.Turso.Modules.{text_less}
use Prim.Native.String.{◌++◌ as ◌++s◌}

-- The SET of `SaveGroup`: the tenant and the time of creation stay.
unfoldable pub merge_group : GroupRow → GroupRow → GroupRow
merge_group new r = record r {
  name = new.name;
  match_all = new.match_all;
  selector = new.selector;
  modules = new.modules;
}

unfoldable pub insert_group : Statement Tables
unfolding merge_group
insert_group vs db =
    let new : GroupRow = record {
      id = param 0 vs;
      tenant_id = param 1 vs;
      name = param 2 vs;
      match_all = param 3 vs;
      selector = param 4 vs;
      modules = param 5 vs;
      created = param 6 vs;
    } in
    (
      done [] 1,
      record db { groups = upsert (λ r. r.id =v= new.id) (merge_group new) new db.groups },
    )

unfoldable pub group_cols : GroupRow → List SqlValue
group_cols r = r.id ∷ r.tenant_id ∷ r.name ∷ r.match_all ∷ r.selector ∷ r.modules ∷ r.created ∷ []

unfoldable pub select_group : Statement Tables
unfolding group_cols
select_group vs db = (done (map group_cols (keep_if (λ r. r.id =v= param 0 vs) db.groups)) 0, db)

-- `ORDER BY name`
unfoldable pub by_name : List GroupRow → List GroupRow
unfolding ◌<s◌
by_name = sort_slice (λ a b. text_less a.name b.name)

unfoldable pub select_groups : Statement Tables
unfolding by_name group_cols
select_groups vs db = (done (map group_cols (by_name db.groups)) 0, db)

unfoldable pub select_tenant_groups : Statement Tables
unfolding by_name group_cols
select_tenant_groups vs db =
    let rows = keep_if (λ r. r.tenant_id =v= param 0 vs) db.groups in
    (done (map group_cols (by_name rows)) 0, db)

unfoldable pub delete_group_members : Statement Tables
delete_group_members vs db = (
  done [] (length (keep_if (λ r. r.group_id =v= param 0 vs) db.members)),
  record db { members = delete_where (λ r. r.group_id =v= param 0 vs) db.members },
)

unfoldable pub delete_group_row : Statement Tables
delete_group_row vs db = (
  done [] (length (keep_if (λ r. r.id =v= param 0 vs) db.groups)),
  record db { groups = delete_where (λ r. r.id =v= param 0 vs) db.groups },
)

-- `group_id=? AND machine_id=?`
abbrev pub is_member : SqlValue → SqlValue → MemberRow → Bool
is_member group_id machine_id r = (r.group_id =v= group_id) && (r.machine_id =v= machine_id)

-- `ON CONFLICT(group_id, machine_id) DO NOTHING`
unfoldable pub insert_member : Statement Tables
insert_member vs db =
    let new : MemberRow = record { group_id = param 0 vs; machine_id = param 1 vs } in
    (
      done [] 1,
      record db {
        members = upsert (is_member new.group_id new.machine_id) (λ r. r) new db.members;
      },
    )

unfoldable pub delete_member : Statement Tables
delete_member vs db =
    let hits = is_member (param 0 vs) (param 1 vs) in
    (
      done [] (length (keep_if hits db.members)),
      record db { members = delete_where hits db.members },
    )

unfoldable pub select_members : Statement Tables
select_members vs db =
    let rows = keep_if (λ r. r.group_id =v= param 0 vs) db.members in
    (done (map (λ r. r.machine_id ∷ []) rows) 0, db)

module _ (j : Json) where
  -- `MatchAll: row[3].i64() == 1`
  unfoldable pub scan_group : {S : Type 0} → List HranaValue → Exec S TursoError Group
  unfolding i64
  scan_group row = do
    let id = (column 0 row).value
    selector ← unmarshal_as j.labels ("group " ++s (id ++s " selector")) (column 4 row).value
    modules ← unmarshal_as j.specs ("group " ++s (id ++s " modules")) (column 5 row).value
    pure (record {
      id = id;
      tenant_id = (column 1 row).value;
      name = (column 2 row).value;
      match_all = i64 (column 3 row) == 1;
      selector = selector;
      modules = modules;
      created = i64 (column 6 row);
    })

  unfoldable pub scan_groups :
      {S : Type 0} → List (List HranaValue) → Exec S TursoError (List Group)
  unfolding scan_group
  scan_groups [] = pure []
  scan_groups (row ∷ rows) = do g ← scan_group row; gs ← scan_groups rows; pure (g ∷ gs)

  module _ (h : Hrana) where
    unfoldable pub save_group : Group → Exec (Remote Tables) TursoError (Unit {0})
    unfolding insert_group
    save_group g = do
      exec h insert_group (
          str g.id
          ∷ str g.tenant_id
          ∷ str g.name
          ∷ bool g.match_all
          ∷ str (j.labels.marshal g.selector)
          ∷ str (j.specs.marshal g.modules)
          ∷ int (pos g.created)
          ∷ [])
      pure tt

    unfoldable pub get_group : String → Exec (Remote Tables) TursoError Group
    unfolding select_group scan_group
    get_group id = do
      r ← exec h select_group (str id ∷ [])
      elim r.rows [ [] ↦ raise (store not_found) | row ∷ rows ↦ scan_group row ]

    unfoldable pub list_groups : String → Exec (Remote Tables) TursoError (List Group)
    unfolding select_groups select_tenant_groups scan_groups
    list_groups tenant = do
      r ←
          if tenant =s= ""
          then exec h select_groups []
          else exec h select_tenant_groups (str tenant ∷ [])
      scan_groups r.rows

module _ (h : Hrana) where
  -- The members go first.
  unfoldable pub delete_group : String → Exec (Remote Tables) TursoError (Unit {0})
  unfolding delete_group_members delete_group_row
  delete_group id = do
    exec h delete_group_members (str id ∷ [])
    exec h delete_group_row (str id ∷ [])
    pure tt

  unfoldable pub add_group_member : String → String → Exec (Remote Tables) TursoError (Unit {0})
  unfolding insert_member
  add_group_member group_id machine_id = do
    exec h insert_member (str group_id ∷ str machine_id ∷ [])
    pure tt

  unfoldable pub remove_group_member : String → String → Exec (Remote Tables) TursoError (Unit {0})
  unfolding delete_member
  remove_group_member group_id machine_id = do
    exec h delete_member (str group_id ∷ str machine_id ∷ [])
    pure tt

  unfoldable pub list_group_members : String → Exec (Remote Tables) TursoError (List String)
  unfolding select_members
  list_group_members group_id = do
    r ← exec h select_members (str group_id ∷ [])
    pure (map (λ row. (column 0 row).value) r.rows)
