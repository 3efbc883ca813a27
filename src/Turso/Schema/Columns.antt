-- ===== src/Turso/Schema/Columns.antt =====
-- internal/store/turso.go: the columns of each table after the statements of migrate.
use mathlib.Core.Path.{fun_ext}
use fleet_core.Prelude.{
  String, ◌≡◌, ap, Option, none, some, List, [], ◌∷◌, ◌++◌, arith, if◌then◌else◌, ◌=s=◌, eq_iff,
  Option-cases, Bool-cases, inl, inr,
}
use fleet_core.GoMap.{get}
use fleet_core.GoMap.Laws.{get-put}
use fleet_core.Turso.{Statement}
use fleet_core.Turso.Schema.{Schema, has, Create, table, index, create, add_column}

abbrev pub effect : Statement Schema → Schema → Schema
effect s db = (s [] db).1

abbrev pub effects : List (Statement Schema) → Schema → Schema
effects [] db = db
effects (s ∷ ss) db = effects ss (effect s db)

-- A table that is there keeps its columns.
abbrev pub stays : List String → Option (List String) → List String
stays cols none = cols
stays cols (some old) = old

abbrev pub added : String → Option (List String) → Option (List String)
added c none = none
added c (some cols) = some (if has c cols then cols else cols ++ c ∷ [])

-- The columns of every table, as a function.
abbrev pub View : Type 0
View = String → Option (List String)

abbrev pub view : Schema → View
view db u = get u db

abbrev pub create_view : Create → View → View
create_view (table t cols) v u = if t =s= u then some (stays cols (v t)) else v u
create_view (index t c) v u = v u

abbrev pub add_view : String × String → View → View
add_view (t, c) v u = if t =s= u then added c (v t) else v u

get-create_table :
    (t : String) (cols : List String) (db : Schema) (u : String)
    → get u (effect (create (table t cols)) db) ≡ create_view (table t cols) (view db) u
unfolding create
get-create_table t cols db u = elim (Option-cases (get t db)) [
  | inl e ↦ rw (e, effect, create) (get-put t u cols db)
  | inr (old, e) ↦ rw (e, effect, create) (ground (arith, eq_iff t u, e))
]

create_index-same : (t c : String) (db : Schema) → effect (create (index t c)) db ≡ db
unfolding create
create_index-same t c db = ground arith

pub view-create : (c : Create) (db : Schema) → view (effect (create c) db) ≡ create_view c (view db)
view-create (table t cols) db = fun_ext λ u. get-create_table t cols db u
view-create (index t c) db = ap view (create_index-same t c db)

get-add_column :
    (t c : String) (db : Schema) (u : String)
    → get u (effect (add_column (t, c)) db) ≡ add_view (t, c) (view db) u
unfolding add_column
get-add_column t c db u = elim (Option-cases (get t db)) [
  | inl e ↦ rw (e, effect, add_column) (ground (arith, eq_iff t u, e))
  | inr (cols, e) ↦
      rw (e, effect, add_column)
        (elim (Bool-cases (has c cols)) [
          | inl there ↦ rw there (ground (arith, eq_iff t u, e))
          | inr absent ↦ rw absent (get-put t u (cols ++ c ∷ []) db)
        ])
]

pub view-add_column :
    (e : String × String) (db : Schema) → view (effect (add_column e) db) ≡ add_view e (view db)
view-add_column (t, c) db = fun_ext λ u. get-add_column t c db u
