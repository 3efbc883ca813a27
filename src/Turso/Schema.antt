-- ===== src/Turso/Schema.antt =====
-- internal/store/turso.go: OpenTurso and migrate, on the tables' columns. What a statement answers is SQLite's
-- documented behaviour; rows and indexes are left out.
pub mod Again
pub mod Columns
pub mod Migrated
pub mod Runs
pub mod Upgraded
use fleet_core.Prelude.{
  String, Bool, map, false, none, some, List, [], ◌∷◌, ◌++◌, any, if◌then◌else◌, ◌=s=◌,
}
use fleet_core.Prelude.Exec.{Result, ok, err, Exec, pure, ◌>>=◌, ◌>>◌}
use fleet_core.Prelude.Bytes.{ascii, contains}
use fleet_core.GoMap.{GoMap, get, put}
use fleet_core.Turso.{Hrana, Remote, Statement, done, refused, TursoError, store, message, exec}
use Prim.Native.String.{◌++◌ as ◌++s◌}

-- The columns of each table.
abbrev pub Schema : Type 0
Schema = GoMap (List String)

abbrev pub has : String → List String → Bool
has c cols = any (λ d. d =s= c) cols

-- The statements of the first list: `CREATE TABLE IF NOT EXISTS` and `CREATE INDEX IF NOT EXISTS`.
pub data Create : Type 0 where
  table : String → List String → Create
  index : String → String → Create

unfoldable pub create : Create → Statement Schema
create (table t cols) vs db = elim (get t db) [
  | none ↦ (done [] 0, put t cols db)
  | some old ↦ (done [] 0, db)
]
create (index t c) vs db = elim (get t db) [
  | none ↦ (refused ("no such table: " ++s t), db)
  | some cols ↦ if has c cols then (done [] 0, db) else (refused ("no such column: " ++s c), db)
]

-- `ALTER TABLE … ADD COLUMN …`
unfoldable pub add_column : String × String → Statement Schema
add_column (t, c) vs db = elim (get t db) [
  | none ↦ (refused ("no such table: " ++s t), db)
  | some cols ↦
      if has c cols
      then (refused ("duplicate column name: " ++s c), db)
      else (done [] 0, put t (cols ++ c ∷ []) db)
]

-- `UPDATE tokens SET uses=1 WHERE used=1 AND uses=0`
unfoldable pub count_uses : Statement Schema
count_uses vs db = elim (get "tokens" db) [
  | none ↦ (refused "no such table: tokens", db)
  | some cols ↦
      if has "uses" cols
      then if has "used" cols then (done [] 0, db) else (refused "no such column: used", db)
      else (refused "no such column: uses", db)
]

abbrev pub creates : List Create
creates =
    table "tenants" ("id" ∷ "name" ∷ "created" ∷ [])
    ∷ table "tokens" ("token" ∷ "tenant_id" ∷ "created" ∷ "used" ∷ [])
    ∷ table "machines" (
        "id" ∷ "tenant_id" ∷ "name" ∷ "enrolled" ∷ "last_seen" ∷ "inventory" ∷ "desired" ∷ "status"
        ∷ [])
    ∷ index "machines" "tenant_id"
    ∷ table "groups" ("id" ∷ "tenant_id" ∷ "name" ∷ "selector" ∷ "modules" ∷ "created" ∷ [])
    ∷ index "groups" "tenant_id"
    ∷ table "group_members" ("group_id" ∷ "machine_id" ∷ [])
    ∷ table "modules" ("name" ∷ "version" ∷ "exec" ∷ "payload" ∷ "signature" ∷ [])
    ∷ []

abbrev pub upgrades : List (String × String)
upgrades =
    ("machines", "labels")
    ∷ ("machines", "override")
    ∷ ("tokens", "labels")
    ∷ ("groups", "match_all")
    ∷ ("tokens", "expires_at")
    ∷ ("tokens", "max_uses")
    ∷ ("tokens", "uses")
    ∷ []

-- `strings.Contains(err.Error(), "duplicate column")`
abbrev pub is_duplicate : TursoError → Bool
is_duplicate (store e) = false
is_duplicate (message m) = contains (ascii "duplicate column") (ascii m)

abbrev pub forgiven : {A : Type 0} → Result TursoError A → Result TursoError (Unit {0})
forgiven (ok a) = ok tt
forgiven (err e) = if is_duplicate e then ok tt else err e

module _ (h : Hrana) where
  -- The first loop: an error ends it.
  unfoldable pub create_all : List Create → Exec (Remote Schema) TursoError (Unit {0})
  unfolding create
  create_all [] = pure tt
  create_all (c ∷ cs) = do exec h (create c) []; create_all cs

  -- The second loop goes on after a column that is there.
  unfoldable pub upgrade : Statement Schema → Exec (Remote Schema) TursoError (Unit {0})
  upgrade s ts = let (r, ts') = exec h s [] ts in (forgiven r, ts')

  unfoldable pub upgrade_all : List (Statement Schema) → Exec (Remote Schema) TursoError (Unit {0})
  unfolding upgrade
  upgrade_all [] = pure tt
  upgrade_all (s ∷ ss) = do upgrade s; upgrade_all ss

  unfoldable pub migrate : Exec (Remote Schema) TursoError (Unit {0})
  unfolding create_all upgrade_all add_column count_uses
  migrate = do create_all creates; upgrade_all (map add_column upgrades ++ count_uses ∷ [])

-- `fmt.Errorf("turso migrate: %w", err)`
abbrev pub wrapped : {A : Type 0} → Result TursoError A → Result TursoError A
wrapped (ok a) = ok a
wrapped (err (message m)) = err (message ("turso migrate: " ++s m))
wrapped (err (store e)) = err (store e)

-- `OpenTurso`, on a client that has been made
unfoldable pub open_turso : Hrana → Exec (Remote Schema) TursoError (Unit {0})
unfolding migrate
open_turso h ts = let (r, ts') = migrate h ts in (wrapped r, ts')
