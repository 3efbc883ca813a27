-- ===== src/Turso/Schema/Again.antt =====
-- internal/store/turso.go: what migrate leaves, and the migration of the next start.
use fleet_core.Prelude.{
  String, ◌≡◌, refl, sym, ap, ◌∙◌, subst, true, Option, none, some, List, [], ◌∷◌, arith, ◌=s=◌,
  eq_iff, Option-cases, Bool-cases, inl, inr, All, is_some, map,
}
use fleet_core.Prelude.Exec.{Result, ok}
use fleet_core.GoMap.{get}
use fleet_core.Turso.{Hrana, IsHrana, Remote, TursoError}
use fleet_core.Turso.Schema.{
  Schema, has, Create, table, index, create, add_column, count_uses, creates, upgrades, migrate,
  open_turso, wrapped,
}
use fleet_core.Turso.Schema.Columns.{effect, effects, stays, View, view, create_view}
use fleet_core.Turso.Schema.Upgraded.{
  has_in, tables, IsEarlier, Covers, add_views-keeps, create_views, migrated-Covers,
}
use fleet_core.Turso.Schema.Runs.{Delivers, run_list, run_list-fates}
use fleet_core.Turso.Schema.Migrated.{
  first, second, finished, count_uses-same, view-finished, migrate-run_list, run_list-finished,
}

has_in-is_some : (c : String) (o : Option (List String)) → has_in c o ≡ true → is_some o ≡ true
has_in-is_some c none e = cc
has_in-is_some c (some cols) e = refl

-- A statement whose table and column are there changes nothing.
create_table-same :
    (t : String) (cols : List String) (db : Schema)
    → is_some (get t db) ≡ true
    → effect (create (table t cols)) db ≡ db
unfolding create
create_table-same t cols db e = ground (arith, e)

create_index-same : (t c : String) (db : Schema) → effect (create (index t c)) db ≡ db
unfolding create
create_index-same t c db = ground arith

add_column-same :
    (t c : String) (db : Schema) → has_in c (view db t) ≡ true → effect (add_column (t, c)) db ≡ db
unfolding add_column
add_column-same t c db p = elim (Option-cases (get t db)) [
  | inl e ↦ rw (e, effect, add_column) refl
  | inr (cols, e) ↦ ground (arith, e, p)
]

creates-same :
    (cs : List Create) (db : Schema)
    → All (λ e. is_some (view db e.0) ≡ true) (tables cs)
    → effects (map create cs) db ≡ db
creates-same [] db p = refl
creates-same (table t cols ∷ cs) db p =
    ap (effects (map create cs)) (create_table-same t cols db p.0) ∙ creates-same cs db p.1
creates-same (index t c ∷ cs) db p =
    ap (effects (map create cs)) (create_index-same t c db) ∙ creates-same cs db p

add_columns-same :
    (es : List (String × String)) (db : Schema)
    → All (λ e. has_in e.1 (view db e.0) ≡ true) es
    → effects (map add_column es) db ≡ db
add_columns-same [] db p = refl
add_columns-same ((t, c) ∷ es) db p =
    ap (effects (map add_column es)) (add_column-same t c db p.0) ∙ add_columns-same es db p.1

Covers-present : (v : View) → Covers v → All (λ e. is_some (v e.0) ≡ true) (tables creates)
Covers-present v ((n, (k, (m, (g, (gm, (md, u)))))), _) = (
  has_in-is_some "id" (v "tenants") n.0,
  (
    has_in-is_some "token" (v "tokens") k.0,
    (
      has_in-is_some "id" (v "machines") m.0,
      (
        has_in-is_some "id" (v "groups") g.0,
        (
          has_in-is_some "group_id" (v "group_members") gm.0,
          (has_in-is_some "name" (v "modules") md.0, tt),
        ),
      ),
    ),
  ),
)

finished-same : (db : Schema) → Covers (view db) → finished db ≡ db
finished-same db c =
    ap (effects second) (creates-same creates db (Covers-present (view db) c))
    ∙ ap (effect count_uses) (add_columns-same upgrades db c.1)
    ∙ count_uses-same db

-- A table that has all the columns of the list, whatever else it has.
pub has_in-All :
    (cols old : List String) (o : Option (List String))
    → o ≡ some old
    → All (λ c. has_in c o ≡ true) cols
    → All (λ c. has c old ≡ true) cols
has_in-All cols old o e p = subst (λ o. All (λ c. has_in c o ≡ true) cols) e p

earlier_of_covers :
    (l : List (String × List String)) (db : Schema)
    → All (λ e. All (λ c. has_in c (view db e.0) ≡ true) e.1) l
    → All (λ e. (old : List String) → get e.0 db ≡ some old → All (λ c. has c old ≡ true) e.1) l
earlier_of_covers [] db p = tt
earlier_of_covers ((t, cols) ∷ l) db p =
    (λ old e. has_in-All cols old (get t db) e p.0, earlier_of_covers l db p.1)

-- No statement drops a column.
stays-keeps :
    (cols : List String) (o : Option (List String)) (c : String)
    → has_in c o ≡ true
    → has_in c (some (stays cols o)) ≡ true
stays-keeps cols none c e = cc
stays-keeps cols (some old) c e = e

create_view-keeps :
    (s : Create) (v : View) (u c : String)
    → has_in c (v u) ≡ true
    → has_in c (create_view s v u) ≡ true
create_view-keeps (index t d) v u c e = e
create_view-keeps (table t cols) v u c e = elim (Bool-cases (t =s= u)) [
  | inl same ↦
      rw same (
        stays-keeps cols (v t) c (subst (λ u. has_in c (v u) ≡ true) (sym ((eq_iff t u).0 same)) e))
  | inr other ↦ rw other e
]

create_views-keeps :
    (cs : List Create) (v : View) (u c : String)
    → has_in c (v u) ≡ true
    → has_in c (create_views cs v u) ≡ true
create_views-keeps [] v u c e = e
create_views-keeps (s ∷ cs) v u c e =
    create_views-keeps cs (create_view s v) u c (create_view-keeps s v u c e)

finished-keeps :
    (db : Schema) (u c : String)
    → has_in c (view db u) ≡ true
    → has_in c (view (finished db) u) ≡ true
finished-keeps db u c e =
    subst (λ v. has_in c (v u) ≡ true) (sym (view-finished db))
      (add_views-keeps upgrades (create_views creates (view db)) u c
        (create_views-keeps creates (view db) u c e))

finished-Covers : (db : Schema) → IsEarlier db → Covers (view (finished db))
finished-Covers db e = subst Covers (sym (view-finished db)) (migrated-Covers db e)

-- What is true of a start that has succeeded.
abbrev pub Leaves : Hrana → Schema → Result TursoError (Unit {0}) × Remote Schema → Type 0
Leaves h db (r, ts') =
    (r ≡ ok tt)
    × Covers (view ts'.db)
    × ((u c : String) → has_in c (view db u) ≡ true → has_in c (view ts'.db u) ≡ true)
    × ((open_turso h ts').0 ≡ ok tt)
    × ((open_turso h ts').1.db ≡ ts'.db)

module _ (h : Hrana) (hrana : IsHrana h) where
  opened : (ts ts' : Remote Schema) → migrate h ts ≡ (ok tt, ts') → open_turso h ts ≡ (ok tt, ts')
  unfolding open_turso
  opened ts ts' e = ap (λ m. (wrapped m.0, m.1)) e

  -- A start on a migrated database.
  next_start :
      (ts : Remote Schema)
      → Delivers ts
      → Covers (view ts.db)
      → ((open_turso h ts).0 ≡ ok tt) × ((open_turso h ts).1.db ≡ ts.db)
  next_start ts d c =
      let run =
        opened ts (run_list second (run_list first ts))
          (migrate-run_list h hrana ts d (earlier_of_covers (tables creates) ts.db c.0)) in
      (
        ap (λ m. m.0) run,
        ap (λ m. m.1.db) run ∙ run_list-finished h hrana ts ∙ finished-same ts.db c,
      )

  run_list-Delivers :
      (ts : Remote Schema) → Delivers ts → Delivers (run_list second (run_list first ts))
  run_list-Delivers ts d n =
      ap (λ f. f n) (run_list-fates second (run_list first ts) ∙ run_list-fates first ts) ∙ d n

  -- Where every request is delivered, OpenTurso succeeds on a database without tables and on one whose
  -- tables have at least the columns of the first list; it leaves every column of both lists and drops
  -- none; and the next start succeeds and leaves the columns as they are.
  pub open_turso_lem :
      (ts : Remote Schema) → Delivers ts → IsEarlier ts.db → Leaves h ts.db (open_turso h ts)
  open_turso_lem ts d e =
      let left = run_list-finished h hrana ts in
      let covers = subst (λ db. Covers (view db)) (sym left) (finished-Covers ts.db e) in
      let again =
        next_start (run_list second (run_list first ts)) (run_list-Delivers ts d) covers in
      subst (Leaves h ts.db)
        (sym (opened ts (run_list second (run_list first ts)) (migrate-run_list h hrana ts d e)))
        (
          refl,
          covers,
          (λ u c p.
              subst (λ db. has_in c (view db u) ≡ true) (sym left) (finished-keeps ts.db u c p)),
          again.0,
          again.1,
        )
