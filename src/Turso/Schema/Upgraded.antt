-- ===== src/Turso/Schema/Upgraded.antt =====
-- internal/store/turso.go: which columns are there after migrate.
use fleet_core.Prelude.{
  String, ◌≡◌, refl, sym, ap, ◌∙◌, subst, Bool, true, false, Option, none, some, List, [], ◌∷◌,
  ◌++◌, arith, ◌=s=◌, eq_iff, eq_refl, Bool-cases, inl, inr, All, is_some, map,
}
use fleet_core.GoMap.{get}
use fleet_core.Turso.Schema.{
  Schema, has, Create, table, index, create, add_column, creates, upgrades,
}
use fleet_core.Turso.Schema.Columns.{
  effect, effects, stays, added, View, view, create_view, add_view, view-create, view-add_column,
}

abbrev pub has_in : String → Option (List String) → Bool
has_in c none = false
has_in c (some cols) = has c cols

-- The tables of the first list with their columns.
abbrev pub tables : List Create → List (String × List String)
tables [] = []
tables (table t cols ∷ cs) = (t, cols) ∷ tables cs
tables (index t c ∷ cs) = tables cs

-- Of each table that is there, an earlier version has made the columns of the first list.
abbrev pub IsEarlier : Schema → Type 0
IsEarlier db =
    All (λ e. (old : List String) → get e.0 db ≡ some old → All (λ c. has c old ≡ true) e.1)
      (tables creates)

-- Every column of both lists is there.
abbrev pub Covers : View → Type 0
Covers v =
    All (λ e. All (λ c. has_in c (v e.0) ≡ true) e.1) (tables creates)
    × All (λ e. has_in e.1 (v e.0) ≡ true) upgrades

has-append : (c d : String) (cols : List String) → has c cols ≡ true → has c (cols ++ d ∷ []) ≡ true
has-append c d [] h = cc
has-append c d (x ∷ cols) h = ground (arith, h, has-append c d cols)

has_last : (c : String) (cols : List String) → has c (cols ++ c ∷ []) ≡ true
has_last c [] = rw (eq_refl c) refl
has_last c (x ∷ cols) = ground (arith, has_last c cols)

has_self :
    (cols all : List String)
    → ((c : String) → has c cols ≡ true → has c all ≡ true)
    → All (λ c. has c all ≡ true) cols
has_self [] all h = tt
has_self (c ∷ cols) all h =
    (h c (rw (eq_refl c) refl), has_self cols all (λ d e. h d (ground (arith, e))))

added-keeps :
    (c d : String) (o : Option (List String)) → has_in d o ≡ true → has_in d (added c o) ≡ true
added-keeps c d none h = h
added-keeps c d (some cols) h = ground (arith, h, has-append d c cols)

added-has : (c : String) (o : Option (List String)) → is_some o ≡ true → has_in c (added c o) ≡ true
added-has c none h = cc
added-has c (some cols) h = elim (Bool-cases (has c cols)) [
  | inl e ↦ rw e e
  | inr e ↦ rw e (has_last c cols)
]

added-is_some :
    (c : String) (o : Option (List String)) → is_some o ≡ true → is_some (added c o) ≡ true
added-is_some c none h = h
added-is_some c (some cols) h = refl

abbrev pub add_views : List (String × String) → View → View
add_views [] v = v
add_views (e ∷ es) v = add_views es (add_view e v)

add_view-keeps :
    (e : String × String) (v : View) (u d : String)
    → has_in d (v u) ≡ true
    → has_in d (add_view e v u) ≡ true
add_view-keeps (t, c) v u d h = elim (Bool-cases (t =s= u)) [
  | inl same ↦
      rw same
        (added-keeps c d (v t) (subst (λ u. has_in d (v u) ≡ true) (sym ((eq_iff t u).0 same)) h))
  | inr other ↦ rw other h
]

add_view-is_some :
    (e : String × String) (v : View) (u : String)
    → is_some (v u) ≡ true
    → is_some (add_view e v u) ≡ true
add_view-is_some (t, c) v u h = elim (Bool-cases (t =s= u)) [
  | inl same ↦
      rw same
        (added-is_some c (v t) (subst (λ u. is_some (v u) ≡ true) (sym ((eq_iff t u).0 same)) h))
  | inr other ↦ rw other h
]

add_view-has :
    (t c : String) (v : View) → is_some (v t) ≡ true → has_in c (add_view (t, c) v t) ≡ true
add_view-has t c v h = rw (eq_refl t) (added-has c (v t) h)

pub add_views-keeps :
    (es : List (String × String)) (v : View) (u d : String)
    → has_in d (v u) ≡ true
    → has_in d (add_views es v u) ≡ true
add_views-keeps [] v u d h = h
add_views-keeps (e ∷ es) v u d h = add_views-keeps es (add_view e v) u d (add_view-keeps e v u d h)

pub add_view-All :
    (e : String × String) (v : View) (es : List (String × String))
    → All (λ x. is_some (v x.0) ≡ true) es
    → All (λ x. is_some (add_view e v x.0) ≡ true) es
add_view-All e v [] h = tt
add_view-All e v (x ∷ es) h = (add_view-is_some e v x.0 h.0, add_view-All e v es h.1)

pub add_views-has :
    (es : List (String × String)) (v : View)
    → All (λ x. is_some (v x.0) ≡ true) es
    → All (λ x. has_in x.1 (add_views es v x.0) ≡ true) es
add_views-has [] v h = tt
add_views-has ((t, c) ∷ es) v h = (
  add_views-keeps es (add_view (t, c) v) t c (add_view-has t c v h.0),
  add_views-has es (add_view (t, c) v) (add_view-All (t, c) v es h.1),
)

add_views-keeps_each :
    (es : List (String × String)) (v : View) (u : String) (cols : List String)
    → All (λ c. has_in c (v u) ≡ true) cols
    → All (λ c. has_in c (add_views es v u) ≡ true) cols
add_views-keeps_each es v u [] h = tt
add_views-keeps_each es v u (c ∷ cols) h =
    (add_views-keeps es v u c h.0, add_views-keeps_each es v u cols h.1)

pub stays-has :
    (cols : List String) (o : Option (List String))
    → ((old : List String) → o ≡ some old → All (λ c. has c old ≡ true) cols)
    → All (λ c. has_in c (some (stays cols o)) ≡ true) cols
stays-has cols none h = has_self cols cols (λ c e. e)
stays-has cols (some old) h = h old refl

abbrev pub create_views : List Create → View → View
create_views [] v = v
create_views (c ∷ cs) v = create_views cs (create_view c v)

-- After the two lists.
abbrev pub migrated : View → View
migrated v = add_views upgrades (create_views creates v)

table_kept :
    (db : Schema) (u : String) (cols : List String)
    → create_views creates (view db) u ≡ some (stays cols (get u db))
    → ((old : List String) → get u db ≡ some old → All (λ c. has c old ≡ true) cols)
    → All (λ c. has_in c (migrated (view db) u) ≡ true) cols
table_kept db u cols e h =
    add_views-keeps_each upgrades (create_views creates (view db)) u cols
      (subst (λ o. All (λ c. has_in c o ≡ true) cols) (sym e) (stays-has cols (get u db) h))

pub migrated-Covers : (db : Schema) → IsEarlier db → Covers (migrated (view db))
migrated-Covers db (n, (k, (m, (g, (gm, (md, u)))))) = (
  (
    table_kept db "tenants" ("id" ∷ "name" ∷ "created" ∷ []) refl n,
    (
      table_kept db "tokens" ("token" ∷ "tenant_id" ∷ "created" ∷ "used" ∷ []) refl k,
      (
        table_kept db "machines"
            ("id" ∷ "tenant_id" ∷ "name" ∷ "enrolled" ∷ "last_seen" ∷ "inventory" ∷ "desired"
              ∷ "status" ∷ [])
            refl m,
        (
          table_kept db "groups"
              ("id" ∷ "tenant_id" ∷ "name" ∷ "selector" ∷ "modules" ∷ "created" ∷ []) refl g,
          (
            table_kept db "group_members" ("group_id" ∷ "machine_id" ∷ []) refl gm,
            (
              table_kept db "modules" ("name" ∷ "version" ∷ "exec" ∷ "payload" ∷ "signature" ∷ [])
                  refl md,
              tt,
            ),
          ),
        ),
      ),
    ),
  ),
  add_views-has upgrades (create_views creates (view db))
      (refl, (refl, (refl, (refl, (refl, (refl, (refl, tt))))))),
)

pub create_views-effects :
    (cs : List Create) (db : Schema) → view (effects (map create cs) db) ≡ create_views cs (view db)
create_views-effects [] db = refl
create_views-effects (c ∷ cs) db =
    create_views-effects cs (effect (create c) db) ∙ ap (create_views cs) (view-create c db)

pub add_views-effects :
    (es : List (String × String)) (db : Schema)
    → view (effects (map add_column es) db) ≡ add_views es (view db)
add_views-effects [] db = refl
add_views-effects (e ∷ es) db =
    add_views-effects es (effect (add_column e) db) ∙ ap (add_views es) (view-add_column e db)

-- The columns that the two loops leave.
pub migrated-effects :
    (db : Schema)
    → view (effects (map add_column upgrades) (effects (map create creates) db))
      ≡ migrated (view db)
migrated-effects db =
    add_views-effects upgrades (effects (map create creates) db)
    ∙ ap (add_views upgrades) (create_views-effects creates db)
