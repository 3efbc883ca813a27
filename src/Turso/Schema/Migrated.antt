-- ===== src/Turso/Schema/Migrated.antt =====
-- internal/store/turso.go: migrate on a new database, on one of an earlier version and on a migrated one.
use fleet_core.Prelude.{
  ◌≡◌, refl, sym, ap, ◌∙◌, subst, true, List, [], ◌∷◌, ◌++◌, arith, Option-cases, inl, inr, All,
  is_some, map,
}
use fleet_core.Prelude.Exec.{ok, bind_of_ok}
use fleet_core.Prelude.Bytes.{contains}
use fleet_core.GoMap.{get}
use fleet_core.Turso.{Statement, Hrana, IsHrana, Remote}
use fleet_core.Turso.Schema.{
  Schema, create, add_column, count_uses, creates, upgrades, create_all, upgrade_all, migrate,
}
use fleet_core.Turso.Schema.Columns.{effect, effects, View, view}
use fleet_core.Turso.Schema.Upgraded.{
  has_in, IsEarlier, migrated, migrated-Covers, migrated-effects, create_views-effects, stays-has,
}
use fleet_core.Turso.Schema.Runs.{
  settles, AllPass, IsForgiven, AllSettle, Delivers, run_list, run_list-db, run_list-fates,
  create_all-run_list, upgrade_all-run_list, AllPass-create, AllSettle-add_column,
}

abbrev pub first : List (Statement Schema)
first = map create creates

abbrev pub second : List (Statement Schema)
second = map add_column upgrades ++ count_uses ∷ []

pub count_uses-same : (db : Schema) → effect count_uses db ≡ db
unfolding count_uses
count_uses-same db = ground arith

-- The columns that a run of both lists leaves.
abbrev pub finished : Schema → Schema
finished db = effects second (effects first db)

pub view-finished : (db : Schema) → view (finished db) ≡ migrated (view db)
view-finished db =
    ap view (count_uses-same (effects (map add_column upgrades) (effects first db)))
    ∙ migrated-effects db

count_uses-settles :
    (db : Schema)
    → has_in "used" (view db "tokens") ≡ true
    → has_in "uses" (view db "tokens") ≡ true
    → settles (count_uses [] db).0 ≡ true
unfolding count_uses
count_uses-settles db p q = elim (Option-cases (get "tokens" db)) [
  | inl e ↦ ground (arith, e, p)
  | inr (cols, e) ↦ ground (arith, e, p, q)
]

first-passes : (db : Schema) → IsEarlier db → AllPass first db
first-passes db (n, (k, (m, (g, (gm, (md, u)))))) = AllPass-create creates db (
  tt,
  (
    tt,
    (
      tt,
      (
        (stays-has
            ("id" ∷ "tenant_id" ∷ "name" ∷ "enrolled" ∷ "last_seen" ∷ "inventory" ∷ "desired"
              ∷ "status" ∷ [])
            (get "machines" db) m).1.0,
        (
          tt,
          (
            (stays-has ("id" ∷ "tenant_id" ∷ "name" ∷ "selector" ∷ "modules" ∷ "created" ∷ [])
                (get "groups" db) g).1.0,
            (tt, (tt, tt)),
          ),
        ),
      ),
    ),
  ),
)

upgrades-IsForgiven : All (λ e. IsForgiven e.1) upgrades
unfolding contains
upgrades-IsForgiven = (refl, (refl, (refl, (refl, (refl, (refl, (refl, tt)))))))

second-settles : (db : Schema) → IsEarlier db → AllSettle second (effects first db)
second-settles db e =
    let (base, more) = migrated-Covers db e in
    let at =
      λ (P : View → Type 0) (p : P (migrated (view db))). subst P (sym (migrated-effects db)) p in
    AllSettle-add_column upgrades (count_uses ∷ []) (effects first db) upgrades-IsForgiven
      (subst (λ v. All (λ x. is_some (v x.0) ≡ true) upgrades)
        (sym (create_views-effects creates db))
        (refl, (refl, (refl, (refl, (refl, (refl, (refl, tt))))))))
      (
        count_uses-settles (effects (map add_column upgrades) (effects first db))
            (at (λ v. has_in "used" (v "tokens") ≡ true) base.1.0.1.1.1.0)
            (at (λ v. has_in "uses" (v "tokens") ≡ true) more.1.1.1.1.1.1.0),
        tt,
      )

module _ (h : Hrana) (hrana : IsHrana h) where
  pub migrate-run_list :
      (ts : Remote Schema)
      → Delivers ts
      → IsEarlier ts.db
      → migrate h ts ≡ (ok tt, run_list second (run_list first ts))
  unfolding migrate
  migrate-run_list ts d e =
      bind_of_ok (create_all h creates) (λ _. upgrade_all h second) ts (run_list first ts) tt
        (create_all-run_list h hrana creates ts d (first-passes ts.db e))
      ∙ upgrade_all-run_list h hrana second (run_list first ts)
          (λ n. ap (λ f. f n) (run_list-fates first ts) ∙ d n)
          (subst (AllSettle second) (sym (run_list-db first ts)) (second-settles ts.db e))

  pub run_list-finished :
      (ts : Remote Schema) → (run_list second (run_list first ts)).db ≡ finished ts.db
  run_list-finished ts =
      run_list-db second (run_list first ts) ∙ ap (effects second) (run_list-db first ts)
