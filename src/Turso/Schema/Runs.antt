-- ===== src/Turso/Schema/Runs.antt =====
-- internal/store/turso.go: the two loops of migrate, where every request is delivered.
use fleet_core.Prelude.{
  ℕ, ◌+◌, String, ◌≡◌, refl, sym, ap, ◌∙◌, subst, Bool, true, false, List, [], ◌∷◌, ◌++◌, arith,
  Option-cases, Bool-cases, inl, inr, All, is_some, map,
}
use fleet_core.Prelude.Exec.{ok, bind_of_ok}
use fleet_core.GoMap.{get}
use fleet_core.Turso.{
  Statement, Hrana, IsHrana, Outcome, done, refused, Remote, delivered, exec, message, answer,
  HranaResult,
}
use fleet_core.Turso.Delivered.{exec-delivered}
use fleet_core.Turso.Schema.{
  Schema, has, Create, table, index, create, add_column, is_duplicate, forgiven, create_all,
  upgrade, upgrade_all,
}
use fleet_core.Turso.Schema.Columns.{
  effect, effects, View, view, create_view, view-create, view-add_column,
}
use fleet_core.Turso.Schema.Upgraded.{has_in, add_view-All}
use Prim.Native.String.{◌++◌ as ◌++s◌}

-- Whether a loop goes on after the answer.
abbrev pub passes : Outcome → Bool
passes (done rows n) = true
passes (refused m) = false

abbrev pub settles : Outcome → Bool
settles (done rows n) = true
settles (refused m) = is_duplicate (message ("turso: " ++s m))

abbrev pub AllPass : List (Statement Schema) → Schema → Type 0
AllPass [] db = Unit
AllPass (s ∷ ss) db = (passes (s [] db).0 ≡ true) × AllPass ss (effect s db)

abbrev pub AllSettle : List (Statement Schema) → Schema → Type 0
AllSettle [] db = Unit
AllSettle (s ∷ ss) db = (settles (s [] db).0 ≡ true) × AllSettle ss (effect s db)

abbrev pub Delivers : Remote Schema → Type 0
Delivers ts = (n : ℕ) → ts.fates n ≡ delivered

-- What a run of the statements leaves.
abbrev pub run_list : List (Statement Schema) → Remote Schema → Remote Schema
run_list [] ts = ts
run_list (s ∷ ss) ts = run_list ss (record ts { db = effect s ts.db; calls = ts.calls + 1 })

pub run_list-db :
    (ss : List (Statement Schema)) (ts : Remote Schema) → (run_list ss ts).db ≡ effects ss ts.db
run_list-db [] ts = refl
run_list-db (s ∷ ss) ts = run_list-db ss (record ts { db = effect s ts.db; calls = ts.calls + 1 })

pub run_list-fates :
    (ss : List (Statement Schema)) (ts : Remote Schema) → (run_list ss ts).fates ≡ ts.fates
run_list-fates [] ts = refl
run_list-fates (s ∷ ss) ts =
    run_list-fates ss (record ts { db = effect s ts.db; calls = ts.calls + 1 })

module _ (h : Hrana) (hrana : IsHrana h) where
  passes-answer : (o : Outcome) → passes o ≡ true → (a : HranaResult) × (answer h o ≡ ok a)
  passes-answer (done rows n) e = (_, refl)
  passes-answer (refused m) e = cc

  forgiven-answer : (o : Outcome) → settles o ≡ true → forgiven (answer h o) ≡ ok tt
  forgiven-answer (done rows n) e = refl
  forgiven-answer (refused m) e = rw e refl

  pub create_all-run_list :
      (cs : List Create) (ts : Remote Schema)
      → Delivers ts
      → AllPass (map create cs) ts.db
      → create_all h cs ts ≡ (ok tt, run_list (map create cs) ts)
  unfolding create_all
  create_all-run_list [] ts d p = refl
  create_all-run_list (c ∷ cs) ts d p =
      let ts' = record ts { db = effect (create c) ts.db; calls = ts.calls + 1 } in
      let (a, e) = passes-answer (create c [] ts.db).0 p.0 in
      bind_of_ok (exec h (create c) []) (λ _. create_all h cs) ts ts' a
        (exec-delivered h hrana (create c) [] ts tt (d ts.calls) ∙ ap (λ r. (r, ts')) e)
      ∙ create_all-run_list cs ts' d p.1

  upgrade-run_list :
      (s : Statement Schema) (ts : Remote Schema)
      → Delivers ts
      → settles (s [] ts.db).0 ≡ true
      → upgrade h s ts ≡ (ok tt, record ts { db = effect s ts.db; calls = ts.calls + 1 })
  unfolding upgrade
  upgrade-run_list s ts d p =
      let ts' = record ts { db = effect s ts.db; calls = ts.calls + 1 } in
      ap (λ o. (forgiven o.0, o.1)) (exec-delivered h hrana s [] ts tt (d ts.calls))
      ∙ ap (λ r. (r, ts')) (forgiven-answer (s [] ts.db).0 p)

  pub upgrade_all-run_list :
      (ss : List (Statement Schema)) (ts : Remote Schema)
      → Delivers ts
      → AllSettle ss ts.db
      → upgrade_all h ss ts ≡ (ok tt, run_list ss ts)
  unfolding upgrade_all
  upgrade_all-run_list [] ts d p = refl
  upgrade_all-run_list (s ∷ ss) ts d p =
      let ts' = record ts { db = effect s ts.db; calls = ts.calls + 1 } in
      bind_of_ok (upgrade h s) (λ _. upgrade_all h ss) ts ts' tt (upgrade-run_list s ts d p.0)
      ∙ upgrade_all-run_list ss ts' d p.1

-- The first list, on the columns alone.
abbrev pub PassesOn : Create → View → Type 0
PassesOn (table t cols) v = Unit
PassesOn (index t c) v = has_in c (v t) ≡ true

abbrev pub AllPassOn : List Create → View → Type 0
AllPassOn [] v = Unit
AllPassOn (c ∷ cs) v = PassesOn c v × AllPassOn cs (create_view c v)

passes-create : (c : Create) (db : Schema) → PassesOn c (view db) → passes (create c [] db).0 ≡ true
unfolding create
passes-create (table t cols) db p = ground arith
passes-create (index t c) db p = elim (Option-cases (get t db)) [
  | inl e ↦ ground (arith, e, p)
  | inr (cols, e) ↦ ground (arith, e, p)
]

pub AllPass-create :
    (cs : List Create) (db : Schema) → AllPassOn cs (view db) → AllPass (map create cs) db
AllPass-create [] db p = tt
AllPass-create (c ∷ cs) db p = (
  passes-create c db p.0,
  AllPass-create cs (effect (create c) db) (subst (AllPassOn cs) (sym (view-create c db)) p.1),
)

-- A column that is there is refused with a text that the second loop forgives.
abbrev pub IsForgiven : String → Type 0
IsForgiven c = settles (refused ("duplicate column name: " ++s c)) ≡ true

settles-add_column :
    (t c : String) (db : Schema)
    → IsForgiven c
    → is_some (get t db) ≡ true
    → settles (add_column (t, c) [] db).0 ≡ true
unfolding add_column
settles-add_column t c db f p = elim (Option-cases (get t db)) [
  | inl e ↦ absurd (ground (arith, e, p))
  | inr (cols, e) ↦
      rw (e, add_column)
        (elim (Bool-cases (has c cols)) [ inl there ↦ rw there f | inr absent ↦ rw absent refl ])
]

-- The second list, and what follows it.
pub AllSettle-add_column :
    (es : List (String × String)) (rest : List (Statement Schema)) (db : Schema)
    → All (λ e. IsForgiven e.1) es
    → All (λ e. is_some (view db e.0) ≡ true) es
    → AllSettle rest (effects (map add_column es) db)
    → AllSettle (map add_column es ++ rest) db
AllSettle-add_column [] rest db f p q = q
AllSettle-add_column ((t, c) ∷ es) rest db f p q = (
  settles-add_column t c db f.0 p.0,
  AllSettle-add_column es rest (effect (add_column (t, c)) db) f.1
      (subst (λ v. All (λ e. is_some (v e.0) ≡ true) es) (sym (view-add_column (t, c) db))
        (add_view-All (t, c) (view db) es p.1))
      q,
)
