-- ===== src/Turso/Retry.antt =====
-- internal/store/turso.go: a call that is repeated after attempts of which nobody knows what they did.
pub mod Statements
pub mod Writes
use fleet_core.Prelude.{
  ℕ, String, ◌≡◌, refl, sym, ap, ◌∙◌, ◌⊎◌, Bool, true, false, List, [], ◌∷◌, map, Bool-cases, inl,
  inr, eq_refl, any,
}
use fleet_core.Prelude.Exec.{Result, ok, err, Exec, pure, ◌>>=◌, continue}
use fleet_core.Store.Writes.{
  Write, tenant, token, consume, machine, drop_machine, heartbeat, status, artifact, drop_artifact,
  group, drop_group, member, drop_member,
}
use fleet_core.Turso.{
  text, str, GoValue, Fits, cell_of, arg, sent, SqlValue, Hrana, IsHrana, Reply, Fate, delivered,
  disturbed, Remote, HranaResult, Statement, done, refused, TursoError, exec, ◌=v=◌,
}
use fleet_core.Turso.Delivered.{exec-exec}
use fleet_core.Turso.Tables.{Tables}
use fleet_core.Turso.Machines.{Json}
use fleet_core.Turso.Table.Twice.{
  delete_where-delete_where, update_where-update_where, upsert-upsert, any-upsert,
}
use fleet_core.Turso.Writes.{remote_call}

-- A connection on which every request is delivered.
abbrev pub healthy : {D : Type 0} → D → Remote D
healthy db = record { db = db; fates = λ n. delivered; calls = 0 }

-- The tables after some attempts, each with its own fate for every request.
unfoldable pub attempts :
    {D : Type 0} → Exec (Remote D) TursoError (Unit {0}) → List (ℕ → Fate) → D → D
attempts m [] db = db
attempts m (fates ∷ rest) db =
    attempts m rest (m (record { db = db; fates = fates; calls = 0 })).1.db

Fate-cases :
    (f : Fate) → (f ≡ delivered) ⊎ (ran : Bool) × (reply : Reply) × (f ≡ disturbed ran reply)
Fate-cases delivered = inl refl
Fate-cases (disturbed ran reply) = inr (ran, reply, refl)

module _ {D A B : Type 0} (P : D → Type 0) where
  continue-keeps :
      (r : Result TursoError A) (k : A → Exec (Remote D) TursoError B) (ts : Remote D)
      → P ts.db
      → ((a : A) (ts' : Remote D) → P ts'.db → P (k a ts').1.db)
      → P (continue r k ts).1.db
  continue-keeps (ok a) k ts p q = q a ts p
  continue-keeps (err e) k ts p q = p

module _ {D : Type 0} (h : Hrana) where
  -- What a statement with these arguments makes of the tables.
  abbrev pub effect : Statement D → List GoValue → D → D
  effect sql args db = (sql (map (λ a. h.read (sent (arg a))) args) db).1

  exec-keeps :
      (P : D → Type 0) (sql : Statement D) (args : List GoValue) (ts : Remote D)
      → P ts.db
      → P (effect sql args ts.db)
      → P (exec h sql args ts).1.db
  unfolding exec
  exec-keeps P sql args ts p q = elim (Fate-cases (ts.fates ts.calls)) [
    | inl e ↦ rw (e, exec) q
    | inr (true, reply, e) ↦ rw (e, exec) q
    | inr (false, reply, e) ↦ rw (e, exec) p
  ]

-- To repeat a call after any attempts leaves what one delivered call leaves.
abbrev pub Repeats : {D : Type 0} → Exec (Remote D) TursoError (Unit {0}) → Type 0
Repeats {D} m =
    (tries : List (ℕ → Fate)) (db : D)
    → (m (healthy (attempts m tries db))).1.db ≡ (m (healthy db)).1.db

module _ {D : Type 0} (m : Exec (Remote D) TursoError (Unit {0})) (final : D → D)
    (keeps : (ts : Remote D) → final (m ts).1.db ≡ final ts.db) where
  attempts-final : (tries : List (ℕ → Fate)) (db : D) → final (attempts m tries db) ≡ final db
  unfolding attempts
  attempts-final [] db = refl
  attempts-final (fates ∷ rest) db =
      attempts-final rest _ ∙ keeps (record { db = db; fates = fates; calls = 0 })

  final-Repeats : ((db : D) → (m (healthy db)).1.db ≡ final db) → Repeats m
  final-Repeats ends tries db = ends (attempts m tries db) ∙ attempts-final tries db ∙ sym (ends db)

module _ {D : Type 0} (h : Hrana) where
  -- One statement that changes nothing more when it runs twice.
  pub one-Repeats :
      (sql : Statement D) (args : List GoValue)
      (k : HranaResult → Exec (Remote D) TursoError (Unit {0}))
      → ((r : HranaResult) (ts : Remote D) → (k r ts).1.db ≡ ts.db)
      → ((vs : List SqlValue)
          → vs ≡ map (λ a. h.read (sent (arg a))) args
          → (db : D) → (sql vs (sql vs db).1).1 ≡ (sql vs db).1)
      → Repeats (exec h sql args >>= k)
  unfolding exec
  one-Repeats sql args k keeps twice =
      let final = effect h sql args in
      final-Repeats (exec h sql args >>= k) final
        (λ ts.
          let P : D → Type 0 = λ d. final d ≡ final ts.db in
          continue-keeps P (exec h sql args ts).0 k (exec h sql args ts).1
            (exec-keeps h P sql args ts refl
              (twice (map (λ a. h.read (sent (arg a))) args) refl ts.db))
            (λ r ts' p. ap final (keeps r ts') ∙ p))
        (λ db. continue-keeps (λ d. d ≡ final db) _ k _ refl (λ r ts' p. keeps r ts' ∙ p))

  -- Two statements that run in either order, and of which none changes more when it runs twice.
  pub two-Repeats :
      (hrana : IsHrana h) (sql sql' : Statement D) (a : GoValue) (f f' : D → D) (n n' : D → ℕ)
      → Fits a
      → ((db : D) → sql (cell_of a ∷ []) db ≡ (done [] (n db), f db))
      → ((db : D) → sql' (cell_of a ∷ []) db ≡ (done [] (n' db), f' db))
      → ((db : D) → f (f db) ≡ f db)
      → ((db : D) → f' (f' db) ≡ f' db)
      → ((db : D) → f (f' db) ≡ f' (f db))
      → Repeats (exec h sql (a ∷ []) >>= (λ _. exec h sql' (a ∷ []) >>= (λ _. pure tt)))
  two-Repeats hrana sql sql' a f f' n n' fits runs runs' twice twice' swap =
      let final : D → D = λ d. f' (f d) in
      let first : (db : D) → effect h sql (a ∷ []) db ≡ f db =
        λ db. ap (λ v. (sql (v ∷ []) db).1) (hrana.read_arg a fits) ∙ ap (λ o. o.1) (runs db) in
      let second : (db : D) → effect h sql' (a ∷ []) db ≡ f' db =
        λ db. ap (λ v. (sql' (v ∷ []) db).1) (hrana.read_arg a fits) ∙ ap (λ o. o.1) (runs' db) in
      final-Repeats (exec h sql (a ∷ []) >>= (λ _. exec h sql' (a ∷ []) >>= (λ _. pure tt))) final
        (λ ts.
          let P : D → Type 0 = λ d. final d ≡ final ts.db in
          let k = λ (r : HranaResult). pure {S = Remote D} {E = TursoError} tt in
          continue-keeps P (exec h sql (a ∷ []) ts).0 (λ _. exec h sql' (a ∷ []) >>= k)
            (exec h sql (a ∷ []) ts).1
            (exec-keeps h P sql (a ∷ []) ts refl (ap final (first ts.db) ∙ ap f' (twice ts.db)))
            (λ r ts' p.
              continue-keeps P (exec h sql' (a ∷ []) ts').0 k (exec h sql' (a ∷ []) ts').1
                (exec-keeps h P sql' (a ∷ []) ts' p
                  (ap final (second ts'.db) ∙ ap f' (swap ts'.db) ∙ twice' (f ts'.db) ∙ p))
                (λ r' ts'' q. q)))
        (λ db.
          ap (λ p. p.1.db)
            (exec-exec h hrana sql sql' a (healthy db) (n db) (n' (f db)) (f db) (f' (f db)) fits
              (λ i. refl) (runs db) (runs' (f db))))
