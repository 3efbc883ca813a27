-- ===== src/Turso/Delivered.antt =====
-- internal/store/turso.go: what `exec` does where the request is delivered.
use fleet_core.Prelude.{ℕ, ◌+◌, ◌≡◌, refl, ap, ap₂, ◌∙◌, List, [], ◌∷◌, map, All}
use fleet_core.Prelude.Exec.{ok, pure, ◌>>=◌, bind_of_ok}
use fleet_core.Turso.{
  SqlValue, GoValue, Hrana, IsHrana, Fits, cell_of, arg, sent, Outcome, done, refused, delivered,
  Remote, Statement, server_reply, read_reply, exec, answer,
}

module _ (h : Hrana) (hrana : IsHrana h) where
  read_args :
      (args : List GoValue)
      → All Fits args
      → map (λ a. h.read (sent (arg a))) args ≡ map cell_of args
  read_args [] f = refl
  read_args (a ∷ args) f = ap₂ ◌∷◌ (hrana.read_arg a f.0) (read_args args f.1)

  read_server_reply : (o : Outcome) → read_reply (server_reply h o) ≡ answer h o
  unfolding read_reply server_reply
  read_server_reply (done rows n) = refl
  read_server_reply (refused m) = refl

  -- The statement runs on the values of the arguments, and its answer is returned.
  pub exec-delivered :
      {D : Type 0} (sql : Statement D) (args : List GoValue) (ts : Remote D)
      → All Fits args
      → ts.fates ts.calls ≡ delivered
      → exec h sql args ts ≡ (
        answer h (sql (map cell_of args) ts.db).0,
        record ts { db = (sql (map cell_of args) ts.db).1; calls = ts.calls + 1 },
      )
  unfolding exec
  exec-delivered sql args ts f e =
      rw (e, exec)
        (rw (read_args args f) (
          ap (λ r. (r, record ts { db = (sql (map cell_of args) ts.db).1; calls = ts.calls + 1 }))
            (read_server_reply (sql (map cell_of args) ts.db).0)))

  -- A statement that answers rows.
  pub exec-done :
      {D : Type 0} (sql : Statement D) (args : List GoValue) (ts : Remote D)
      (rows : List (List SqlValue)) (n : ℕ) (db' : D)
      → All Fits args
      → ts.fates ts.calls ≡ delivered
      → sql (map cell_of args) ts.db ≡ (done rows n, db')
      → exec h sql args ts ≡ (
        ok (record { rows = map (map h.write) rows; affected_row_count = n }),
        record ts { db = db'; calls = ts.calls + 1 },
      )
  exec-done sql args ts rows n db' f e k =
      exec-delivered sql args ts f e
      ∙ ap (λ o. (answer h o.0, record ts { db = o.1; calls = ts.calls + 1 })) k

  -- One statement, or two in a row, whose answers are dropped.
  pub exec-pure :
      {D : Type 0} (sql : Statement D) (args : List GoValue) (ts : Remote D)
      (rows : List (List SqlValue)) (n : ℕ) (db' : D)
      → All Fits args
      → ts.fates ts.calls ≡ delivered
      → sql (map cell_of args) ts.db ≡ (done rows n, db')
      → (exec h sql args >>= (λ _. pure tt)) ts
        ≡ (ok tt, record ts { db = db'; calls = ts.calls + 1 })
  exec-pure sql args ts rows n db' f e k =
      bind_of_ok (exec h sql args) (λ _. pure tt) ts _ _ (exec-done sql args ts rows n db' f e k)

  pub exec-exec :
      {D : Type 0} (sql sql' : Statement D) (arg : GoValue) (ts : Remote D) (n n' : ℕ)
      (db' db'' : D)
      → Fits arg
      → ((n : ℕ) → ts.fates n ≡ delivered)
      → sql (cell_of arg ∷ []) ts.db ≡ (done [] n, db')
      → sql' (cell_of arg ∷ []) db' ≡ (done [] n', db'')
      → (exec h sql (arg ∷ []) >>= (λ _. exec h sql' (arg ∷ []) >>= (λ _. pure tt))) ts
        ≡ (ok tt, record ts { db = db''; calls = ts.calls + 1 + 1 })
  exec-exec sql sql' arg ts n n' db' db'' f e k l =
      bind_of_ok (exec h sql (arg ∷ [])) (λ _. exec h sql' (arg ∷ []) >>= (λ _. pure tt)) ts _ _
        (exec-done sql (arg ∷ []) ts [] n db' (f, tt) (e ts.calls) k)
      ∙ exec-pure sql' (arg ∷ []) (record ts { db = db'; calls = ts.calls + 1 }) [] n' db'' (f, tt)
          (e (ts.calls + 1)) l
