-- ===== src/Turso/Refines.antt =====
-- internal/store/turso.go against internal/store/store.go: both stores serve the same interface.
use fleet_core.Prelude.{
  [], ◌∷◌, ℕ, ◌+◌, String, ◌≡◌, refl, ap, ◌∙◌, Bool, true, false, not, ◌&&◌, none, some, List,
  arith, ◌==◌, Bool-cases, Option-cases, inl, inr, All,
}
use fleet_core.Prelude.Exec.{Result, ok, err, Exec, pure, ◌>>=◌, bind_of_ok, continue}
use fleet_core.Prelude.Int.{pos}
use fleet_core.GoMap.{get, put}
use fleet_core.Api.{Tenant, EnrollToken, Machine, Inventory, ModuleStatus, Group}
use fleet_core.Store.{FileData, FileStore, StoreError, commit, save_tenant, not_found, token_used}
use fleet_core.Store.Tokens.{
  save_token, consume_token, consume_found, expired, legacy, token_limit, exhausted, use_once,
}
use fleet_core.Store.Machines.{save_machine, delete_machine, touch_heartbeat, set_status}
use fleet_core.Store.Modules.{save_module, delete_module}
use fleet_core.Store.Groups.{save_group, delete_group, add_group_member, remove_group_member}
use fleet_core.Store.Writes.{
  Write, tenant, token, consume, machine, drop_machine, heartbeat, status, artifact, drop_artifact,
  group, drop_group, member, drop_member, call,
}
use fleet_core.Turso.{
  integer, ◌=v=◌, int, str, text, Fits, Hrana, IsHrana, delivered, Remote, TursoError, store,
}
use fleet_core.Turso.Table.Laws.{find-narrow_none, find-narrow_refused, find-passes}
use fleet_core.Turso.Tables.{Tables}
use fleet_core.Turso.Same.{row_of}
use fleet_core.Turso.Machines.{Json}
use fleet_core.Turso.Accounts.{consume_token as consume_remote}
use fleet_core.Turso.Writes.{remote_call}
use fleet_core.Turso.Agrees.{Agrees, no_at, token_row}
use fleet_core.Turso.Agrees.Accounts.{
  tenant_args, token_args, save_tenant-Agrees, save_token-Agrees, is_token, redeemable_lem,
  redeemable-narrow,
}
use fleet_core.Turso.Agrees.Machines.{
  machine_args, inventory_args, status_args, save_machine-Agrees, touch_heartbeat-Agrees,
  set_status-Agrees, touch_heartbeat-missing, set_status-missing,
}
use fleet_core.Turso.Agrees.Groups.{
  group_args, save_group-Agrees, delete_group-Agrees, delete_machine-Agrees,
  add_group_member-Agrees, remove_group_member-Agrees,
}
use fleet_core.Turso.Agrees.Consume.{consume_token-refused, consume_token-accepted}
use fleet_core.Turso.Agrees.Modules.{module_args, save_module-Agrees, delete_module-Agrees}

-- The calls on which the two stores do the same. A record keeps its tenant and its time of creation; a
-- token is new and unused; a token does not expire in the second of its use; a module's name has no
-- "@"; numbers fit an int64, and no argument is an empty text or blob.
abbrev pub Admissible : Json → Write → FileData → Type 0
Admissible j (tenant t) d =
    All Fits (tenant_args t)
    × ((old : Tenant) → get t.id d.tenants ≡ some old → old.created ≡ t.created)
Admissible j (token t) d =
    All Fits (token_args j t) × (t.used ≡ false) × (get t.token d.tokens ≡ none)
Admissible j (consume now k) d =
    All Fits (str k ∷ int (pos now) ∷ [])
    × ((t : EnrollToken) → get k d.tokens ≡ some t → (t.expires_at == now) ≡ false)
Admissible j (machine m) d =
    All Fits (machine_args j m)
    × ((old : Machine)
        → get m.id d.machines ≡ some old
        → (old.tenant_id ≡ m.tenant_id) × (old.enrolled ≡ m.enrolled))
Admissible j (drop_machine id) d = Fits (str id)
Admissible j (heartbeat id t inv) d = All Fits (inventory_args j id t inv)
Admissible j (status id t st) d = All Fits (status_args j id t st)
Admissible j (artifact a) d = All Fits (module_args a) × (no_at a.name ≡ true)
Admissible j (drop_artifact n v) d = All Fits (str n ∷ str v ∷ []) × (no_at n ≡ true)
Admissible j (group g) d =
    All Fits (group_args j g)
    × ((old : Group)
        → get g.id d.groups ≡ some old
        → (old.tenant_id ≡ g.tenant_id) × (old.created ≡ g.created))
Admissible j (drop_group id) d = Fits (str id)
Admissible j (member g m) d = All Fits (str g ∷ str m ∷ [])
Admissible j (drop_member g m) d = All Fits (str g ∷ str m ∷ [])

-- A result of the FileStore, as an error of the Turso store.
abbrev pub as_remote : Result StoreError (Unit {0}) → Result TursoError (Unit {0})
as_remote (ok a) = ok a
as_remote (err e) = err (store e)

commit_lem :
    (f : FileData → FileData) (fs : FileStore)
    → fs.io fs.writes ≡ true
    → commit f fs ≡ (
      ok tt,
      record fs { contents = f fs.contents; disk = some (f fs.contents); writes = fs.writes + 1 },
    )
unfolding commit
commit_lem f fs h = rw h refl

-- The result of a call whose value is dropped.
abbrev dropped : {A : Type 0} → Result TursoError A → Result TursoError (Unit {0})
dropped (ok a) = ok tt
dropped (err e) = err e

continue-dropped :
    {S A : Type 0} (r : Result TursoError A) (s : S) (P : S → Type 0)
    → P s
    → ((continue r (λ _. pure tt) s).0 ≡ dropped r) × P (continue r (λ _. pure tt) s).1
continue-dropped (ok a) s P p = (refl, p)
continue-dropped (err e) s P p = (refl, p)

bind-dropped :
    {S A : Type 0} (m : Exec S TursoError A) (s : S) (P : S → Type 0) (r : Result TursoError A)
    → (m s).0 ≡ r
    → P (m s).1
    → (((m >>= (λ _. pure tt)) s).0 ≡ dropped r) × P ((m >>= (λ _. pure tt)) s).1
bind-dropped m s P r e p =
    let (result, left) = continue-dropped (m s).0 (m s).1 P p in (result ∙ ap dropped e, left)

-- What the FileStore does on each path, where its write works.
heartbeat_found :
    (id : String) (t : ℕ) (inv : Inventory) (m : Machine) (fs : FileStore)
    → fs.io fs.writes ≡ true
    → get id fs.contents.machines ≡ some m
    → (fs' : FileStore) × (touch_heartbeat id t inv fs ≡ (ok tt, fs'))
      × (fs'.contents ≡ record fs.contents {
        machines = put id (record m { last_seen = t; inventory = inv }) fs.contents.machines;
      })
unfolding touch_heartbeat
heartbeat_found id t inv m fs io e = rw e (_, commit_lem _ fs io, refl)

heartbeat_missing :
    (id : String) (t : ℕ) (inv : Inventory) (fs : FileStore)
    → get id fs.contents.machines ≡ none
    → touch_heartbeat id t inv fs ≡ (err not_found, fs)
unfolding touch_heartbeat
heartbeat_missing id t inv fs e = rw e refl

status_found :
    (id : String) (t : ℕ) (st : List ModuleStatus) (m : Machine) (fs : FileStore)
    → fs.io fs.writes ≡ true
    → get id fs.contents.machines ≡ some m
    → (fs' : FileStore) × (set_status id t st fs ≡ (ok tt, fs'))
      × (fs'.contents ≡ record fs.contents {
        machines = put id (record m { last_seen = t; status = st }) fs.contents.machines;
      })
unfolding set_status
status_found id t st m fs io e = rw e (_, commit_lem _ fs io, refl)

status_missing :
    (id : String) (t : ℕ) (st : List ModuleStatus) (fs : FileStore)
    → get id fs.contents.machines ≡ none
    → set_status id t st fs ≡ (err not_found, fs)
unfolding set_status
status_missing id t st fs e = rw e refl

-- The test of ConsumeToken.
abbrev accepts : ℕ → EnrollToken → Bool
accepts now t = not (expired now t) && not (exhausted (token_limit (legacy t)) (legacy t).uses)

consume_found_accepted :
    (now : ℕ) (k : String) (t : EnrollToken) (fs : FileStore)
    → fs.io fs.writes ≡ true
    → accepts now t ≡ true
    → consume_found now k t fs ≡ (
      ok (use_once (legacy t)),
      record fs {
        contents = record fs.contents { tokens = put k (use_once (legacy t)) fs.contents.tokens };
        disk =
            some (record fs.contents { tokens = put k (use_once (legacy t)) fs.contents.tokens });
        writes = fs.writes + 1;
      },
    )
unfolding consume_found
consume_found_accepted now k t fs io passes =
    let live : expired now t ≡ false = ground (arith, passes) in
    let left : exhausted (token_limit (legacy t)) (legacy t).uses ≡ false =
      ground (arith, passes) in
    rw live (
      rw left
        (bind_of_ok (commit _) (λ _. pure (use_once (legacy t))) fs _ tt (commit_lem _ fs io)))

consume_found_refused :
    (now : ℕ) (k : String) (t : EnrollToken) (fs : FileStore)
    → accepts now t ≡ false
    → consume_found now k t fs ≡ (err token_used, fs)
unfolding consume_found
consume_found_refused now k t fs fails = elim (Bool-cases (expired now t)) [
  | inl dead ↦ rw dead refl
  | inr live ↦
      let none_left : exhausted (token_limit (legacy t)) (legacy t).uses ≡ true =
        ground (arith, fails, live) in
      rw live (rw none_left refl)
]

consume_accepted :
    (now : ℕ) (k : String) (t : EnrollToken) (fs : FileStore)
    → fs.io fs.writes ≡ true
    → get k fs.contents.tokens ≡ some t
    → accepts now t ≡ true
    → (fs' : FileStore) × (call (consume now k) fs ≡ (ok tt, fs'))
      × (fs'.contents
          ≡ record fs.contents { tokens = put k (use_once (legacy t)) fs.contents.tokens })
unfolding call consume_token
consume_accepted now k t fs io there passes =
    rw (there, consume_token) (rw (consume_found_accepted now k t fs io passes) (_, refl, refl))

consume_refused :
    (now : ℕ) (k : String) (t : EnrollToken) (fs : FileStore)
    → get k fs.contents.tokens ≡ some t
    → accepts now t ≡ false
    → call (consume now k) fs ≡ (err token_used, fs)
unfolding call consume_token
consume_refused now k t fs there fails =
    rw (there, consume_token) (rw (consume_found_refused now k t fs fails) refl)

consume_missing :
    (now : ℕ) (k : String) (fs : FileStore)
    → get k fs.contents.tokens ≡ none
    → call (consume now k) fs ≡ (err token_used, fs)
unfolding call consume_token
consume_missing now k fs e = ground (arith, e)

module _ (j : Json) (h : Hrana) (hrana : IsHrana h) (fs : FileStore) (ts : Remote Tables)
    (a : Agrees j fs.contents ts.db) (io : fs.io fs.writes ≡ true)
    (works : (n : ℕ) → ts.fates n ≡ delivered) where
  abbrev Refined : Write → Type 0
  Refined w =
      ((remote_call j h w ts).0 ≡ as_remote (call w fs).0)
      × Agrees j (call w fs).1.contents (remote_call j h w ts).1.db

  refines-consume :
      (now : ℕ) (k : String)
      → All Fits (str k ∷ int (pos now) ∷ [])
      → ((t : EnrollToken) → get k fs.contents.tokens ≡ some t → (t.expires_at == now) ≡ false)
      → Refined (consume now k)
  unfolding remote_call
  refines-consume now k n apart =
      let key : (t : EnrollToken)
          → get k fs.contents.tokens ≡ some t
          → (text t.token =v= text k) ≡ true =
        λ t there.
          find-passes (is_token k) ts.db.tokens (a.tokens k ∙ ap (row_of (token_row j)) there) in
      elim (Option-cases (get k fs.contents.tokens)) [
        | inl e ↦ rw (consume_missing now k fs e) (
            let (e', a') = consume_token-refused j h hrana ts a works now k n (
              find-narrow_none (is_token k) _ (redeemable-narrow k (integer (pos now))) ts.db.tokens
                (a.tokens k ∙ ap (row_of (token_row j)) e)) in
            bind-dropped (consume_remote h j.labels now k) ts (λ ts'. Agrees j fs.contents ts'.db) _
              e' a')
        | inr (t, e) ↦ elim (Bool-cases (accepts now t)) [
          | inl passes ↦
              let (fs', runs, after) = consume_accepted now k t fs io e passes in
              rw runs (
                rw after (
                  let ((got, e'), a') =
                    consume_token-accepted j h hrana ts a works now k n t e
                      (redeemable_lem j t k now (key t e) (apart t e) ∙ passes) in
                  bind-dropped (consume_remote h j.labels now k) ts
                    (λ ts'.
                      Agrees j
                        (record fs.contents {
                          tokens = put k (use_once (legacy t)) fs.contents.tokens;
                        })
                        ts'.db)
                    _ e' a'))
          | inr fails ↦ rw (consume_refused now k t fs e fails) (
              let (e', a') = consume_token-refused j h hrana ts a works now k n (
                find-narrow_refused (is_token k) _ (redeemable-narrow k (integer (pos now)))
                  ts.db.tokens (token_row j t) (a.tokens k ∙ ap (row_of (token_row j)) e)
                  (redeemable_lem j t k now (key t e) (apart t e) ∙ fails) (a.tokens_once k)) in
              bind-dropped (consume_remote h j.labels now k) ts (λ ts'. Agrees j fs.contents ts'.db)
                _ e' a')
        ]
      ]

  pub remote_call_refines : (w : Write) → Admissible j w fs.contents → Refined w
  unfolding call remote_call save_tenant save_token save_machine delete_machine save_group
      delete_group add_group_member remove_group_member save_module delete_module
  remote_call_refines (tenant t) (c, keeps) =
      rw (commit_lem _ fs io) (save_tenant-Agrees j h hrana ts a works t c keeps)
  remote_call_refines (token t) (c, fresh, absent) =
      rw (commit_lem _ fs io) (save_token-Agrees j h hrana ts a works t c fresh absent)
  remote_call_refines (machine m) (f, keeps) =
      rw (commit_lem _ fs io) (save_machine-Agrees j h hrana ts a works m f keeps)
  remote_call_refines (drop_machine id) p =
      rw (commit_lem _ fs io) (delete_machine-Agrees j h hrana ts a works id p)
  remote_call_refines (artifact m) (f, k) =
      rw (commit_lem _ fs io) (save_module-Agrees j h hrana ts a works m f k)
  remote_call_refines (drop_artifact n v) (f, k) =
      rw (commit_lem _ fs io) (delete_module-Agrees j h hrana ts a works n v k f)
  remote_call_refines (group g) (c, keeps) =
      rw (commit_lem _ fs io) (save_group-Agrees j h hrana ts a works g c keeps)
  remote_call_refines (drop_group id) p =
      rw (commit_lem _ fs io) (delete_group-Agrees j h hrana ts a works id p)
  remote_call_refines (member g m) p =
      rw (commit_lem _ fs io) (add_group_member-Agrees j h hrana ts a works g m p)
  remote_call_refines (drop_member g m) p =
      rw (commit_lem _ fs io) (remove_group_member-Agrees j h hrana ts a works g m p)
  remote_call_refines (heartbeat id t inv) p = elim (Option-cases (get id fs.contents.machines)) [
    | inl e ↦
        rw (heartbeat_missing id t inv fs e)
          (touch_heartbeat-missing j h hrana ts a works id t inv p e)
    | inr (m, e) ↦
        let (fs', runs, after) = heartbeat_found id t inv m fs io e in
        rw runs (rw after (touch_heartbeat-Agrees j h hrana ts a works id t inv m p e))
  ]
  remote_call_refines (status id t st) p = elim (Option-cases (get id fs.contents.machines)) [
    | inl e ↦ rw (status_missing id t st fs e) (set_status-missing j h hrana ts a works id t st p e)
    | inr (m, e) ↦
        let (fs', runs, after) = status_found id t st m fs io e in
        rw runs (rw after (set_status-Agrees j h hrana ts a works id t st m p e))
  ]
  remote_call_refines (consume now k) (n, apart) = refines-consume now k n apart
