-- ===== src/Admin/Desired.antt =====
-- internal/server/admin.go: what an operator reads back after setting a machine's modules.
use fleet_core.Prelude.{
  String, ◌≡◌, refl, sym, ap, ◌∙◌, subst, inl, inr, true, none, some, List, [], ◌∷◌, map, arith,
  Bool-cases, Option-cases,
}
use fleet_core.Prelude.Exec.{Result, ok, err, Exec, ◌>>=◌, ◌>>◌, bind-eq-ok, bind_of_ok}
use fleet_core.GoMap.{GoMap, get, put}
use fleet_core.GoMap.Laws.{get-put_self}
use fleet_core.Api.{ModuleSpec, DesiredState, Machine, Group}
use fleet_core.Store.{FileStore, StoreError}
use fleet_core.Store
use fleet_core.Store.Machines
use fleet_core.Store.Writes.Keyed.{Keyed, put-Keyed, contents-commit}
use fleet_core.Server.{Server, on_store}
use fleet_core.Resolver.{Members, compute_modules, same_json, recompute}
use fleet_core.Resolver.Settled.{settle, settle_settles, Snapshot}
use fleet_core.Resolver.Recompute.{groups_of, members_table, recompute-Settles}
use fleet_core.Admin.{
  HttpError, http_error, unknown, store_error, fail_with, or_http, validate_modules,
}
use fleet_core.Admin.Machines.{put_desired, read_desired}
use fleet_core.Admin.Steps.{validate-Reads}

compute_modules-settle :
    (groups : List Group) (members : Members) (m : Machine)
    → compute_modules (settle groups members m) groups members ≡ compute_modules m groups members
unfolding settle compute_modules
compute_modules-settle groups members m =
    elim (Bool-cases (same_json m.desired.modules (some (compute_modules m groups members)))) [
      | inl e ↦ rw (e, settle) refl
      | inr e ↦ rw (e, settle) refl
    ]

ok-inj : (x y : DesiredState) → ◌≡◌ {A = Result HttpError DesiredState} (ok x) (ok y) → x ≡ y
ok-inj x y p = cc

fail_with-ok :
    {A : Type 0} (c : HttpError) (r : Result StoreError A) (a : A) → fail_with c r ≡ ok a → r ≡ ok a
fail_with-ok c (ok b) a p = cc
fail_with-ok c (err x) a p = cc

-- The only machine of a snapshot, before and after it is settled.
Snapshot-only :
    (f : Machine → Machine) (held now : GoMap Machine) (i : String) (ms : List Machine)
    (m : Machine)
    → Snapshot held (i ∷ []) ms
    → Snapshot now (i ∷ []) (map f ms)
    → get i held ≡ some m
    → get i now ≡ some (f m)
Snapshot-only f held now i [] m h k e = absurd h
Snapshot-only f held now i (x ∷ []) m h k e =
    let q : x ≡ m = cc (h.0, e) in k.0 ∙ ap (λ y. some (f y)) q
Snapshot-only f held now i (x ∷ y ∷ ms) m h k e = absurd h.1

abbrev pub Agrees : DesiredState → Machine → GoMap Group → GoMap (GoMap (Unit {0})) → Type 0
Agrees d m gs ms =
    same_json d.modules (
      some (
        compute_modules m (groups_of m.tenant_id gs) (members_table ms (groups_of m.tenant_id gs))))
    ≡ true

read_desired-found :
    (id : String) (s : Server) (m : Machine)
    → get id s.store.contents.machines ≡ some m
    → (read_desired id s).0 ≡ ok m.desired
unfolding read_desired Store.Machines.get_machine
read_desired-found id s m e = rw e refl

-- The end of the handler, once the override is saved.
recomputed :
    (t : Server) (id : String) (m : Machine) (d : DesiredState)
    → Keyed (λ (x : Machine). x.id) t.store.contents.machines
    → get id t.store.contents.machines ≡ some m
    → ((or_http (http_error 500 "recompute error") (recompute m.tenant_id (id ∷ [])) >>= λ _.
          read_desired id)
        t).0
      ≡ ok d
    → Agrees d m t.store.contents.groups t.store.contents.members
recomputed t id m d k e h =
    let groups = groups_of m.tenant_id t.store.contents.groups in
    let members = members_table t.store.contents.members groups in
    let t' = (recompute m.tenant_id (id ∷ []) t).1 in
    let (u, done, same) =
      bind-eq-ok (or_http (http_error 500 "recompute error") (recompute m.tenant_id (id ∷ [])))
        (λ _. read_desired id) t h in
    let (ms, r) = recompute-Settles m.tenant_id id [] t k (
      fail_with-ok (http_error 500 "recompute error") (recompute m.tenant_id (id ∷ []) t).0 tt
        done) in
    let f =
      Snapshot-only (settle groups members) t.store.contents.machines t'.store.contents.machines id
        ms m r.before r.settled e in
    let q : d ≡ (settle groups members m).desired =
      ok-inj d (settle groups members m).desired
        (sym h ∙ ap (λ p. p.0) same ∙ read_desired-found id t' (settle groups members m) f) in
    ap (λ (x : DesiredState). same_json x.modules (some (compute_modules m groups members))) q
    ∙ ap (λ l. same_json (settle groups members m).desired.modules (some l))
        (sym (compute_modules-settle groups members m))
    ∙ settle_settles groups members m

-- What saving a machine that is in the store leaves.
saved :
    (id : String) (m : Machine) (fs : FileStore)
    → Keyed (λ (x : Machine). x.id) fs.contents.machines
    → m.id ≡ id
    → let fs' = (Store.Machines.save_machine m fs).1 in
      Keyed (λ (x : Machine). x.id) fs'.contents.machines
      × (get id fs'.contents.machines ≡ some m)
      × (fs'.contents.groups ≡ fs.contents.groups)
      × (fs'.contents.members ≡ fs.contents.members)
unfolding Store.Machines.save_machine
saved id m fs k e = rw contents-commit (
  put-Keyed m.id m fs.contents.machines refl k,
  subst (λ i. get i (put m.id m fs.contents.machines) ≡ some m) e
      (get-put_self m.id m fs.contents.machines),
  refl,
  refl,
)

-- The handler from the look-up of the machine on.
abbrev save_and_recompute : String → Machine → Exec Server HttpError DesiredState
save_and_recompute id m' =
    or_http store_error (on_store (Store.Machines.save_machine m'))
    >> (or_http (http_error 500 "recompute error") (recompute m'.tenant_id (m'.id ∷ []))
        >> read_desired id)

found_machine :
    (id : String) (s : Server) (m : Machine)
    → get id s.store.contents.machines ≡ some m
    → or_http (unknown "not found") (on_store (Store.Machines.get_machine id)) s ≡ (ok m, s)
unfolding Store.Machines.get_machine
found_machine id s m e = rw (e, Store.or_not_found) refl

put_desired-found :
    (id : String) (modules : List ModuleSpec) (s : Server) (m : Machine)
    → get id s.store.contents.machines ≡ some m
    → put_desired id (some modules) s
      ≡ (validate_modules modules >> save_and_recompute id (record m { override = modules })) s
unfolding put_desired
put_desired-found id modules s m e =
    bind_of_ok (or_http (unknown "not found") (on_store (Store.Machines.get_machine id)))
      (λ (x : Machine).
        validate_modules modules >> save_and_recompute id (record x { override = modules }))
      s s m (found_machine id s m e)

put_desired-missing :
    (id : String) (modules : List ModuleSpec) (s : Server) (d : DesiredState)
    → get id s.store.contents.machines ≡ none
    → (put_desired id (some modules) s).0 ≡ ok d
    → ⊥
unfolding put_desired Store.Machines.get_machine
put_desired-missing id modules s d e h = ground (arith, e)

save_and_recompute_lem :
    (id : String) (v : Server) (m : Machine) (d : DesiredState)
    → Keyed (λ (x : Machine). x.id) v.store.contents.machines
    → m.id ≡ id
    → (save_and_recompute id m v).0 ≡ ok d
    → Agrees d m v.store.contents.groups v.store.contents.members
save_and_recompute_lem id v m d k e h =
    let save = or_http store_error (on_store (Store.Machines.save_machine m)) in
    let later : String → Exec Server HttpError DesiredState = λ i.
      or_http (http_error 500 "recompute error") (recompute m.tenant_id (i ∷ []))
      >> read_desired id in
    let t = (save v).1 in
    let (u, done, same) = bind-eq-ok save (λ _. later m.id) v h in
    let (keyed, at, gs, ms) = saved id m v.store k e in
    let agrees =
      recomputed t id m d keyed at
        (subst (λ i. (later i t).0 ≡ ok d) e (sym (ap (λ p. p.0) same) ∙ h)) in
    subst (λ x. Agrees d m x v.store.contents.members) gs
      (subst (λ x. Agrees d m t.store.contents.groups x) ms agrees)

-- Where setting a machine's modules is answered with a desired state, the modules of that state are
-- what the machine's groups and the new overrides compute to.
pub put_desired_lem :
    (id : String) (modules : List ModuleSpec) (s : Server) (d : DesiredState)
    → Keyed (λ (m : Machine). m.id) s.store.contents.machines
    → (put_desired id (some modules) s).0 ≡ ok d
    → (m : Machine) × (get id s.store.contents.machines ≡ some m)
      × Agrees d (record m { override = modules }) s.store.contents.groups s.store.contents.members
put_desired_lem id modules s d k h = elim (Option-cases (get id s.store.contents.machines)) [
  | inl e ↦ absurd (put_desired-missing id modules s d e h)
  | inr (m, e) ↦ (m, e, agreed m e)
]
  where
    agreed :
        (m : Machine)
        → get id s.store.contents.machines ≡ some m
        → Agrees d
            (record m { override = modules })
            s.store.contents.groups
            s.store.contents.members
    agreed m e =
        let m' : Machine = record m { override = modules } in
        let v = (validate_modules modules s).1 in
        let (u, done, same) =
          bind-eq-ok (validate_modules modules) (λ _. save_and_recompute id m') s
            (sym (ap (λ p. p.0) (put_desired-found id modules s m e)) ∙ h) in
        let kept : v.store ≡ s.store = validate-Reads modules s in
        subst (λ (x : FileStore). Agrees d m' x.contents.groups x.contents.members) kept
          (save_and_recompute_lem id v m' d
            (subst (λ (x : FileStore). Keyed (λ (y : Machine). y.id) x.contents.machines) (sym kept)
              k)
            (k.at id m e)
            (sym (ap (λ p. p.0) same)
              ∙ sym (ap (λ p. p.0) (put_desired-found id modules s m e))
              ∙ h))
