-- ===== src/Resolver/Recompute.antt =====
-- `Recompute` as a whole, called for named machines.
use fleet_core.Prelude.{
  String, ◌≡◌, refl, sym, ap, ◌∙◌, subst, inl, inr, ◌||◌, some, List, [], ◌∷◌, map, keep_if, All,
  ◌=s=◌,
}
use fleet_core.Prelude.Exec.{Result, ok, ◌>>=◌, bind_of_ok, bind_of_err}
use fleet_core.GoMap.{GoMap, get, put}
use fleet_core.Api.{Machine, Group}
use fleet_core.Store.{StoreError}
use fleet_core.Store.Groups.{list_groups, list_group_members, members_of}
use fleet_core.Store.Writes.Keyed.{Keyed}
use fleet_core.Server.{Server}
use fleet_core.Resolver.{
  Members, settle_all, member_set, load_members, load_machines, select_machines, recompute,
}
use fleet_core.Resolver.Settled.{
  settle, Held, settle_all-Rounds, Snapshot, Snapshot-load, load-cases,
}

-- The explicit members of the groups, as `Recompute` reads them.
unfoldable pub members_table : GoMap (GoMap (Unit {0})) → List Group → Members
members_table ms [] = []
members_table ms (g ∷ gs) =
    put g.id (member_set (map (λ e. e.0) (members_of g.id ms))) (members_table ms gs)

-- The groups of the tenant, as `Recompute` reads them.
unfoldable pub groups_of : String → GoMap Group → List Group
groups_of tenant gs = keep_if (λ g. (tenant =s= "") || (g.tenant_id =s= tenant)) (map (λ e. e.1) gs)

load_members-table :
    (gs : List Group) (s : Server)
    → load_members gs s ≡ (ok (members_table s.store.contents.members gs), s)
unfolding load_members members_table list_group_members
load_members-table [] s = refl
load_members-table (g ∷ gs) s = rw (load_members-table gs s)

-- What `Recompute` does once the groups and members are read.
recompute-settle_all :
    (tenant : String) (ids : List String) (s : Server)
    → let d = s.store.contents in
      let groups = groups_of tenant d.groups in
      recompute tenant ids s
      ≡ (select_machines tenant ids >>= settle_all groups (members_table d.members groups)) s
unfolding recompute list_groups groups_of
recompute-settle_all tenant ids s =
    rw (load_members-table (groups_of tenant s.store.contents.groups) s)

Held-Snapshot :
    (held : GoMap Machine) (ids : List String) (ms : List Machine)
    → Keyed (λ (m : Machine). m.id) held
    → Snapshot held ids ms
    → Held held ms
Held-Snapshot held [] [] k h = tt
Held-Snapshot held (id ∷ ids) (m ∷ ms) k h =
    (subst (λ i. get i held ≡ some m) (sym (k.at id m h.0)) h.0, Held-Snapshot held ids ms k h.1)
Held-Snapshot held [] (m ∷ ms) k h = absurd h
Held-Snapshot held (id ∷ ids) [] k h = absurd h

module _ (groups : List Group) (members : Members) where
  Snapshot-settled :
      (held now : GoMap Machine) (ids : List String) (ms : List Machine)
      → Keyed (λ (m : Machine). m.id) held
      → Snapshot held ids ms
      → All (λ (m : Machine). get m.id now ≡ some (settle groups members m)) ms
      → Snapshot now ids (map (settle groups members) ms)
  Snapshot-settled held now [] [] k h a = tt
  Snapshot-settled held now (id ∷ ids) (m ∷ ms) k h a = (
    subst (λ i. get i now ≡ some (settle groups members m)) (k.at id m h.0) a.0,
    Snapshot-settled held now ids ms k h.1 a.1,
  )
  Snapshot-settled held now [] (m ∷ ms) k h a = absurd h
  Snapshot-settled held now (id ∷ ids) [] k h a = absurd h

module _ (tenant id : String) (ids : List String) (s : Server) where
  abbrev pub now_groups : List Group
  now_groups = groups_of tenant s.store.contents.groups

  abbrev pub now_members : Members
  now_members = members_table s.store.contents.members now_groups

  abbrev after : Server
  after = (recompute tenant (id ∷ ids) s).1

  -- What a successful call leaves: groups and members as they were, and each named machine settled.
  pub record Settles (ms : List Machine) : Type 0 where
    pub before : Snapshot s.store.contents.machines (id ∷ ids) ms
    pub settled :
        Snapshot after.store.contents.machines (id ∷ ids) (map (settle now_groups now_members) ms)
    pub groups_same : after.store.contents.groups ≡ s.store.contents.groups
    pub members_same : after.store.contents.members ≡ s.store.contents.members

  select-load : select_machines tenant (id ∷ ids) s ≡ load_machines (id ∷ ids) s
  unfolding select_machines
  select-load = refl

  pub selected :
      (ms : List Machine)
      → Snapshot s.store.contents.machines (id ∷ ids) ms
      → recompute tenant (id ∷ ids) s ≡ settle_all now_groups now_members ms s
  selected ms h =
      recompute-settle_all tenant (id ∷ ids) s
      ∙ bind_of_ok (select_machines tenant (id ∷ ids)) (settle_all now_groups now_members) s s ms
          (select-load ∙ Snapshot-load (id ∷ ids) ms s h)

  -- After a call that succeeds, each named machine has the modules that its groups and overrides
  -- compute to, at a revision that grew by one exactly where the modules changed; the groups and
  -- their members are as they were.
  pub recompute-Settles :
      Keyed (λ (m : Machine). m.id) s.store.contents.machines
      → (recompute tenant (id ∷ ids) s).0 ≡ ok tt
      → (ms : List Machine) × Settles ms
  recompute-Settles k e = elim (load-cases (id ∷ ids) s) [
    | inr (x, h) ↦ absurd (
        cc (
          e,
          ap (λ p. p.0) (recompute-settle_all tenant (id ∷ ids) s),
          bind_of_err (select_machines tenant (id ∷ ids)) (settle_all now_groups now_members) s x
              (ap (λ p. p.0) select-load ∙ h),
        ))
    | inl (ms, h) ↦
        let held = s.store.contents.machines in
        let run = selected ms h in
        let r =
          settle_all-Rounds now_groups now_members held ms s (Held-Snapshot held (id ∷ ids) ms k h)
            (λ i m p. inl p) (sym (ap (λ p. p.0) run) ∙ e) in
        (
          ms,
          record {
            before = h;
            settled =
                subst
                  (λ (p : Result StoreError (Unit {0}) × Server).
                    Snapshot p.1.store.contents.machines (id ∷ ids)
                      (map (settle now_groups now_members) ms))
                  (sym run)
                  (Snapshot-settled now_groups now_members held _ (id ∷ ids) ms k h r.settled);
            groups_same = ap (λ p. p.1.store.contents.groups) run ∙ r.groups_same;
            members_same = ap (λ p. p.1.store.contents.members) run ∙ r.members_same;
          },
        )
  ]
