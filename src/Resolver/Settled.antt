-- ===== src/Resolver/Settled.antt =====
-- What `Recompute` leaves in the store for the machines that it is called with.
use fleet_core.Prelude.{
  ◌+◌, String, ◌≡◌, refl, sym, ap, ◌∙◌, subst, ◌⊎◌, inl, inr, Bool, true, some, List, [], ◌∷◌, map,
  arith, if◌then◌else◌, Bool-cases, Option-cases, All, ◌=s=◌, eq_iff, eq_refl,
}
use fleet_core.Prelude.Exec.{Result, ok, err, pure, bind-eq-ok, bind_of_err}
use fleet_core.GoMap.{GoMap, get}
use fleet_core.GoMap.Laws.{get-put}
use fleet_core.Sort.{sort_slice}
use fleet_core.Sort.Laws.{by_name}
use fleet_core.Api.{ModuleSpec, Machine, Group}
use fleet_core.Store.{StoreError, not_found, commit, flush, or_not_found}
use fleet_core.Store.Machines.{get_machine, save_machine}
use fleet_core.Server.{Server, publish}
use fleet_core.Resolver.{
  Members, entry_key, compute_modules, same_entries, same_spec, same_specs, same_json,
  settle_machine, settle_all, load_machines,
}

same_entries_refl : (a : GoMap String) → same_entries a a ≡ true
unfolding same_entries
same_entries_refl [] = refl
same_entries_refl ((k, v) ∷ a) = rw (eq_refl k, eq_refl v) (same_entries_refl a)

same_specs_refl : (a : List ModuleSpec) → same_specs a a ≡ true
unfolding same_specs same_spec
same_specs_refl [] = refl
same_specs_refl (s ∷ ss) =
    rw
      (
        eq_refl s.name,
        eq_refl s.version,
        same_entries_refl (sort_slice (by_name entry_key) s.config),
      )
      (same_specs_refl ss)

-- Each listed machine is the one that the map holds under its own identity.
abbrev pub Held : GoMap Machine → List Machine → Type 0
Held old = All (λ (m : Machine). get m.id old ≡ some m)

module _ (groups : List Group) (members : Members) where
  -- The machine's stored modules are those that its groups and overrides compute to.
  abbrev pub is_settled : Machine → Bool
  is_settled m = same_json m.desired.modules (some (compute_modules m groups members))

  -- The machine with its desired state brought up to date: the revision grows by one exactly if
  -- the modules change.
  unfoldable pub settle : Machine → Machine
  settle m = if is_settled m then m else record m {
    desired = record {
      revision = m.desired.revision + 1;
      modules = some (compute_modules m groups members);
    };
  }

  pub settle_settles : (m : Machine) → is_settled (settle m) ≡ true
  unfolding settle same_json compute_modules
  settle_settles m = elim (Bool-cases (is_settled m)) [
    | inl e ↦ rw (e, settle) e
    | inr e ↦ rw (e, settle) (same_specs_refl (compute_modules m groups members))
  ]

  pub id-settle : (m : Machine) → (settle m).id ≡ m.id
  unfolding settle
  id-settle m = ground arith

  -- What one round of the loop leaves: the groups and their members as they were, and the machine settled.
  record Round (m : Machine) (s s' : Server) : Type 0 where
    pub groups_same : s'.store.contents.groups ≡ s.store.contents.groups
    pub members_same : s'.store.contents.members ≡ s.store.contents.members
    machines :
        (i : String)
        → get i s'.store.contents.machines
          ≡ (if m.id =s= i then some (settle m) else get i s.store.contents.machines)

  settle_machine-Round :
      (m : Machine) (s : Server)
      → (get m.id s.store.contents.machines ≡ some m)
        ⊎ (get m.id s.store.contents.machines ≡ some (settle m))
      → (settle_machine groups members m s).0 ≡ ok tt
      → Round m s (settle_machine groups members m s).1
  unfolding settle_machine settle save_machine commit flush publish
  settle_machine-Round m s h e = elim (Bool-cases (is_settled m)) [
    | inl same ↦ record {
      groups_same = ground arith;
      members_same = ground arith;
      machines = λ i. ground (arith, eq_iff m.id i);
    }
    | inr changed ↦ record {
      groups_same = ground arith;
      members_same = ground arith;
      machines = λ i. ground (arith, get-put m.id i (settle m) s.store.contents.machines);
    }
  ]

  -- The machines that a run starts from are settled or as they were.
  abbrev pub Evolves : GoMap Machine → GoMap Machine → Type 0
  Evolves old now =
      (i : String) (m : Machine)
      → get i old ≡ some m
      → (get i now ≡ some m) ⊎ (get i now ≡ some (settle m))

  Evolves-Round :
      (old : GoMap Machine) (m : Machine) (s s' : Server)
      → Round m s s'
      → get m.id old ≡ some m
      → Evolves old s.store.contents.machines
      → Evolves old s'.store.contents.machines
  Evolves-Round old m s s' r p h i n q = elim (Bool-cases (m.id =s= i)) [
    | inl e ↦ inr (ground (arith, r.machines i, eq_iff m.id i, p, q))
    | inr e ↦ elim (h i n q) [
      | inl u ↦ inl (ground (arith, r.machines i, u))
      | inr u ↦ inr (ground (arith, r.machines i, u))
    ]
  ]

  Done-Round :
      (old : GoMap Machine) (m n : Machine) (s s' : Server)
      → Round m s s'
      → get m.id old ≡ some m
      → get n.id old ≡ some n
      → get n.id s.store.contents.machines ≡ some (settle n)
      → get n.id s'.store.contents.machines ≡ some (settle n)
  Done-Round old m n s s' r p q d = ground (arith, r.machines n.id, eq_iff m.id n.id, p, q, d)

  -- What the whole loop leaves.
  pub record Rounds (ms : List Machine) (s s' : Server) : Type 0 where
    pub groups_same : s'.store.contents.groups ≡ s.store.contents.groups
    pub members_same : s'.store.contents.members ≡ s.store.contents.members
    pub settled : All (λ (m : Machine). get m.id s'.store.contents.machines ≡ some (settle m)) ms
    pub kept :
        (old : GoMap Machine) (n : Machine)
        → Held old ms
        → get n.id old ≡ some n
        → get n.id s.store.contents.machines ≡ some (settle n)
        → get n.id s'.store.contents.machines ≡ some (settle n)

  pub settle_all-Rounds :
      (old : GoMap Machine) (ms : List Machine) (s : Server)
      → Held old ms
      → Evolves old s.store.contents.machines
      → (settle_all groups members ms s).0 ≡ ok tt
      → Rounds ms s (settle_all groups members ms s).1
  unfolding settle_all
  settle_all-Rounds old [] s h v e = record {
    groups_same = refl;
    members_same = refl;
    settled = tt;
    kept = λ o n a p d. d;
  }
  settle_all-Rounds old (m ∷ ms) s h v e =
      let one = settle_machine groups members m in
      let (a, fine, whole) = bind-eq-ok one (λ _. settle_all groups members ms) s e in
      let r = settle_machine-Round m s (v m.id m h.0) fine in
      let rest =
        settle_all-Rounds old ms (one s).1 h.1 (Evolves-Round old m s (one s).1 r h.0 v)
          (sym (ap (λ p. p.0) whole) ∙ e) in
      subst (λ (p : Result StoreError (Unit {0}) × Server). Rounds (m ∷ ms) s p.1) (sym whole)
        (record {
          groups_same = rest.groups_same ∙ r.groups_same;
          members_same = rest.members_same ∙ r.members_same;
          settled = (
            rest.kept old m h.1 h.0 (ground (arith, r.machines m.id, eq_refl m.id)),
            rest.settled,
          );
          kept = λ o n b p d. rest.kept o n b.1 p (Done-Round o m n s (one s).1 r b.0 p d);
        })

  -- A settled machine is left alone: nothing is written or published.
  pub settle_all_settled :
      (ms : List Machine) (s : Server) → settle_all groups members (map settle ms) s ≡ (ok tt, s)
  unfolding settle_all settle_machine
  settle_all_settled [] s = refl
  settle_all_settled (m ∷ ms) s = rw (settle_settles m) (settle_all_settled ms s)

-- The identities name the machines, one by one.
abbrev pub Snapshot : GoMap Machine → List String → List Machine → Type 0
Snapshot held [] [] = Unit
Snapshot held (id ∷ ids) (m ∷ ms) = (get id held ≡ some m) × Snapshot held ids ms
Snapshot held _ _ = ⊥

pub Snapshot-load :
    (ids : List String) (ms : List Machine) (s : Server)
    → Snapshot s.store.contents.machines ids ms
    → load_machines ids s ≡ (ok ms, s)
unfolding load_machines get_machine
Snapshot-load [] [] s h = refl
Snapshot-load (id ∷ ids) (m ∷ ms) s h = rw (h.0, or_not_found) (rw (Snapshot-load ids ms s h.1))
Snapshot-load (id ∷ ids) [] s h = absurd h
Snapshot-load [] (m ∷ ms) s h = absurd h

-- The machines that are loaded, or a store error.
pub load-cases :
    (ids : List String) (s : Server)
    → ((ms : List Machine) × Snapshot s.store.contents.machines ids ms)
      ⊎ ((e : StoreError) × ((load_machines ids s).0 ≡ err e))
unfolding load_machines get_machine
load-cases [] s = inl ([], tt)
load-cases (id ∷ ids) s = elim (Option-cases (get id s.store.contents.machines)) [
  | inl e ↦ inr (not_found, rw (e, or_not_found))
  | inr (m, e) ↦ elim (load-cases ids s) [
    | inl (ms, h) ↦ inl (m ∷ ms, (e, h))
    | inr (x, h) ↦
        inr (
          x,
          rw (e, or_not_found) (bind_of_err (load_machines ids) (λ rest. pure (m ∷ rest)) s x h),
        )
  ]
]
