-- ===== src/Agent/Settled.antt =====
-- internal/agent/modules.go: a machine whose modules are all applied.
use fleet_core.Prelude.{
  ℕ, String, ◌≡◌, refl, sym, ap, ◌∙◌, Bool, true, Option, some, List, [], ◌∷◌, arith, is_some, All,
  ◌=s=◌, eq_iff, eq_refl,
}
use fleet_core.GoMap.{GoMap, get}
use fleet_core.GoMap.Laws.{get-put}
use fleet_core.Api.{Bytes, ModuleSpec, ModuleStatus, DesiredState}
use fleet_core.Agent.{
  Attempt, Agent, applied_key, apply, attempt, converge, converge_all, is_wanted, forget,
  modules_of, reconcile, load_applied, save_applied, written,
}
use fleet_core.Agent.Wanted.{forget-keeps, forget-is_wanted}

abbrev pub IsApplied : ModuleStatus → Type 0
IsApplied st = (st.state =s= "applied") ≡ true

-- The agent holds each status, which is `applied`, under the key of its spec.
abbrev Holds : Agent → List ModuleSpec → List ModuleStatus → Type 0
Holds a [] [] = Unit
Holds a (spec ∷ specs) (st ∷ sts) =
    ((get (applied_key spec) a.applied ≡ some st) × IsApplied st) × Holds a specs sts
Holds a _ _ = ⊥

module _ (text : Bytes → String) (env : ℕ → Attempt) where
  converge-stays :
      (spec : ModuleSpec) (a : Agent) (k : String) (st : ModuleStatus)
      → get k a.applied ≡ some st
      → IsApplied st
      → get k (converge text env spec a).1.applied ≡ some st
  unfolding converge attempt
  converge-stays spec a k st e h = ground (
    arith,
    get-put (applied_key spec) k (apply text env spec (env a.attempts)) a.applied,
    eq_iff (applied_key spec) k,
  )

  converge_all-stays :
      (specs : List ModuleSpec) (a : Agent) (k : String) (st : ModuleStatus)
      → get k a.applied ≡ some st
      → IsApplied st
      → get k (converge_all text env specs a).1.applied ≡ some st
  unfolding converge_all
  converge_all-stays [] a k st e h = e
  converge_all-stays (spec ∷ specs) a k st e h =
      converge_all-stays specs (converge text env spec a).1 k st (converge-stays spec a k st e h) h

  converge-recorded :
      (spec : ModuleSpec) (a : Agent)
      → get (applied_key spec) (converge text env spec a).1.applied
        ≡ some (converge text env spec a).0
  unfolding converge attempt
  converge-recorded spec a = ground (
    arith,
    get-put (applied_key spec) (applied_key spec) (apply text env spec (env a.attempts)) a.applied,
    eq_refl (applied_key spec),
  )

  converge_all-Holds :
      (specs : List ModuleSpec) (a : Agent)
      → All IsApplied (converge_all text env specs a).0
      → Holds (converge_all text env specs a).1 specs (converge_all text env specs a).0
  unfolding converge_all
  converge_all-Holds [] a h = tt
  converge_all-Holds (spec ∷ specs) a h = (
    (
      converge_all-stays specs (converge text env spec a).1 (applied_key spec)
          (converge text env spec a).0 (converge-recorded spec a) h.0,
      h.0,
    ),
    converge_all-Holds specs (converge text env spec a).1 h.1,
  )

  converge-Holds :
      (spec : ModuleSpec) (a : Agent) (st : ModuleStatus)
      → get (applied_key spec) a.applied ≡ some st
      → IsApplied st
      → converge text env spec a ≡ (st, a)
  unfolding converge
  converge-Holds spec a st e h = ground arith

  converge_all-same :
      (specs : List ModuleSpec) (a : Agent) (sts : List ModuleStatus)
      → Holds a specs sts
      → converge_all text env specs a ≡ (sts, a)
  unfolding converge_all
  converge_all-same [] a [] h = refl
  converge_all-same [] a (st ∷ sts) h = absurd h
  converge_all-same (spec ∷ specs) a [] h = absurd h
  converge_all-same (spec ∷ specs) a (st ∷ sts) h =
      ap (λ r. (r.0 ∷ (converge_all text env specs r.1).0, (converge_all text env specs r.1).1))
        (converge-Holds spec a st h.0.0 h.0.1)
      ∙ ap (λ r. (st ∷ r.0, r.1)) (converge_all-same specs a sts h.1)

Holds-file :
    (specs : List ModuleSpec) (a : Agent) (sts : List ModuleStatus)
    (file : Option (GoMap ModuleStatus))
    → Holds a specs sts
    → Holds (record a { file = file }) specs sts
Holds-file [] a [] file h = tt
Holds-file [] a (st ∷ sts) file h = absurd h
Holds-file (spec ∷ specs) a [] file h = absurd h
Holds-file (spec ∷ specs) a (st ∷ sts) file h = (h.0, Holds-file specs a sts file h.1)

module _ (removable : String → Bool) where
  Holds-forget :
      (all specs : List ModuleSpec) (es : List (String × ModuleStatus)) (a : Agent)
      (sts : List ModuleStatus)
      → All (λ sp. is_wanted all (applied_key sp) ≡ true) specs
      → Holds a specs sts
      → Holds (forget removable all es a) specs sts
  Holds-forget all [] es a [] w h = tt
  Holds-forget all [] es a (st ∷ sts) w h = absurd h
  Holds-forget all (spec ∷ specs) es a [] w h = absurd h
  Holds-forget all (spec ∷ specs) es a (st ∷ sts) w h = (
    (forget-keeps removable all es a (applied_key spec) w.0 ∙ h.0.0, h.0.1),
    Holds-forget all specs es a sts w.1 h.1,
  )

  -- Where every entry is wanted, the second loop does nothing.
  forget-same :
      (specs : List ModuleSpec) (es : List (String × ModuleStatus)) (a : Agent)
      → ((k : String) → is_some (get k es) ≡ true → is_wanted specs k ≡ true)
      → forget removable specs es a ≡ a
  unfolding forget get
  forget-same specs [] a h = refl
  forget-same specs ((j, st) ∷ es) a h =
      ap (forget removable specs es) (ground (arith, h j, eq_refl j))
      ∙ forget-same specs es a (λ k p. h k (ground arith))

wanted-weaken :
    (sp : ModuleSpec) (all specs : List ModuleSpec)
    → All (λ s. is_wanted all (applied_key s) ≡ true) specs
    → All (λ s. is_wanted (sp ∷ all) (applied_key s) ≡ true) specs
unfolding is_wanted
wanted-weaken sp all [] h = tt
wanted-weaken sp all (s ∷ specs) h = (ground arith, wanted-weaken sp all specs h.1)

All-wanted : (specs : List ModuleSpec) → All (λ s. is_wanted specs (applied_key s) ≡ true) specs
unfolding is_wanted
All-wanted [] = tt
All-wanted (s ∷ specs) =
    (ground (arith, eq_refl (applied_key s)), wanted-weaken s specs specs (All-wanted specs))

-- Once a reconcile reports every module as applied and could write applied.json, to reconcile the
-- same desired state again runs nothing, whatever the outside world would answer: the report and the
-- agent stay the same.
pub reconcile_idem :
    (text : Bytes → String) (env env' : ℕ → Attempt) (removable : String → Bool) (ds : DesiredState)
    (a : Agent)
    → All IsApplied (reconcile text env removable written ds a).0.modules
    → reconcile text env' removable written ds (reconcile text env removable written ds a).1
      ≡ reconcile text env removable written ds a
unfolding reconcile load_applied save_applied
reconcile_idem text env env' removable ds a h =
    let specs = modules_of ds in
    let start : Agent = record a { applied = load_applied a } in
    let sts = (converge_all text env specs start).0 in
    let a' = (converge_all text env specs start).1 in
    let b = forget removable specs a'.applied a' in
    let b' : Agent = record b { file = some b.applied } in
    let holds =
      Holds-forget removable specs specs a'.applied a' sts (All-wanted specs)
        (converge_all-Holds text env specs start h) in
    ap
      (λ (r : List ModuleStatus × Agent). (
        record { revision = ds.revision; modules = r.0 },
        save_applied written (forget removable specs r.1.applied r.1),
      ))
      (converge_all-same text env' specs b' sts (Holds-file specs b sts (some b.applied) holds))
    ∙ ap (λ c. (record { revision = ds.revision; modules = sts }, save_applied written c))
        (forget-same removable specs b.applied b'
          (λ k p. sym (forget-is_wanted text env removable specs start k) ∙ p))
