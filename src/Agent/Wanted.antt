-- ===== src/Agent/Wanted.antt =====
-- internal/agent/modules.go: which keys applied.json holds after `reconcile`, and what is reported.
use fleet_core.Prelude.{
  ℕ, String, ◌≡◌, refl, sym, ap, ◌∙◌, inl, inr, Bool, true, false, not, ◌&&◌, ◌||◌, none, List, [],
  ◌∷◌, arith, if◌then◌else◌, Bool-cases, is_some, ◌=s=◌, eq_iff,
}
use fleet_core.GoMap.{get, delete}
use fleet_core.GoMap.Laws.{get-put, get-delete}
use fleet_core.Api.{Bytes, ModuleSpec, ModuleStatus, DesiredState}
use fleet_core.Agent.{
  Attempt, Agent, applied_key, apply, attempt, converge, converge_all, is_wanted, forget,
  remove_module_dir, modules_of, reconcile, load_applied, save_applied, written,
}

module _ (text : Bytes → String) (env : ℕ → Attempt) where
  attempt-has :
      (spec : ModuleSpec) (a : Agent) (k : String)
      → is_some (get k (attempt text env spec a).1.applied)
        ≡ ((applied_key spec =s= k) || is_some (get k a.applied))
  unfolding attempt
  attempt-has spec a k =
      ground (arith, get-put (applied_key spec) k (apply text env spec (env a.attempts)) a.applied)

  converge-has :
      (spec : ModuleSpec) (a : Agent) (k : String)
      → is_some (get k (converge text env spec a).1.applied)
        ≡ ((applied_key spec =s= k) || is_some (get k a.applied))
  unfolding converge
  converge-has spec a k = ground (arith, attempt-has spec a k, eq_iff (applied_key spec) k)

  pub converge_all-has :
      (specs : List ModuleSpec) (a : Agent) (k : String)
      → is_some (get k (converge_all text env specs a).1.applied)
        ≡ (is_wanted specs k || is_some (get k a.applied))
  unfolding converge_all is_wanted
  converge_all-has [] a k = refl
  converge_all-has (spec ∷ specs) a k =
      ground (arith, converge-has spec a k, converge_all-has specs (converge text env spec a).1 k)

module _ (removable : String → Bool) (specs : List ModuleSpec) where
  -- The agent after one round of the second loop.
  abbrev round : String → ModuleStatus → Agent → Agent
  round key st a = if is_wanted specs key then a else record a {
    applied = delete key a.applied;
    dirs = remove_module_dir removable st.name st.version a.dirs;
  }

  get-round :
      (j : String) (st : ModuleStatus) (a : Agent) (k : String)
      → get k (round j st a).applied
        ≡ (if (j =s= k) && not (is_wanted specs k) then none else get k a.applied)
  get-round j st a k = ground (arith, get-delete j k a.applied, eq_iff j k)

  pub forget-keeps :
      (es : List (String × ModuleStatus)) (a : Agent) (k : String)
      → is_wanted specs k ≡ true
      → get k (forget removable specs es a).applied ≡ get k a.applied
  unfolding forget
  forget-keeps [] a k w = refl
  forget-keeps ((j, st) ∷ es) a k w =
      forget-keeps es (round j st a) k w ∙ ground (arith, get-round j st a k)

  forget-drops :
      (es : List (String × ModuleStatus)) (a : Agent) (k : String)
      → is_wanted specs k ≡ false
      → (is_some (get k a.applied) ≡ true → is_some (get k es) ≡ true)
      → get k (forget removable specs es a).applied ≡ none
  unfolding forget get
  forget-drops [] a k w h = ground arith
  forget-drops ((j, st) ∷ es) a k w h =
      forget-drops es (round j st a) k w (λ p. ground (arith, get-round j st a k))

pub forget-is_wanted :
    (text : Bytes → String) (env : ℕ → Attempt) (removable : String → Bool)
    (specs : List ModuleSpec) (a : Agent) (k : String)
    → let a' = (converge_all text env specs a).1 in
      is_some (get k (forget removable specs a'.applied a').applied) ≡ is_wanted specs k
forget-is_wanted text env removable specs a k =
    let a' = (converge_all text env specs a).1 in
    elim (Bool-cases (is_wanted specs k)) [
      | inl e ↦
          ap is_some (forget-keeps removable specs a'.applied a' k e)
          ∙ converge_all-has text env specs a k
          ∙ ground arith
      | inr e ↦ ap is_some (forget-drops removable specs a'.applied a' k e (λ p. p)) ∙ sym e
    ]

-- After a `reconcile` that could write applied.json, the file has an entry for a key exactly if the
-- desired state has a module of that key.
pub reconcile-is_wanted :
    (text : Bytes → String) (env : ℕ → Attempt) (removable : String → Bool) (ds : DesiredState)
    (a : Agent) (k : String)
    → is_some (get k (load_applied (reconcile text env removable written ds a).1))
      ≡ is_wanted (modules_of ds) k
unfolding reconcile load_applied save_applied
reconcile-is_wanted text env removable ds a k =
    forget-is_wanted text env removable (modules_of ds) (record a { applied = load_applied a }) k
