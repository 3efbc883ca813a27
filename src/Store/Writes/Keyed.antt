-- ===== src/Store/Writes/Keyed.antt =====
-- The records of the store and the identities under which they stand, through each call.
use fleet_core.Prelude.{
  ℕ, String, ◌≡◌, refl, ◌∙◌, ◌⊎◌, inl, inr, ◌||◌, some, [], arith, Bool-cases, Option-cases, eq_iff,
}
use fleet_core.Prelude.Exec.{state-continue-pure}
use fleet_core.GoMap.{GoMap, get, put, delete}
use fleet_core.GoMap.Laws.{get-put, get-delete}
use fleet_core.Api.{Tenant, EnrollToken, Machine, ModuleArtifact, Group}
use fleet_core.Store.{FileData, FileStore, commit, flush, or_not_found, save_tenant, no_data}
use fleet_core.Store.Tokens.{
  save_token, consume_token, legacy, use_once, expired, exhausted, token_limit,
}
use fleet_core.Store.Machines.{save_machine, delete_machine, touch_heartbeat, set_status}
use fleet_core.Store.Modules.{module_key, save_module, delete_module}
use fleet_core.Store.Groups.{save_group, delete_group, add_group_member, remove_group_member}
use fleet_core.Store.Writes.{
  Write, tenant, token, consume, machine, drop_machine, heartbeat, status, artifact, drop_artifact,
  group, drop_group, member, drop_member, call,
}

-- Each value stands under the key that `name` computes from it.
pub record Keyed {V : Type 0} (name : V → String) (m : GoMap V) : Type 0 where
  pub at : (k : String) (v : V) → get k m ≡ some v → name v ≡ k

module _ {V : Type 0} {name : V → String} where
  pub put-Keyed :
      (k : String) (v : V) (m : GoMap V) → name v ≡ k → Keyed name m → Keyed name (put k v m)
  put-Keyed k v m e h = record {
    at = λ j w p. ground (arith, get-put k j v m, eq_iff k j, h.at j w);
  }

  delete-Keyed : (k : String) (m : GoMap V) → Keyed name m → Keyed name (delete k m)
  delete-Keyed k m h = record { at = λ j w p. ground (arith, get-delete k j m, h.at j w) }

  Keyed-nil : Keyed name []
  unfolding get
  Keyed-nil = record { at = λ k v p. cc }

-- Tenants, tokens, machines and groups stand under their identity, artifacts under name@version.
pub record IsKeyed (d : FileData) : Type 0 where
  pub tenants : Keyed (λ (t : Tenant). t.id) d.tenants
  pub tokens : Keyed (λ (t : EnrollToken). t.token) d.tokens
  pub machines : Keyed (λ (m : Machine). m.id) d.machines
  pub modules : Keyed (λ (a : ModuleArtifact). module_key a.name a.version) d.modules
  pub groups : Keyed (λ (g : Group). g.id) d.groups

-- An empty store is keyed.
pub no_data-IsKeyed : IsKeyed no_data
no_data-IsKeyed = record {
  tenants = Keyed-nil;
  tokens = Keyed-nil;
  machines = Keyed-nil;
  modules = Keyed-nil;
  groups = Keyed-nil;
}

pub contents-commit :
    (f : FileData → FileData) (fs : FileStore) → (commit f fs).1.contents ≡ f fs.contents
unfolding commit
contents-commit f fs = ground arith

module _ (fs : FileStore) (h : IsKeyed fs.contents) where
  machine_at :
      (f : Machine → Machine) (id : String) (m : Machine)
      → (f m).id ≡ m.id
      → get id fs.contents.machines ≡ some m
      → IsKeyed (record fs.contents { machines = put id (f m) fs.contents.machines })
  machine_at f id m e p = record {
    tenants = h.tenants;
    tokens = h.tokens;
    machines = put-Keyed id (f m) fs.contents.machines (e ∙ h.machines.at id m p) h.machines;
    modules = h.modules;
    groups = h.groups;
  }

  token_at :
      (k : String) (t : EnrollToken)
      → get k fs.contents.tokens ≡ some t
      → IsKeyed (record fs.contents { tokens = put k (use_once (legacy t)) fs.contents.tokens })
  unfolding use_once legacy
  token_at k t p = record {
    tenants = h.tenants;
    tokens =
        put-Keyed k (use_once (legacy t)) fs.contents.tokens (ground (arith, h.tokens.at k t p))
          h.tokens;
    machines = h.machines;
    modules = h.modules;
    groups = h.groups;
  }

consumed :
    (now : ℕ) (k : String) (fs : FileStore)
    → ((consume_token now k fs).1.contents ≡ fs.contents)
      ⊎ ((t : EnrollToken) × (get k fs.contents.tokens ≡ some t)
          × ((consume_token now k fs).1.contents
              ≡ record fs.contents { tokens = put k (use_once (legacy t)) fs.contents.tokens }))
unfolding consume_token commit flush
consumed now k fs = elim (Option-cases (get k fs.contents.tokens)) [
  | inl e ↦ inl (ground arith)
  | inr (t, e) ↦
      elim (Bool-cases (expired now t || exhausted (token_limit (legacy t)) (legacy t).uses)) [
        | inl no_use ↦ inl (ground arith)
        | inr fits ↦ inr (t, e, ground arith)
      ]
]

consume-IsKeyed :
    (now : ℕ) (k : String) (fs : FileStore)
    → IsKeyed fs.contents
    → IsKeyed (consume_token now k fs).1.contents
consume-IsKeyed now k fs h = elim (consumed now k fs) [
  | inl e ↦ rw e h
  | inr (t, p, e) ↦ rw e (token_at fs h k t p)
]

-- Every call of the store, failing or not, keeps all records under their own identity.
pub call-IsKeyed :
    (w : Write) (fs : FileStore) → IsKeyed fs.contents → IsKeyed (call w fs).1.contents
unfolding call save_tenant save_token save_machine delete_machine touch_heartbeat set_status
    save_module delete_module save_group delete_group add_group_member remove_group_member
call-IsKeyed (tenant t) fs h = rw contents-commit (record {
  tenants = put-Keyed t.id t _ refl h.tenants;
  tokens = h.tokens;
  machines = h.machines;
  modules = h.modules;
  groups = h.groups;
})
call-IsKeyed (token t) fs h = rw contents-commit (record {
  tenants = h.tenants;
  tokens = put-Keyed t.token t _ refl h.tokens;
  machines = h.machines;
  modules = h.modules;
  groups = h.groups;
})
call-IsKeyed (consume now k) fs h = rw state-continue-pure (consume-IsKeyed now k fs h)
call-IsKeyed (machine m) fs h = rw contents-commit (record {
  tenants = h.tenants;
  tokens = h.tokens;
  machines = put-Keyed m.id m _ refl h.machines;
  modules = h.modules;
  groups = h.groups;
})
call-IsKeyed (drop_machine id) fs h = rw contents-commit (record {
  tenants = h.tenants;
  tokens = h.tokens;
  machines = delete-Keyed id _ h.machines;
  modules = h.modules;
  groups = h.groups;
})
call-IsKeyed (heartbeat id t inv) fs h = elim (Option-cases (get id fs.contents.machines)) [
  | inl e ↦ rw (e, or_not_found) h
  | inr (m, e) ↦
      rw (e, or_not_found)
        (rw contents-commit
          (machine_at fs h (λ x. record x { last_seen = t; inventory = inv }) id m refl e))
]
call-IsKeyed (status id t st) fs h = elim (Option-cases (get id fs.contents.machines)) [
  | inl e ↦ rw (e, or_not_found) h
  | inr (m, e) ↦
      rw (e, or_not_found)
        (rw contents-commit
          (machine_at fs h (λ x. record x { last_seen = t; status = st }) id m refl e))
]
call-IsKeyed (artifact a) fs h = rw contents-commit (record {
  tenants = h.tenants;
  tokens = h.tokens;
  machines = h.machines;
  modules = put-Keyed (module_key a.name a.version) a _ refl h.modules;
  groups = h.groups;
})
call-IsKeyed (drop_artifact n v) fs h = rw contents-commit (record {
  tenants = h.tenants;
  tokens = h.tokens;
  machines = h.machines;
  modules = delete-Keyed (module_key n v) _ h.modules;
  groups = h.groups;
})
call-IsKeyed (group g) fs h = rw contents-commit (record {
  tenants = h.tenants;
  tokens = h.tokens;
  machines = h.machines;
  modules = h.modules;
  groups = put-Keyed g.id g _ refl h.groups;
})
call-IsKeyed (drop_group id) fs h = rw contents-commit (record {
  tenants = h.tenants;
  tokens = h.tokens;
  machines = h.machines;
  modules = h.modules;
  groups = delete-Keyed id _ h.groups;
})
call-IsKeyed (member g m) fs h = rw contents-commit (record {
  tenants = h.tenants;
  tokens = h.tokens;
  machines = h.machines;
  modules = h.modules;
  groups = h.groups;
})
call-IsKeyed (drop_member g m) fs h = rw contents-commit (record {
  tenants = h.tenants;
  tokens = h.tokens;
  machines = h.machines;
  modules = h.modules;
  groups = h.groups;
})
