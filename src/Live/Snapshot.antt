-- ===== src/Live/Snapshot.antt =====
-- internal/server/live.go: the snapshot of the whole fleet.
use fleet_core.Prelude.{
  ℕ, ◌+◌, ◌*◌, ◌^◌, ◌≤◌, String, ◌≡◌, refl, sym, ap, ◌∙◌, ◌↔◌, inl, inr, Bool, true, false, ◌||◌,
  Option, none, some, List, [], ◌∷◌, arith, if◌then◌else◌, Bool-cases, or_else, keep_if, any, ◌=s=◌,
  eq_iff,
}
use fleet_core.Prelude.Exec.{ok}
use fleet_core.GoMap.{GoMap, get, put, values}
use fleet_core.GoMap.Laws.{get-put}
use fleet_core.Api.{MetricsSample, Machine}
use fleet_core.Store.Machines.{list_machines}
use fleet_core.Live.{
  LiveServer, is_fresh, live_freshness, fresh_sample, collect_live, handle_live_all,
}

module _ {F : Type 0} where
  -- What one machine of the list adds to the answer.
  or_else-put :
      (id k : String) (x : Option (MetricsSample F)) (found : Bool) (y : Option (MetricsSample F))
      (out : GoMap (MetricsSample F))
      → (k ≡ id → x ≡ y)
      → or_else (if found then y else none) (get id (elim x [ none ↦ out | some s ↦ put k s out ]))
        ≡ or_else (if (k =s= id) || found then y else none) (get id out)
  or_else-put id k none found y out h = elim (Bool-cases (k =s= id)) [
    | inl e ↦ rw e (rw (sym (h ((eq_iff k id).0 e))) (found_none found))
    | inr e ↦ rw e refl
  ]
    where
      found_none : (b : Bool) → or_else (if b then none else none) (get id out) ≡ get id out
      found_none true = refl
      found_none false = refl
  or_else-put id k (some s) found y out h = elim (Bool-cases (k =s= id)) [
    | inl e ↦ rw (get-put k id s out) (rw e (rw (sym (h ((eq_iff k id).0 e))) (some_found found)))
    | inr e ↦ rw (get-put k id s out) (rw e refl)
  ]
    where
      some_found : (b : Bool) → or_else (if b then some s else none) (some s) ≡ some s
      some_found true = refl
      some_found false = refl

  get-collect_live :
      (id : String) (now : ℕ) (live : GoMap (MetricsSample F)) (ms : List Machine)
      (out : GoMap (MetricsSample F))
      → get id (collect_live now live ms out)
        ≡ or_else
            (if any (λ m. m.id =s= id) ms then fresh_sample now live id else none)
            (get id out)
  unfolding collect_live
  get-collect_live id now live [] out = refl
  get-collect_live id now live (m ∷ ms) out =
      get-collect_live id now live ms _
      ∙ or_else-put id m.id (fresh_sample now live m.id) (any (λ n. n.id =s= id) ms)
          (fresh_sample now live id) out (λ e. ap (fresh_sample now live) e)

  listed_fresh-some :
      (id : String) (now : ℕ) (live : GoMap (MetricsSample F)) (listed : Bool) (s : MetricsSample F)
      → (or_else (if listed then fresh_sample now live id else none) none ≡ some s)
        ↔ ((listed ≡ true) × (get id live ≡ some s) × (now ≤ s.at_unix * 10 ^ 9 + live_freshness))
  unfolding fresh_sample is_fresh
  listed_fresh-some id now live listed s = ground arith

  -- The snapshot changes no state and has a machine's sample exactly if the tenant's list has the
  -- machine, the registry holds that sample for it, and the sample's time is at most 30 seconds ago.
  pub handle_live_all_lem :
      (now : ℕ) (tenant : String) (l : LiveServer F)
      → let visible =
          keep_if
            (λ m. (tenant =s= "") || (m.tenant_id =s= tenant))
            (values l.server.store.contents.machines) in
        (out : GoMap (MetricsSample F)) × (handle_live_all now tenant l ≡ (ok out, l))
        × ((id : String) (s : MetricsSample F)
            → (get id out ≡ some s) ↔ (
                (any (λ m. m.id =s= id) visible ≡ true)
                × (get id l.samples ≡ some s)
                × (now ≤ s.at_unix * 10 ^ 9 + live_freshness)))
  unfolding handle_live_all list_machines get
  handle_live_all_lem now tenant l =
      let visible =
        keep_if (λ m. (tenant =s= "") || (m.tenant_id =s= tenant))
          (values l.server.store.contents.machines) in
      (
        collect_live now l.samples visible [],
        refl,
        λ id s.
            rw (get-collect_live id now l.samples visible [])
              (listed_fresh-some id now l.samples (any (λ m. m.id =s= id) visible) s),
      )
