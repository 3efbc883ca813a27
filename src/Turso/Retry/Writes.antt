-- ===== src/Turso/Retry/Writes.antt =====
-- internal/store/turso.go: which of the calls that write may be repeated.
use fleet_core.Prelude.{ℕ, String, ◌≡◌, refl, true, ◌&&◌, List, [], ◌∷◌, eq_refl, arith}
use fleet_core.Store.Writes.{
  Write, tenant, token, consume, machine, drop_machine, heartbeat, status, artifact, drop_artifact,
  group, drop_group, member, drop_member,
}
use fleet_core.Turso.{
  text, str, arg, sent, Fits, param, SqlValue, Hrana, IsHrana, Fate, Remote, HranaResult, ◌=v=◌,
}
use fleet_core.Turso.Tables.{Tables}
use fleet_core.Turso.Machines.{
  Json, insert_machine, save_machine, delete_machine, delete_machine_members, delete_machine_row,
  touch_heartbeat, set_status, update_inventory, update_status, found_some,
}
use fleet_core.Turso.Accounts.{insert_tenant, insert_token, save_tenant, save_token}
use fleet_core.Turso.Modules.{insert_module, delete_module_row, save_module, delete_module}
use fleet_core.Turso.Groups.{
  insert_group, insert_member, delete_member, delete_group_members, delete_group_row, save_group,
  delete_group, add_group_member, remove_group_member,
}
use fleet_core.Turso.Writes.{remote_call}
use fleet_core.Turso.Retry.{healthy, attempts, Repeats, one-Repeats, two-Repeats}
use fleet_core.Turso.Retry.Statements.{
  insert_tenant-twice, insert_machine-twice, insert_group-twice, insert_module-twice,
  insert_member-twice, delete_machine_members-twice, delete_machine_row-twice,
  delete_group_members-twice, delete_group_row-twice, delete_module_row-twice, delete_member-twice,
  update_inventory-twice, update_status-twice, insert_token-twice,
}

keeps_found : (r : HranaResult) (ts : Remote Tables) → (found_some r ts).1.db ≡ ts.db
keeps_found r ts = ground arith

-- No call but ConsumeToken; and the keys are not empty.
abbrev pub Repeatable : Write → Type 0
Repeatable (tenant t) = Fits (str t.id)
Repeatable (token t) = Fits (str t.token)
Repeatable (consume now k) = ⊥
Repeatable (machine m) = Fits (str m.id)
Repeatable (drop_machine id) = Fits (str id)
Repeatable (artifact a) = Fits (str a.name) × Fits (str a.version)
Repeatable (group g) = Fits (str g.id)
Repeatable (drop_group id) = Fits (str id)
Repeatable (member g m) = Fits (str g) × Fits (str m)
Repeatable _ = Unit

module _ (j : Json) (h : Hrana) (hrana : IsHrana h) where
  self :
      (s : String) {vs rest : List SqlValue}
      → Fits (str s)
      → vs ≡ h.read (sent (arg (str s))) ∷ rest
      → (param 0 vs =v= param 0 vs) ≡ true
  unfolding ◌=v=◌
  self s f e = rw e (rw (hrana.read_arg (str s) f) (eq_refl s))

  selves :
      (s t : String) {vs rest : List SqlValue}
      → Fits (str s)
      → Fits (str t)
      → vs ≡ h.read (sent (arg (str s))) ∷ h.read (sent (arg (str t))) ∷ rest
      → ((param 0 vs =v= param 0 vs) && (param 1 vs =v= param 1 vs)) ≡ true
  unfolding ◌=v=◌
  selves s t f g e =
      rw e (rw (hrana.read_arg (str s) f, hrana.read_arg (str t) g) (rw (eq_refl s) (eq_refl t)))

  again : (w : Write) → Repeatable w → Repeats (remote_call j h w)
  unfolding remote_call save_tenant save_token save_machine delete_machine touch_heartbeat
      set_status save_module delete_module save_group delete_group add_group_member
      remove_group_member delete_machine_members delete_machine_row delete_group_members
      delete_group_row
  again (tenant t) r =
      one-Repeats h insert_tenant _ _ (λ _ ts. refl)
        (λ vs e db. insert_tenant-twice vs db (self t.id r e))
  again (token t) r =
      one-Repeats h insert_token _ _ (λ _ ts. refl)
        (λ vs e db. insert_token-twice vs db (self t.token r e))
  again (consume now k) r = elim r [ ]
  again (machine m) r =
      one-Repeats h insert_machine _ _ (λ _ ts. refl)
        (λ vs e db. insert_machine-twice vs db (self m.id r e))
  again (drop_machine id) r =
      two-Repeats h hrana delete_machine_members delete_machine_row (str id)
        (λ db. (delete_machine_members (text id ∷ []) db).1)
        (λ db. (delete_machine_row (text id ∷ []) db).1) _ _ r (λ db. refl) (λ db. refl)
        (delete_machine_members-twice (text id ∷ [])) (delete_machine_row-twice (text id ∷ []))
        (λ db. refl)
  again (heartbeat id t inv) r =
      one-Repeats h update_inventory _ _ keeps_found (λ vs e. update_inventory-twice vs)
  again (status id t st) r =
      one-Repeats h update_status _ _ keeps_found (λ vs e. update_status-twice vs)
  again (artifact a) r =
      one-Repeats h insert_module _ _ (λ _ ts. refl)
        (λ vs e db. insert_module-twice vs db (selves a.name a.version r.0 r.1 e))
  again (drop_artifact n v) r =
      one-Repeats h delete_module_row _ _ (λ _ ts. refl) (λ vs e. delete_module_row-twice vs)
  again (group g) r =
      one-Repeats h insert_group _ _ (λ _ ts. refl)
        (λ vs e db. insert_group-twice vs db (self g.id r e))
  again (drop_group id) r =
      two-Repeats h hrana delete_group_members delete_group_row (str id)
        (λ db. (delete_group_members (text id ∷ []) db).1)
        (λ db. (delete_group_row (text id ∷ []) db).1) _ _ r (λ db. refl) (λ db. refl)
        (delete_group_members-twice (text id ∷ [])) (delete_group_row-twice (text id ∷ []))
        (λ db. refl)
  again (member g m) r =
      one-Repeats h insert_member _ _ (λ _ ts. refl)
        (λ vs e db. insert_member-twice vs db (selves g m r.0 r.1 e))
  again (drop_member g m) r =
      one-Repeats h delete_member _ _ (λ _ ts. refl) (λ vs e. delete_member-twice vs)

  -- A call other than ConsumeToken, whose keys are not empty, that is repeated after any attempts, each with whatever replies, of
  -- which each request may have run or not, leaves the tables that one delivered call leaves.
  pub attempts_then_delivered :
      (w : Write) (tries : List (ℕ → Fate)) (db : Tables)
      → Repeatable w
      → (remote_call j h w (healthy (attempts (remote_call j h w) tries db))).1.db
        ≡ (remote_call j h w (healthy db)).1.db
  attempts_then_delivered w tries db r = again w r tries db
