-- ===== src/Store/Writes.antt =====
-- The calls of the Store interface that write, as one type: what each does to memory and to
-- the file.
pub mod Keyed
pub mod TokenLimit
pub mod UsesLeft
use fleet_core.Prelude.{
  ℕ, zero, suc, ◌+◌, ◌-◌, ◌*◌, ◌/◌, ◌%◌, ◌^◌, ◌≤◌, ◌<◌, String, ◌≡◌, refl, sym, ap, ap₂, ◌∙◌, subst,
  ◌≢◌, ◌↔◌, ◌⊎◌, inl, inr, Bool, true, false, not, ◌&&◌, ◌||◌, Option, none, some, List, [], ◌∷◌,
  ◌++◌, map, arith, ltb, leb, ◌==◌, if◌then◌else◌, Bool-cases, Option-cases, is_some, or_else,
  length, take, drop, keep_if, any, length-append, take-append-drop, length-take, length-keep_if-le,
  All, ◌=s=◌, ◌<s◌, eq_iff, eq_refl, <s_irrefl, <s_trans, <s_asym, <s_total,
}
use fleet_core.Prelude.Exec.{
  Result, ok, err, Exec, pure, raise, gets, continue, ◌>>=◌, ◌>>◌, modify, guard,
}
use fleet_core.Api.{Tenant, EnrollToken, Machine, Inventory, ModuleStatus, ModuleArtifact, Group}
use fleet_core.Store.{
  FileData, FileStore, FileRead, found, StoreError, commit, save_tenant, open_file, restart,
}
use fleet_core.Store.Tokens.{save_token, consume_token}
use fleet_core.Store.Machines.{save_machine, delete_machine, touch_heartbeat, set_status}
use fleet_core.Store.Modules.{save_module, delete_module}
use fleet_core.Store.Groups.{save_group, delete_group, add_group_member, remove_group_member}

-- A call that writes, with its arguments.
pub data Write : Type 0 where
  tenant : Tenant → Write
  token : EnrollToken → Write
  consume : ℕ → String → Write
  machine : Machine → Write
  drop_machine : String → Write
  heartbeat : String → ℕ → Inventory → Write
  status : String → ℕ → List ModuleStatus → Write
  artifact : ModuleArtifact → Write
  drop_artifact : String → String → Write
  group : Group → Write
  drop_group : String → Write
  member : String → String → Write
  drop_member : String → String → Write

-- The call, without the token that `ConsumeToken` returns.
unfoldable pub call : Write → Exec FileStore StoreError (Unit {0})
call (tenant t) = save_tenant t
call (token t) = save_token t
call (consume now k) = do consume_token now k; pure tt
call (machine m) = save_machine m
call (drop_machine id) = delete_machine id
call (heartbeat id t inv) = touch_heartbeat id t inv
call (status id t st) = set_status id t st
call (artifact a) = save_module a
call (drop_artifact n v) = delete_module n v
call (group g) = save_group g
call (drop_group id) = delete_group id
call (member g m) = add_group_member g m
call (drop_member g m) = remove_group_member g m

-- A call that answers without an error is in the file: a restart changes nothing that memory holds.
pub restart-call :
    (w : Write) (fs : FileStore)
    → (call w fs).0 ≡ ok tt
    → (restart (call w fs).1).contents ≡ (call w fs).1.contents
unfolding call restart commit save_tenant save_token consume_token save_machine delete_machine
    touch_heartbeat set_status save_module delete_module save_group delete_group add_group_member
    remove_group_member
restart-call (tenant t) fs h = ground arith
restart-call _ fs h = ground arith

-- A call that answers with an error leaves the file as it was.
pub error_keeps_disk :
    (w : Write) (fs : FileStore) {e : StoreError}
    → (call w fs).0 ≡ err e
    → (call w fs).1.disk ≡ fs.disk
unfolding call commit save_tenant save_token consume_token save_machine delete_machine
    touch_heartbeat set_status save_module delete_module save_group delete_group add_group_member
    remove_group_member
error_keeps_disk (tenant t) fs h = ground arith
error_keeps_disk _ fs h = ground arith
