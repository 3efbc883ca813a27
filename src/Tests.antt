-- ===== src/Tests.antt =====
-- Concrete runs of the development: a store with one tenant, a machine, two groups and a token, and
-- for each theorem that has hypotheses a case in which they hold.
mod Host
mod Live
mod Remote
mod Boot
mod Schema
use mathlib.Core.List.{Permᴰ}
use mathlib.Core.List.Permᴰ
use fleet_core.Prelude.{
  ℕ, is_some, ◌≤◌, String, ◌≡◌, refl, sym, ap, ◌∙◌, subst, Bool, true, false, not, Option, none,
  some, List, [], ◌∷◌, map, arith, length, keep_if, All, ◌=s=◌, ◌<s◌, eq_iff,
}
use fleet_core.Prelude.Exec.{ok, err}
use fleet_core.Prelude.Int.{pos}
use fleet_core.Admin
use fleet_core.GoMap.{GoMap, get, put, values}
use fleet_core.GoMap.Laws.{Distinct}
use fleet_core.Sort.{sort_slice}
use fleet_core.Sort.Laws.{by_name}
use fleet_core.Api.{
  Bytes, DesiredState, ModuleSpec, Machine, Group, EnrollToken, Inventory, StatusReport,
}
use fleet_core.Store.{FileData, FileStore, no_data, restart}
use fleet_core.Store.Tokens
use fleet_core.Store
use fleet_core.Server
use fleet_core.Store.Writes.{machine, consume, call, restart-call, error_keeps_disk}
use fleet_core.Store.Writes.Keyed.{IsKeyed, no_data-IsKeyed, call-IsKeyed}
use fleet_core.Store.Writes.UsesLeft.{Fits}
use fleet_core.Store.Writes.TokenLimit.{Event, does, crash, redemptions, HasRoom, redemptions-le}
use fleet_core.Bus
use fleet_core.Bus.{InProc, Chan, new_in_proc, subscribe, subscribers}
use fleet_core.Bus.Laws.{
  IsWoken, IsValid, subscribed, publish_wakes, Step-IsValid, cancel-subscribe,
}
use fleet_core.Server.{Server}
use fleet_core.Resolver.{compute_modules, effective, same_json, recompute, group_name, spec_name}
use fleet_core.Resolver.Names.{find_spec, last_spec, Ascending}
use fleet_core.Resolver.Effective.{
  given, compute_modules-Ascending, find-compute_modules, compute_modules_unique,
  compute_modules_deterministic,
}
use fleet_core.Resolver.Recompute.{Settles, recompute-Settles, groups_of}
use fleet_core.Resolver.Repeated.{relisted, recompute_idem}
use fleet_core.Commands.{
  command_name, command_created_at, is_command, commands_of, is_listed, prune_commands,
}
use fleet_core.Commands.Names.{command_created_at-command_name, is_command-command_name}
use fleet_core.Commands.Prune.{cap, prune_commands_bound, prune_commands_rest}
use fleet_core.Admin.{HttpError, unknown}
use fleet_core.Admin.Machines.{delete_machine}
use fleet_core.Agent.{Attempt, Agent, reconcile, is_wanted, modules_of, load_applied, written}
use fleet_core.Agent.Wanted.{reconcile-is_wanted}
use fleet_core.Agent.Settled.{IsApplied, reconcile_idem}
use fleet_core.Admin.Machines.{put_desired}
use fleet_core.Admin.Desired.{Agrees, put_desired_lem}
use fleet_core.Admin.Refusals.{serve, patch_group, refused_changes_nothing}
use fleet_core.AgentApi.{
  Identity, Wake, forbidden, no_inventory, handle_renew, handle_heartbeat, handle_status,
  handle_stream,
}
use fleet_core.AgentApi.Revocation.{deleted_machine_refused}

abbrev spec : String → String → ModuleSpec
spec name version = record { name = name; version = version; config = [] }

abbrev pub box : Machine
box = record {
  id = "m1";
  tenant_id = "t1";
  name = "box";
  labels = ("role", "gpu") ∷ [];
  enrolled = 100;
  last_seen = 100;
  inventory = no_inventory;
  override = spec "agent" "3" ∷ [];
  desired = record { revision = 0; modules = none };
  status = [];
}

abbrev everyone : Group
everyone = record {
  id = "g1";
  tenant_id = "t1";
  name = "all";
  match_all = true;
  selector = [];
  modules = spec "agent" "1" ∷ spec "base" "1" ∷ [];
  created = 100;
}

abbrev gpus : Group
gpus = record {
  id = "g2";
  tenant_id = "t1";
  name = "gpus";
  match_all = false;
  selector = ("role", "gpu") ∷ [];
  modules = spec "base" "2" ∷ spec "cuda" "1" ∷ [];
  created = 100;
}

abbrev pass : EnrollToken
pass = record {
  token = "k1";
  tenant_id = "t1";
  labels = [];
  created = 100;
  expires_at = 0;
  max_uses = pos 2;
  uses = 1;
  used = false;
}

abbrev data_now : FileData
data_now = record {
  tenants = [];
  tokens = ("k1", pass) ∷ [];
  machines = ("m1", box) ∷ [];
  modules = [];
  groups = ("g1", everyone) ∷ ("g2", gpus) ∷ [];
  members = [];
}

abbrev fleet : FileStore
fleet = record { contents = data_now; disk = some data_now; io = λ n. true; writes = 0 }

abbrev read_only : FileStore
read_only = record { contents = data_now; disk = some data_now; io = λ n. false; writes = 0 }

abbrev pub server : Server
server = record { store = fleet; bus = new_in_proc; now = 200; fresh = λ n. "00ff00ff"; issued = 0 }

abbrev groups : List Group
groups = everyone ∷ gpus ∷ []

box_modules :
    compute_modules box groups [] ≡ spec "agent" "3" ∷ spec "base" "2" ∷ spec "cuda" "1" ∷ []
unfolding compute_modules sort_slice put ◌<s◌ get
box_modules = refl

find-compute_modules_example :
    find_spec "agent" (compute_modules box groups []) ≡ last_spec "agent" (given box groups [])
find-compute_modules_example = find-compute_modules "agent" box groups []

compute_modules_unique_example :
    spec "agent" "3" ∷ spec "base" "2" ∷ spec "cuda" "1" ∷ [] ≡ compute_modules box groups []
compute_modules_unique_example =
    compute_modules_unique box groups [] (spec "agent" "3" ∷ spec "base" "2" ∷ spec "cuda" "1" ∷ [])
      (subst Ascending box_modules (compute_modules-Ascending box groups []))
      (λ n. ap (find_spec n) (sym box_modules) ∙ find-compute_modules n box groups [])

groups-Distinct : Distinct (map group_name groups)
groups-Distinct = ((refl, tt), (tt, tt))

compute_modules_deterministic_example :
    sort_slice (by_name spec_name) (values (effective box (gpus ∷ everyone ∷ []) []))
    ≡ compute_modules box groups []
compute_modules_deterministic_example =
    compute_modules_deterministic box groups (gpus ∷ everyone ∷ []) []
      (values (effective box (gpus ∷ everyone ∷ []) [])) groups-Distinct (Permᴰ.swap refl refl)
      (Permᴰ.refl _)

data_now-IsKeyed : IsKeyed data_now
unfolding get
data_now-IsKeyed = record {
  tenants = no_data-IsKeyed.tenants;
  tokens = record { at = λ k v p. ground (arith, eq_iff "k1" k) };
  machines = record { at = λ k v p. ground (arith, eq_iff "m1" k) };
  modules = no_data-IsKeyed.modules;
  groups = record { at = λ k v p. ground (arith, eq_iff "g1" k, eq_iff "g2" k) };
}

recompute_ok : (recompute "t1" ("m1" ∷ []) server).0 ≡ ok tt
unfolding recompute Store.Groups.list_groups Store.Groups.list_group_members
    Store.Machines.get_machine get same_json Store.Machines.save_machine Store.commit Server.publish
recompute_ok = refl

recompute-Settles_example : (ms : List Machine) × Settles "t1" "m1" [] server ms
recompute-Settles_example =
    recompute-Settles "t1" "m1" [] server data_now-IsKeyed.machines recompute_ok

-- The store's groups, listed in the other order the second time.
abbrev swapped : GoMap Group
swapped = ("g2", gpus) ∷ ("g1", everyone) ∷ []

recompute_idem_example :
    let s' = relisted swapped (recompute "t1" ("m1" ∷ []) server).1 in
    recompute "t1" ("m1" ∷ []) s' ≡ (ok tt, s')
unfolding groups_of
recompute_idem_example =
    recompute_idem "t1" "m1" [] server swapped data_now-IsKeyed.machines ((refl, tt), (tt, tt))
      (Permᴰ.swap refl refl) recompute_ok

save_ok : (call (machine box) fleet).0 ≡ ok tt
unfolding call Store.Machines.save_machine Store.commit
save_ok = refl

restart-call_example :
    (restart (call (machine box) fleet).1).contents ≡ (call (machine box) fleet).1.contents
restart-call_example = restart-call (machine box) fleet save_ok

save_fails : (call (machine box) read_only).0 ≡ err Store.io_failed
unfolding call Store.Machines.save_machine Store.commit
save_fails = refl

error_keeps_disk_example : (call (machine box) read_only).1.disk ≡ some data_now
error_keeps_disk_example = error_keeps_disk (machine box) read_only save_fails

call-IsKeyed_example : IsKeyed (call (consume 200 "k1") fleet).1.contents
call-IsKeyed_example = call-IsKeyed (consume 200 "k1") fleet data_now-IsKeyed

-- Two enrollments are asked for, with a crash between them.
abbrev run : List Event
run = does (consume 200 "k1") ∷ crash ∷ does (consume 201 "k1") ∷ []

fleet-HasRoom : HasRoom "k1" 1 fleet
unfolding get Store.Tokens.token_limit Store.Tokens.legacy
fleet-HasRoom = record {
  in_memory = λ t p. fits t p;
  in_file = λ d t e p. let q : data_now ≡ d = cc in fits t (ap (λ x. get "k1" x.tokens) q ∙ p);
}
  where
    fits : (t : EnrollToken) → some pass ≡ some t → Fits 1 t
    fits t p = let q : pass ≡ t = cc in subst (Fits 1) q (2, refl, omega arith)

redemptions-le_example : redemptions "k1" run fleet ≤ 1
redemptions-le_example = redemptions-le "k1" 1 run fleet (tt, (tt, (tt, tt))) fleet-HasRoom

new_in_proc-IsValid : IsValid new_in_proc
unfolding get
new_in_proc-IsValid = record { chans = λ t. tt; occupied = λ t e. cc }

Step-IsValid_example : IsValid (subscribe "m1" new_in_proc).1
Step-IsValid_example = Step-IsValid (subscribed "m1") new_in_proc-IsValid

abbrev history : List ModuleSpec
history = spec "cmd-10-a" "1" ∷ spec "base" "1" ∷ spec "cmd-30-b" "1" ∷ spec "cmd-20-c" "1" ∷ []

prune_commands_bound_example : length (commands_of (prune_commands history 2).0) ≤ cap 2
prune_commands_bound_example = prune_commands_bound history 2

no_such_group : (serve (λ b. b) (patch_group "g9" none) server).0 ≡ err (unknown "not found")
unfolding serve Admin.Groups.update_group Store.Groups.get_group get
no_such_group = refl

refused_changes_nothing_example : (serve (λ b. b) (patch_group "g9" none) server).1.store ≡ fleet
refused_changes_nothing_example =
    refused_changes_nothing (λ b. b) (patch_group "g9" none) server (unknown "not found")
      no_such_group (omega arith)

abbrev me : Identity
me = record { machine_id = "m1"; tenant_id = "t1" }

delete_ok : (delete_machine "m1" server).0 ≡ ok tt
unfolding delete_machine Store.Machines.get_machine get Store.Machines.delete_machine Store.commit
    Server.publish
delete_ok = refl

deleted_machine_refused_example :
    let s' = (delete_machine "m1" server).1 in
    ((sign : String → String → String → Option String) (csr : String)
      → (handle_renew sign me (some csr) s').0 ≡ err (forbidden "unknown machine"))
    × ((inv : Inventory)
        → (handle_heartbeat me (some inv) s').0 ≡ err (forbidden "unknown machine"))
    × ((rep : StatusReport)
        → (handle_status me (some rep) s').0 ≡ err (forbidden "unknown machine"))
    × ((ws : List (Wake × Server × Bool)) (up : Bool) → (handle_stream me ws up s').0 ≡ [])
deleted_machine_refused_example =
    deleted_machine_refused me server data_now-IsKeyed.machines delete_ok

-- The world as it answers where nothing goes wrong.
abbrev pub works : ℕ → Attempt
works n = record {
  download =
      ok (record { name = "base"; version = "1"; exec = "payload"; payload = []; signature = [] });
  signature_error = none;
  dir_error = none;
  write_error = none;
  run_error = none;
  output = [];
  at_unix = 300;
}

-- The world as it answers where no artifact can be downloaded.
abbrev fails : ℕ → Attempt
fails n = record (works n) { download = err "no route" }

abbrev pub no_text : Bytes → String
no_text b = ""

abbrev pub removable : String → Bool
removable dir = true

abbrev pub new_agent : Agent
new_agent = record { file = none; applied = []; dirs = []; attempts = 0 }

abbrev pub wanted : DesiredState
wanted = record { revision = 1; modules = some (spec "base" "2" ∷ spec "cuda" "1" ∷ []) }

All-IsApplied : All IsApplied (reconcile no_text works removable written wanted new_agent).0.modules
unfolding reconcile get put sort_slice
All-IsApplied = (refl, (refl, tt))

reconcile-is_wanted_example :
    is_some
      (get "cuda@1" (load_applied (reconcile no_text works removable written wanted new_agent).1))
    ≡ is_wanted (modules_of wanted) "cuda@1"
reconcile-is_wanted_example = reconcile-is_wanted no_text works removable wanted new_agent "cuda@1"

reconcile_idem_example :
    reconcile no_text fails removable written wanted
      (reconcile no_text works removable written wanted new_agent).1
    ≡ reconcile no_text works removable written wanted new_agent
reconcile_idem_example = reconcile_idem no_text works fails removable wanted new_agent All-IsApplied

abbrev without_override : DesiredState
without_override = record {
  revision = 1;
  modules = some (spec "agent" "1" ∷ spec "base" "2" ∷ spec "cuda" "1" ∷ []);
}

put_desired_ok : (put_desired "m1" (some []) server).0 ≡ ok without_override
unfolding put_desired Store.Machines.get_machine get Admin.validate_modules
    Store.Machines.save_machine Store.commit recompute Store.Groups.list_groups
    Store.Groups.list_group_members put same_json Server.publish compute_modules sort_slice ◌<s◌
put_desired_ok = refl

put_desired_lem_example :
    (m : Machine) × (get "m1" data_now.machines ≡ some m)
    × Agrees without_override (record m { override = [] }) data_now.groups data_now.members
put_desired_lem_example =
    put_desired_lem "m1" [] server without_override data_now-IsKeyed.machines put_desired_ok
