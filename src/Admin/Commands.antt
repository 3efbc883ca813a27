-- ===== src/Admin/Commands.antt =====
-- internal/server/commands.go: the handlers of ad-hoc commands. `sign` is `CA.SignModule`, `encode`
-- is the conversion of a string to its bytes, and `history` is the configured
-- `MaxCommandHistory`.
use fleet_core.Prelude.{
  ℕ, String, Bool, true, false, not, ◌||◌, Option, List, [], ◌∷◌, ◌++◌, ltb, if◌then◌else◌, length,
  keep_if, ◌=s=◌,
}
use fleet_core.Prelude.Exec.{ok, err, Exec, pure, raise, ◌>>=◌, ◌>>◌, guard}
use fleet_core.Prelude.Int.{ℤ}
use fleet_core.GoMap.{GoMap, put}
use fleet_core.Api.{Bytes, ModuleSpec, ModuleArtifact, Machine}
use fleet_core.Store
use fleet_core.Store.{StoreError}
use fleet_core.Store.Machines
use fleet_core.Store.Groups
use fleet_core.Store.Modules
use fleet_core.Server.{Server, on_store, new_id, time_now}
use fleet_core.Resolver.{selector_matches, recompute}
use fleet_core.Commands.{is_command, command_name, max_commands, prune_commands}
use fleet_core.Admin.{HttpError, bad_request, unknown, store_error, or_http, decoded, logged}
use fleet_core.Admin.Scripts.{trim_space, with_interpreter}

pub record CreateCommand : Type 0 where
  pub script : String
  pub target_kind : String
  pub target_id : String
  pub selector : GoMap String
  pub label : String
  pub config : GoMap String

pub record Queued : Type 0 where
  pub name : String
  pub created : ℕ
  pub target_kind : String
  pub target_id : String
  pub selector : GoMap String
  pub matched : ℕ
  pub script : String

-- `s.Log.…` on an error, and whether there was none.
abbrev succeeded : {A : Type 0} → Exec Server StoreError A → Exec Server HttpError Bool
succeeded m s = elim (m s).0 [ ok a ↦ (ok true, (m s).1) | err x ↦ (ok false, (m s).1) ]

unfoldable pub forget_commands : List String → Exec Server HttpError (Unit {0})
forget_commands [] = pure tt
forget_commands (n ∷ ns) =
    logged (on_store (Store.Modules.delete_module n "1")) >> forget_commands ns

-- The case `selector` of the checks on the target of a command.
unfoldable pub check_selector_target : CreateCommand → Exec Server HttpError (Unit {0})
check_selector_target req = do
  guard (ltb 0 (length req.selector)) (bad_request "selector required")
  guard (not (req.target_id =s= ""))
      (bad_request "target_id must be the tenant id for selector targeting")

-- The checks on the target of a command.
unfoldable pub check_target : CreateCommand → Exec Server HttpError (Unit {0})
unfolding check_selector_target
check_target req =
    if (req.target_kind =s= "group") || (req.target_kind =s= "machine")
    then guard (not (req.target_id =s= "")) (bad_request "target_id required")
    else if req.target_kind =s= "selector"
    then check_selector_target req
    else raise (bad_request "target_kind must be group, machine or selector")

unfoldable pub command_config : CreateCommand → GoMap String
command_config req = if req.label =s= "" then req.config else put "label" req.label req.config

unfoldable pub finish_selected : String → ModuleSpec → List String → Exec Server HttpError ℕ
finish_selected tenant spec [] = do
  logged (on_store (Store.Modules.delete_module spec.name "1"))
  raise (unknown "selector matched no machines")
finish_selected tenant spec (id ∷ ids) = do
  logged (recompute tenant (id ∷ ids))
  pure (length (id ∷ ids))

module _ (history : ℤ) where
  -- `pruneCommands(append(specs, spec), s.maxCommands())`
  unfoldable pub queue : List ModuleSpec → ModuleSpec → List ModuleSpec × List String
  queue specs spec = prune_commands (specs ++ (spec ∷ [])) (max_commands history)

  unfoldable pub queue_group : String → ModuleSpec → Exec Server HttpError ℕ
  unfolding queue
  queue_group id spec = do
    g ← or_http (unknown "unknown group") (on_store (Store.Groups.get_group id))
    or_http store_error
        (on_store (Store.Groups.save_group (record g { modules = (queue g.modules spec).0 })))
    forget_commands (queue g.modules spec).1
    logged (recompute g.tenant_id [])
    pure 1

  unfoldable pub queue_machine : String → ModuleSpec → Exec Server HttpError ℕ
  unfolding queue
  queue_machine id spec = do
    m ← or_http (unknown "unknown machine") (on_store (Store.Machines.get_machine id))
    or_http store_error
        (on_store (Store.Machines.save_machine (record m { override = (queue m.override spec).0 })))
    forget_commands (queue m.override spec).1
    logged (recompute m.tenant_id (m.id ∷ []))
    pure 1

  -- The body of the loop over the tenant's machines: whether the machine was saved.
  unfoldable pub queue_saved : Machine → ModuleSpec → Exec Server HttpError Bool
  unfolding queue
  queue_saved m spec =
      succeeded
        (on_store (Store.Machines.save_machine (record m { override = (queue m.override spec).0 })))

  -- `s.forgetCommands(dropped); hit = append(hit, m.ID)`
  unfoldable pub hit : Machine → ModuleSpec → Bool → Exec Server HttpError (List String)
  unfolding queue
  hit m spec false = pure []
  hit m spec true = do forget_commands (queue m.override spec).1; pure (m.id ∷ [])

  -- The loop over the tenant's machines: those that match and that could be saved.
  unfoldable pub queue_selected :
      GoMap String → ModuleSpec → List Machine → Exec Server HttpError (List String)
  unfolding queue_saved hit
  queue_selected selector spec [] = pure []
  queue_selected selector spec (m ∷ ms) =
      let visit = do saved ← queue_saved m spec; hit m spec saved
      in do
        here ← if selector_matches selector m.labels then visit else pure []
        rest ← queue_selected selector spec ms
        pure (here ++ rest)

  unfoldable pub queue_selector : String → GoMap String → ModuleSpec → Exec Server HttpError ℕ
  unfolding queue_selected finish_selected
  queue_selector tenant selector spec = do
    machines ← or_http store_error (on_store (Store.Machines.list_machines tenant))
    ids ← queue_selected selector spec machines
    finish_selected tenant spec ids

module _ (sign : Bytes → Bytes) (encode : String → Bytes) (history : ℤ) where
  unfoldable pub create_command : Option CreateCommand → Exec Server HttpError Queued
  unfolding check_target command_config queue_group queue_machine queue_selector
  create_command body = do
    req ← decoded (bad_request "bad request") body
    guard (not (trim_space req.script =s= "")) (bad_request "script required")
    check_target req
    now ← time_now
    id ← new_id
    let name = command_name now id
    let script = with_interpreter (trim_space req.script)
    let art : ModuleArtifact = record {
      name = name;
      version = "1";
      exec = "payload";
      payload = encode script;
      signature = sign (encode script);
    }
    or_http store_error (on_store (Store.Modules.save_module art))
    let spec : ModuleSpec = record { name = name; version = "1"; config = command_config req }
    matched ←
        if req.target_kind =s= "group"
        then queue_group history req.target_id spec
        else if req.target_kind =s= "machine"
        then queue_machine history req.target_id spec
        else queue_selector history req.target_id req.selector spec
    let answer : Queued = record {
      name = name;
      created = now;
      target_kind = req.target_kind;
      target_id = req.target_id;
      selector = req.selector;
      matched = matched;
      script = script;
    }
    pure answer

-- The loop that `cancelCommand` calls `drop`.
unfoldable pub without_name : String → List ModuleSpec → List ModuleSpec
without_name name = keep_if (λ sp. not (sp.name =s= name))

unfoldable pub cancel_in_group : String → String → Exec Server HttpError (Unit {0})
unfolding without_name
cancel_in_group name id = do
  g ← or_http (unknown "unknown group") (on_store (Store.Groups.get_group id))
  or_http store_error
      (on_store (Store.Groups.save_group (record g { modules = without_name name g.modules })))
  logged (recompute g.tenant_id [])

unfoldable pub cancel_in_machine : String → String → Exec Server HttpError (Unit {0})
unfolding without_name
cancel_in_machine name id = do
  m ← or_http (unknown "unknown machine") (on_store (Store.Machines.get_machine id))
  or_http store_error (
      on_store (Store.Machines.save_machine (record m { override = without_name name m.override })))
  logged (recompute m.tenant_id (m.id ∷ []))

unfoldable pub cancel_command : String → String → String → Exec Server HttpError (Unit {0})
unfolding cancel_in_group cancel_in_machine
cancel_command name kind id = do
  guard (is_command name) (bad_request "not a command")
  if kind =s= "group"
      then cancel_in_group name id
      else if kind =s= "machine"
      then cancel_in_machine name id
      else raise (bad_request "target_kind must be group or machine")
