-- ===== src/Agent.antt =====
-- internal/agent/modules.go: how an agent drives its machine to the desired modules. What the control
-- plane, the disk and the module's process answer during one `apply` is an `Attempt`, the n-th one
-- `env n`; `text` is the conversion of bytes to a string. `file` is what applied.json decodes to,
-- nothing where it is missing or malformed, `applied` the map that `reconcile` works on, and `dirs`
-- the module directories that exist.
pub mod Wanted
pub mod Settled
pub mod Runtime
pub mod Enrollment
use fleet_core.Prelude.{
  ℕ, ◌+◌, String, Bool, false, not, ◌&&◌, Option, none, some, List, [], ◌∷◌, ◌++◌, map, leb,
  if◌then◌else◌, is_some, length, take, any, ◌=s=◌, ◌<s◌,
}
use fleet_core.Prelude.Exec.{Result, ok, err}
use Prim.Native.String.{◌++◌ as ◌++s◌}
use fleet_core.GoMap.{GoMap, get, get_text, put, delete}
use fleet_core.Sort.{sort_slice}
use fleet_core.Api.{Bytes, ModuleSpec, ModuleArtifact, ModuleStatus, DesiredState, StatusReport}

pub record Attempt : Type 0 where
  pub download : Result String ModuleArtifact
  pub signature_error : Option String
  pub dir_error : Option String
  pub write_error : Option String
  pub run_error : Option String
  pub output : Bytes
  pub at_unix : ℕ

pub record Agent : Type 0 where
  pub file : Option (GoMap ModuleStatus)
  pub applied : GoMap ModuleStatus
  pub dirs : GoMap (Unit {0})
  pub attempts : ℕ

-- "...(truncated)"
abbrev cut_mark : Bytes
cut_mark = 46 ∷ 46 ∷ 46 ∷ 40 ∷ 116 ∷ 114 ∷ 117 ∷ 110 ∷ 99 ∷ 97 ∷ 116 ∷ 101 ∷ 100 ∷ 41 ∷ []

unfoldable pub truncate : Bytes → ℕ → Bytes
truncate s n = if leb (length s) n then s else take n s ++ cut_mark

unfoldable pub sorted_keys : GoMap String → List String
sorted_keys config = sort_slice (λ a b. a <s b) (map (λ e. e.0) config)

-- `b.WriteString("|" + k + "=" + spec.Config[k])` for each key.
unfoldable pub key_entries : GoMap String → List String → String
key_entries config [] = ""
key_entries config (k ∷ ks) =
    "|" ++s (k ++s ("=" ++s (get_text k config ++s key_entries config ks)))

unfoldable pub applied_key : ModuleSpec → String
unfolding sorted_keys key_entries
applied_key spec =
    spec.name ++s ("@" ++s (spec.version ++s key_entries spec.config (sorted_keys spec.config)))

unfoldable pub module_dir : String → String → String
module_dir name version = name ++s ("-" ++s version)

abbrev failed : ModuleSpec → ℕ → String → ModuleStatus
failed spec at detail = record {
  name = spec.name;
  version = spec.version;
  state = "failed";
  detail = detail;
  at_unix = at;
}

module _ (text : Bytes → String) (env : ℕ → Attempt) where
  -- The end of `apply`, once the payload is on disk.
  unfoldable pub ran : ModuleSpec → Attempt → ModuleStatus
  unfolding truncate
  ran spec at = elim at.run_error [
    | some e ↦ failed spec at.at_unix (e ++s (": " ++s text (truncate at.output 4096)))
    | none ↦ record {
      name = spec.name;
      version = spec.version;
      state = "applied";
      detail = text (truncate at.output 4096);
      at_unix = at.at_unix;
    }
  ]

  -- `apply` after the signature is verified.
  unfoldable pub unpacked : ModuleSpec → Attempt → ModuleStatus
  unfolding ran
  unpacked spec at = elim at.dir_error [
    | some e ↦ failed spec at.at_unix e
    | none ↦ elim at.write_error [ some e ↦ failed spec at.at_unix e | none ↦ ran spec at ]
  ]

  unfoldable pub apply : ModuleSpec → Attempt → ModuleStatus
  unfolding unpacked
  apply spec at = elim at.download [
    | err e ↦ failed spec at.at_unix ("download: " ++s e)
    | ok art ↦ elim at.signature_error [
      | some e ↦ failed spec at.at_unix ("signature: " ++s e)
      | none ↦ unpacked spec at
    ]
  ]

  -- Whether `apply` comes to make the module's directory, and makes it.
  unfoldable pub makes_dir : Attempt → Bool
  makes_dir at = elim at.download [
    | err e ↦ false
    | ok art ↦ not (is_some at.signature_error) && not (is_some at.dir_error)
  ]

  -- The call of `apply` in the loop, and `applied[key] = st`.
  unfoldable pub attempt : ModuleSpec → Agent → ModuleStatus × Agent
  unfolding apply makes_dir
  attempt spec a =
      let at = env a.attempts in
      let st = apply spec at in
      (
        st,
        record a {
          applied = put (applied_key spec) st a.applied;
          dirs = if makes_dir at then put (module_dir spec.name spec.version) tt a.dirs else a.dirs;
          attempts = a.attempts + 1;
        },
      )

  -- The body of the first loop of `reconcile`: a module that is applied is not run again.
  unfoldable pub converge : ModuleSpec → Agent → ModuleStatus × Agent
  unfolding attempt
  converge spec a = elim (get (applied_key spec) a.applied) [
    | none ↦ attempt spec a
    | some st ↦ if st.state =s= "applied" then (st, a) else attempt spec a
  ]

  unfoldable pub converge_all : List ModuleSpec → Agent → List ModuleStatus × Agent
  unfolding converge
  converge_all [] a = ([], a)
  converge_all (spec ∷ specs) a =
      let (st, a') = converge spec a in let (sts, a'') = converge_all specs a' in (st ∷ sts, a'')

-- `want[key]`
unfoldable pub is_wanted : List ModuleSpec → String → Bool
unfolding applied_key
is_wanted specs key = any (λ sp. applied_key sp =s= key) specs

-- `removeModuleDir`, for a directory that can be removed.
unfoldable pub remove_module_dir :
    (String → Bool) → String → String → GoMap (Unit {0}) → GoMap (Unit {0})
unfolding module_dir
remove_module_dir removable name version dirs =
    if not (name =s= "") && removable (module_dir name version)
    then delete (module_dir name version) dirs
    else dirs

-- The second loop of `reconcile`, over the entries of `applied`.
unfoldable pub forget :
    (String → Bool) → List ModuleSpec → List (String × ModuleStatus) → Agent → Agent
unfolding is_wanted remove_module_dir
forget removable specs [] a = a
forget removable specs ((key, st) ∷ es) a = forget removable specs es (
    if is_wanted specs key then a else record a {
      applied = delete key a.applied;
      dirs = remove_module_dir removable st.name st.version a.dirs;
    })

-- The modules of a desired state; a nil slice has none.
abbrev pub modules_of : DesiredState → List ModuleSpec
modules_of ds = elim ds.modules [ none ↦ [] | some specs ↦ specs ]

-- `loadApplied`
unfoldable pub load_applied : Agent → GoMap ModuleStatus
load_applied a = elim a.file [ none ↦ [] | some m ↦ m ]

-- How the write of applied.json ends: `os.WriteFile` can also fail before or in the middle of it.
pub data Save : Type 0 where
  written untouched garbled : Save

unfoldable pub save_applied : Save → Agent → Agent
save_applied written a = record a { file = some a.applied }
save_applied untouched a = a
save_applied garbled a = record a { file = none }

-- The report that goes to the control plane, and the agent afterwards.
unfoldable pub reconcile :
    (Bytes → String)
    → (ℕ → Attempt)
    → (String → Bool)
    → Save
    → DesiredState
    → Agent
    → StatusReport × Agent
unfolding converge_all forget load_applied save_applied
reconcile text env removable save ds a =
    let (sts, a') = converge_all text env (modules_of ds) (record a { applied = load_applied a }) in
    (
      record { revision = ds.revision; modules = sts },
      save_applied save (forget removable (modules_of ds) a'.applied a'),
    )
