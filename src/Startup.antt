-- ===== src/Startup.antt =====
-- cmd/fleet-agent/main.go, with Run of internal/agent/agent.go, and the names for which cmd/fleet-server/main.go
-- asks a certificate. A command is a function of its flags, of what it meets and of the agent's directory.
pub mod Identity
pub mod Names
use fleet_core.Prelude.{
  ℕ, zero, suc, ◌*◌, ◌^◌, String, Bool, ◌||◌, Option, List, [], ◌∷◌, if◌then◌else◌, ◌=s=◌,
}
use fleet_core.Prelude.Exec.{ok, err}
use fleet_core.Prelude.Int.{ℤ, pos, negsuc}
use fleet_core.Prelude.Bytes.{Text}
use fleet_core.Agent.Enrollment.{
  Files, FirstContact, enroll, enrolled, load_keys, RenewalWorld, maybe_renew_cert,
}

-- The flags of `enroll` and of `run` after they are parsed. An interval is in nanoseconds.
pub record Flags : Type 0 where
  pub server : String
  pub token : String
  pub name : String
  pub fingerprint : Text
  pub heartbeat : ℤ

pub data Outcome : Type 0 where
  exit : ℕ → Outcome
  -- The loops run, with this time between two heartbeats.
  started : ℕ → Outcome

-- What a start of the agent meets: the order of a map, the control plane that answers an enrollment and a
-- renewal, and the checks of a key pair and of the pinned authority.
pub record World : Type 0 where
  pub order : List (String × Text) → List (String × Text)
  pub contact : FirstContact
  pub renewal : RenewalWorld
  pub pair : Text → Text → Option String
  pub has_certs : Text → Bool

unfoldable pub enroll_command : World → Flags → Files → Outcome × Files
enroll_command w f files =
    if f.server =s= "" || f.token =s= ""
    then (exit 2, files)
    else if enrolled files
    then (exit 1, files)
    else let (r, files') = enroll w.order w.contact f.token f.name f.fingerprint files in
      elim r [ ok u ↦ (exit 0, files') | err e ↦ (exit 1, files') ]

-- `if a.Heartbeat <= 0 { a.Heartbeat = 30 * time.Second }`
unfoldable pub heartbeat_every : ℤ → ℕ
heartbeat_every (pos zero) = 30 * 10 ^ 9
heartbeat_every (pos (suc n)) = suc n
heartbeat_every (negsuc n) = 30 * 10 ^ 9

-- `Run` up to its loops. An error of `init` ends the command.
unfoldable pub run : World → Flags → Files → Outcome × Files
unfolding heartbeat_every
run w f files = elim (load_keys w.pair w.has_certs files) [
  | err e ↦ (exit 1, files)
  | ok keys ↦ (started (heartbeat_every f.heartbeat), maybe_renew_cert w.renewal files)
]

unfoldable pub run_command : World → Flags → Files → Outcome × Files
unfolding run
run_command w f files =
    if f.server =s= ""
    then (exit 2, files)
    else if enrolled files
    then run w f files
    else if f.token =s= ""
    then (exit 1, files)
    else let (r, files') = enroll w.order w.contact f.token f.name f.fingerprint files in
      elim r [ ok u ↦ run w f files' | err e ↦ (exit 1, files') ]

-- The agent is started again and again, each time with its own flags, by its service.
unfoldable pub restarts : List (World × Flags) → Files → List Outcome × Files
unfolding run_command
restarts [] files = ([], files)
restarts ((w, f) ∷ starts) files =
    let (out, files') = run_command w f files in
    let (outs, files'') = restarts starts files' in (out ∷ outs, files'')
