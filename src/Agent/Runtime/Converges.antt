-- ===== src/Agent/Runtime/Converges.antt =====
-- internal/agent/agent.go: what the stream and the retry loop bring the machine to.
use fleet_core.Prelude.{
  ℕ, ◌≤◌, String, ◌≡◌, refl, sym, ◌∙◌, inl, inr, Bool, Option, none, some, List, [], ◌∷◌, ◌++◌, map,
  Option-cases, length, All,
}
use mathlib.Core.List.{append_assoc, append-nil, map-append}
use fleet_core.Prelude.Exec.{ok}
use fleet_core.Prelude.Exec.{ok}
use fleet_core.Prelude.Bytes.{Text}
use fleet_core.Api.{Bytes, DesiredState, ModuleArtifact, StatusReport}
use fleet_core.Agent.{Agent, Attempt, Save, modules_of, reconcile}
use fleet_core.Agent.Settled.{IsApplied}
use fleet_core.Agent.Runtime.{Runtime, run_reconcile, on_desired, event_of, stream_lines}

-- The download, the signature, the disk and the module's process all work.
pub record Works (at : Attempt) : Type 0 where
  pub artifact : ModuleArtifact
  pub download : at.download ≡ ok artifact
  pub signature : at.signature_error ≡ none
  pub dir : at.dir_error ≡ none
  pub write : at.write_error ≡ none
  pub run : at.run_error ≡ none

module _ (text : Bytes → String) (env : ℕ → Attempt) where
  -- The n-th attempt works, and every one after it.
  abbrev pub WorksFrom : ℕ → Type 0
  WorksFrom k = (n : ℕ) → k ≤ n → Works (env n)

-- The desired states of the lines.
abbrev pub events : (Text → Option DesiredState) → List Text → List DesiredState
events decode [] = []
events decode (l ∷ ls) =
    let rest = events decode ls in elim (event_of decode l) [ none ↦ rest | some ds ↦ ds ∷ rest ]

abbrev pub last_event : List DesiredState → Option DesiredState → Option DesiredState
last_event [] old = old
last_event (ds ∷ es) old = last_event es (some ds)

abbrev pub revisions : List StatusReport → List ℕ
revisions = map (λ r. r.revision)

abbrev pub event_revisions : List DesiredState → List ℕ
event_revisions = map (λ ds. ds.revision)

-- One report more: it has the desired state's revision and each module of it as applied.
abbrev pub AppliesAll : DesiredState → Runtime → Runtime → Type 0
AppliesAll ds rt rt' =
    (report : StatusReport) × (rt'.reports ≡ rt.reports ++ report ∷ [])
    × (report.revision ≡ ds.revision)
    × (length report.modules ≡ length (modules_of ds))
    × All IsApplied report.modules

module _ (text : Bytes → String) (env : ℕ → Attempt) (removable : String → Bool)
    (saves : ℕ → Save) where
  on_desired-reports :
      (ds : DesiredState) (rt : Runtime)
      → revisions (on_desired text env removable saves ds rt).reports
        ≡ revisions rt.reports ++ ds.revision ∷ []
  unfolding on_desired run_reconcile reconcile
  on_desired-reports ds rt = map-append _ rt.reports _

  append_in :
      (ds : DesiredState) (rt : Runtime) (es : List DesiredState)
      → revisions (on_desired text env removable saves ds rt).reports ++ event_revisions es
        ≡ revisions rt.reports ++ event_revisions (ds ∷ es)
  append_in ds rt es =
      rw (on_desired-reports ds rt)
        (append_assoc (revisions rt.reports) (ds.revision ∷ []) (event_revisions es))

  -- The states are handled one after the other.
  abbrev pub handled : List DesiredState → Runtime → Runtime
  handled [] rt = rt
  handled (ds ∷ es) rt = handled es (on_desired text env removable saves ds rt)

  -- The agent reports once for each event of the stream, with its revision and in their order, and
  -- keeps the last one; the other lines do nothing: the lines leave the agent, its applied file, its
  -- attempts and its reports as the events alone do.
  pub stream_lines_lem :
      (decode : Text → Option DesiredState) (ls : List Text) (rt : Runtime)
      → let rt' = stream_lines text env removable saves decode ls rt in
        (rt' ≡ handled (events decode ls) rt)
        × (rt'.last_desired ≡ last_event (events decode ls) rt.last_desired)
        × (revisions rt'.reports ≡ revisions rt.reports ++ event_revisions (events decode ls))
  unfolding stream_lines on_desired run_reconcile
  stream_lines_lem decode [] rt = (refl, refl, sym (append-nil (revisions rt.reports)))
  stream_lines_lem decode (l ∷ ls) rt = elim (Option-cases (event_of decode l)) [
    | inl e ↦ rw (stream_lines, events, e) (stream_lines_lem decode ls rt)
    | inr (ds, e) ↦
        let (same, last, reports) =
          stream_lines_lem decode ls (on_desired text env removable saves ds rt) in
        rw (stream_lines, events, e) (same, last, reports ∙ append_in ds rt (events decode ls))
  ]
