-- ===== src/Agent/Runtime.antt =====
-- internal/agent/agent.go: the stream of desired states and the retry loop. `agent.mu` guards `last_desired`,
-- and each event and each tick is one step. A report is what `reconcile` posts.
pub mod Converges
pub mod Waits
use fleet_core.Prelude.{
  ℕ, ◌+◌, ◌*◌, String, Bool, Option, none, some, List, [], ◌∷◌, ◌++◌, ltb, if◌then◌else◌, length,
}
use Prim.Native.String.{◌++◌ as ◌++s◌}
use fleet_core.Prelude.Bytes.{Text, ascii, cut_prefix, scan_lines}
use fleet_core.Api.{Bytes, DesiredState, StatusReport}
use fleet_core.Agent.{Agent, Attempt, Save, reconcile}

pub record Runtime : Type 0 where
  pub agent : Agent
  pub last_desired : Option DesiredState
  pub reports : List StatusReport

-- How `a.client.Do(req)` and the body that it gives end.
pub data Connection : Type 0 where
  refused : String → Connection
  answered : ℕ → String → Connection
  -- What the body holds until it ends, and the error that the scanner then has.
  opened : Text → Option String → Connection

-- 4 MiB, the longest line
abbrev stream_limit : ℕ
stream_limit = 4194304

-- `if backoff < 30*time.Second { backoff *= 2 }`, in seconds
abbrev pub next_backoff : ℕ → ℕ
next_backoff b = if ltb b 30 then b * 2 else b

-- The desired state of a line: keepalives, blank lines and bad events have none.
unfoldable pub event_of : (Text → Option DesiredState) → Text → Option DesiredState
event_of decode line = elim (cut_prefix (ascii "data: ") line) [
  | none ↦ none
  | some body ↦ decode body
]

module _ (text : Bytes → String) (env : ℕ → Attempt) (removable : String → Bool)
    (saves : ℕ → Save) where
  unfoldable pub run_reconcile : DesiredState → Runtime → Runtime
  run_reconcile ds rt =
      let (report, a) = reconcile text env removable (saves (length rt.reports)) ds rt.agent in
      record rt { agent = a; reports = rt.reports ++ (report ∷ []) }

  -- A tick of `retryLoop`.
  unfoldable pub retry_tick : Runtime → Runtime
  retry_tick rt = elim rt.last_desired [ none ↦ rt | some ds ↦ run_reconcile ds rt ]

  -- A desired-state event.
  unfoldable pub on_desired : DesiredState → Runtime → Runtime
  on_desired ds rt = run_reconcile ds (record rt { last_desired = some ds })

  module _ (decode : Text → Option DesiredState) where
    unfoldable pub stream_lines : List Text → Runtime → Runtime
    stream_lines [] rt = rt
    stream_lines (l ∷ ls) rt =
        stream_lines ls (elim (event_of decode l) [ none ↦ rt | some ds ↦ on_desired ds rt ])

    -- The error that it returns, and the runtime afterwards.
    unfoldable pub stream_once : Connection → Runtime → Option String × Runtime
    stream_once (refused e) rt = (some e, rt)
    stream_once (answered code status) rt = (some ("stream: " ++s status), rt)
    stream_once (opened body e) rt = (e, stream_lines (scan_lines stream_limit body) rt)

    -- The rounds of `streamLoop` before the context ends: the times that it waits, and the runtime.
    unfoldable pub stream_rounds : ℕ → List Connection → Runtime → List ℕ × Runtime
    stream_rounds backoff [] rt = ([], rt)
    stream_rounds backoff (c ∷ cs) rt =
        let (e, rt') = stream_once c rt in
        let (waits, rt'') = stream_rounds (next_backoff backoff) cs rt' in (backoff ∷ waits, rt'')

    unfoldable pub stream_loop : List Connection → Runtime → List ℕ × Runtime
    stream_loop = stream_rounds 1
