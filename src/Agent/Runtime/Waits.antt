-- ===== src/Agent/Runtime/Waits.antt =====
-- internal/agent/agent.go: how long the stream loop waits between its connections.
use fleet_core.Prelude.{
  ℕ, zero, suc, ◌+◌, ◌^◌, String, ◌≡◌, refl, ap, Bool, Option, List, [], ◌∷◌, arith, ltb,
  if◌then◌else◌, length,
}
use fleet_core.Prelude.Bytes.{Text}
use fleet_core.Api.{Bytes, DesiredState}
use fleet_core.Agent.{Attempt, Save}
use fleet_core.Agent.Runtime.{
  Runtime, Connection, next_backoff, stream_once, stream_rounds, stream_loop,
}

abbrev pub wait : ℕ → ℕ
wait i = if ltb i 5 then 2 ^ i else 32

-- The waits of rounds i, i + 1, …
abbrev pub waits_from : ℕ → ℕ → List ℕ
waits_from i zero = []
waits_from i (suc n) = wait i ∷ waits_from (i + 1) n

next_backoff-wait : (i : ℕ) → next_backoff (wait i) ≡ wait (i + 1)
next_backoff-wait zero = refl
next_backoff-wait (suc zero) = refl
next_backoff-wait (suc (suc zero)) = refl
next_backoff-wait (suc (suc (suc zero))) = refl
next_backoff-wait (suc (suc (suc (suc zero)))) = refl
next_backoff-wait (suc (suc (suc (suc (suc i))))) = ground arith

module _ (text : Bytes → String) (env : ℕ → Attempt) (removable : String → Bool) (saves : ℕ → Save)
    (decode : Text → Option DesiredState) where
  stream_rounds-waits :
      (i : ℕ) (cs : List Connection) (rt : Runtime)
      → (stream_rounds text env removable saves decode (wait i) cs rt).0 ≡ waits_from i (length cs)
  unfolding stream_rounds
  stream_rounds-waits i [] rt = refl
  stream_rounds-waits i (c ∷ cs) rt = ap (◌∷◌ (wait i)) (
      rw (next_backoff-wait i)
        (stream_rounds-waits (i + 1) cs (stream_once text env removable saves decode c rt).1))

  -- The stream loop waits 1, 2, 4, 8 and 16 seconds, and 32 seconds from the sixth round on, whatever
  -- its connections do: one that worked for days does not start the waits again.
  pub stream_loop-waits :
      (cs : List Connection) (rt : Runtime)
      → (stream_loop text env removable saves decode cs rt).0 ≡ waits_from 0 (length cs)
  unfolding stream_loop
  stream_loop-waits cs rt = stream_rounds-waits 0 cs rt
