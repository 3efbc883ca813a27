-- ===== src/Live/Stream.antt =====
-- internal/server/live.go: the stream of live samples for one machine. Each event of the loop comes with
-- the server as it is then, and whether the connection takes the frame.
use fleet_core.Prelude.{
  ℕ, String, Bool, true, false, none, some, List, [], ◌∷◌, ◌++◌, if◌then◌else◌,
}
use fleet_core.Prelude.Exec.{Result, ok, err}
use fleet_core.GoMap.{get}
use fleet_core.Api.{MetricsSample}
use fleet_core.Bus
use fleet_core.Store
use fleet_core.Store.Machines
use fleet_core.Admin.{HttpError, unknown}
use fleet_core.AgentApi.{Wake, closed, signal, keepalive}
use fleet_core.Live.{LiveServer, live_topic}

pub data LiveFrame (F : Type 0) : Type 0 where
  sample : MetricsSample F → LiveFrame F
  ping : LiveFrame F

module _ {F : Type 0} where
  -- `send`: the frames it writes, and whether the stream goes on. With no sample yet it waits.
  unfoldable pub send_live : String → LiveServer F → Bool → List (LiveFrame F) × Bool
  send_live id l up = elim (get id l.samples) [
    | none ↦ ([], true)
    | some s ↦ if up then (sample s ∷ [], true) else ([], false)
  ]

  unfoldable pub live_loop : String → List (Wake × LiveServer F × Bool) → List (LiveFrame F)
  unfolding send_live
  live_loop id [] = []
  live_loop id ((closed, l, up) ∷ ws) = []
  live_loop id ((keepalive, l, up) ∷ ws) =
      let rest = live_loop id ws in if up then ping ∷ rest else []
  live_loop id ((signal, l, up) ∷ ws) =
      let rest = live_loop id ws in
      let (frames, more) = send_live id l up in if more then frames ++ rest else frames

  -- `defer cancel()`, on the server as it is when the stream ends.
  unfoldable pub end_live : String → ℕ → LiveServer F → LiveServer F
  end_live id ch l = record l {
    server = record l.server { bus = Bus.cancel (live_topic id) ch l.server.bus };
  }

  -- The subscription, the first `send` and the loop: the frames, the server with the subscription,
  -- and what the end of the stream does to the server.
  unfoldable pub open_live :
      String
      → List (Wake × LiveServer F × Bool)
      → Bool
      → LiveServer F
      → List (LiveFrame F) × LiveServer F × (LiveServer F → LiveServer F)
  unfolding send_live live_loop end_live
  open_live id ws up l =
      let l' : LiveServer F = record l {
        server = record l.server { bus = (Bus.subscribe (live_topic id) l.server.bus).1 };
      } in
      let rest = live_loop id ws in
      let (frames, more) = send_live id l' up in
      (
        if more then frames ++ rest else frames,
        l',
        end_live id (Bus.subscribe (live_topic id) l.server.bus).0,
      )

  unfoldable pub handle_live_stream :
      String
      → List (Wake × LiveServer F × Bool)
      → Bool
      → LiveServer F
      → Result HttpError (List (LiveFrame F) × LiveServer F × (LiveServer F → LiveServer F))
  unfolding open_live
  handle_live_stream id ws up l = elim (Store.Machines.get_machine id l.server.store).0 [
    | err x ↦ err (unknown "not found")
    | ok m ↦ ok (open_live id ws up l)
  ]
