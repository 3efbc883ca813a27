-- ===== src/Live.antt =====
-- internal/server/live.go: the latest sample of each machine, in memory only. `F` stands for
-- `float64`. Times are compared in nanoseconds, as `time.Duration` counts them.
pub mod Stream
pub mod Gauges
pub mod Snapshot
pub mod Pushes
use fleet_core.Prelude.{
  ℕ, ◌+◌, ◌*◌, ◌^◌, String, Bool, ◌&&◌, Option, none, some, List, [], ◌∷◌, ◌++◌, ltb, leb, ◌==◌,
  if◌then◌else◌, length,
}
use fleet_core.Prelude.Exec.{ok, err, Exec}
use Prim.Native.String.{◌++◌ as ◌++s◌}
use fleet_core.Prelude.Float.{Float}
use fleet_core.GoMap.{GoMap, get, put}
use fleet_core.Api.{Machine, MetricsSample}
use fleet_core.Bus
use fleet_core.Store
use fleet_core.Store.Machines
use fleet_core.Server.{Server, on_store}
use fleet_core.Admin.{HttpError, bad_request, store_error, or_http}
use fleet_core.AgentApi.{Identity}

-- The agent server and the admin server share the registry.
pub record LiveServer (F : Type 0) : Type 0 where
  pub server : Server
  pub samples : GoMap (MetricsSample F)

-- The topic that a live stream listens to.
abbrev pub live_topic : String → String
live_topic id = "live:" ++s id

-- `liveFreshness`, 30 seconds
abbrev pub live_freshness : ℕ
live_freshness = 30 * 10 ^ 9

module _ {F : Type 0} where
  -- `l.Set(machineID, s)`
  unfoldable pub set_sample : String → MetricsSample F → LiveServer F → LiveServer F
  set_sample id s l = record l { samples = put id s l.samples }

  -- `now.Sub(time.Unix(sample.AtUnix, 0)) <= liveFreshness`
  unfoldable pub is_fresh : ℕ → MetricsSample F → Bool
  is_fresh now s = leb now (s.at_unix * 10 ^ 9 + live_freshness)

  -- `s.Bus.Publish("live:" + id)`
  unfoldable pub wake : String → LiveServer F → LiveServer F
  wake id l = record l {
    server = record l.server { bus = Bus.publish (live_topic id) l.server.bus };
  }

  -- What the registry holds for the machine, where that is fresh.
  unfoldable pub fresh_sample : ℕ → GoMap (MetricsSample F) → String → Option (MetricsSample F)
  unfolding is_fresh
  fresh_sample now live id = elim (get id live) [
    | none ↦ none
    | some s ↦ if is_fresh now s then some s else none
  ]

  -- The loop of `handleLiveAll`.
  unfoldable pub collect_live :
      ℕ → GoMap (MetricsSample F) → List Machine → GoMap (MetricsSample F) → GoMap (MetricsSample F)
  unfolding fresh_sample
  collect_live now live [] out = out
  collect_live now live (m ∷ ms) out =
      collect_live now live ms
        (elim (fresh_sample now live m.id) [ none ↦ out | some s ↦ put m.id s out ])

  -- `now` is `time.Now()` in nanoseconds.
  unfoldable pub handle_live_all :
      ℕ → String → Exec (LiveServer F) HttpError (GoMap (MetricsSample F))
  unfolding collect_live
  handle_live_all now tenant l =
      let (r, s) = or_http store_error (on_store (Store.Machines.list_machines tenant)) l.server in
      let l' : LiveServer F = record l { server = s } in
      elim r [ ok ms ↦ (ok (collect_live now l.samples ms []), l') | err e ↦ (err e, l') ]

module _ {F : Type 0} (f : Float F) where
  -- A push of the collector module carries GPUs and no core stats.
  unfoldable pub is_gpu_only : MetricsSample F → Bool
  is_gpu_only s = ltb 0 (length s.gpus) && f.eq s.cpu_percent (f.of_nat 0) && s.mem_total == 0

  -- The sample that the registry holds after a push.
  unfoldable pub merge_push : Option (MetricsSample F) → MetricsSample F → MetricsSample F
  unfolding is_gpu_only
  merge_push none sample = sample
  merge_push (some prev) sample =
      if is_gpu_only sample
      then record prev { gpus = sample.gpus; at_unix = sample.at_unix }
      else sample

  unfoldable pub handle_metrics_push :
      Identity → Option (MetricsSample F) → Exec (LiveServer F) HttpError (Unit {0})
  unfolding merge_push set_sample wake
  handle_metrics_push me none l = (err (bad_request "bad request"), l)
  handle_metrics_push me (some sample) l =
      let id = me.machine_id in
      (ok tt, wake id (set_sample id (merge_push (get id l.samples) sample) l))
