-- ===== src/Tests/Live.antt =====
-- Concrete runs of the live registry and its metrics, with ℕ for `float64`.
use fleet_core.Prelude.{
  List, ℕ, ◌+◌, ◌*◌, ◌/◌, ◌^◌, ◌≤◌, String, ◌≡◌, ◌↔◌, Bool, true, false, ◌||◌, none, some, [], ◌∷◌,
  ◌++◌, ltb, leb, ◌==◌, keep_if, any, ◌=s=◌,
}
use fleet_core.Prelude.Exec.{ok}
use fleet_core.Prelude.Float.{Float}
use fleet_core.GoMap.{get, values}
use fleet_core.Api.{Machine, MetricsSample}
use fleet_core.AgentApi.{Identity}
use fleet_core.Live.{LiveServer, live_freshness, handle_live_all}
use fleet_core.Live.Snapshot.{handle_live_all_lem}
use fleet_core.Live.Gauges.Facts.{machine_facts}
use fleet_core.Live.Gauges.Samples.{write_live_metrics, handle_metrics}
use fleet_core.Live.Gauges.{Line}
use fleet_core.Live.Gauges.Shown.{Has, Shows}
use fleet_core.Live.Gauges.Fresh.{handle_metrics_lem}
use fleet_core.Tests.{server}

abbrev pub nat_float : Float ℕ
nat_float = record {
  of_nat = λ n. n;
  add = λ a b. a + b;
  mul = λ a b. a * b;
  div = λ a b. a / b;
  lt = ltb;
  eq = λ a b. a == b;
}

abbrev core_sample : MetricsSample ℕ
core_sample = record {
  at_unix = 100;
  cpu_percent = 12;
  load1 = 1;
  mem_total = 64;
  mem_used = 16;
  disk_total = 0;
  disk_used = 0;
  net_rx_bps = 0;
  net_tx_bps = 0;
  top_processes = [];
  gpus = [];
  proc_count = 0;
  proc_total_rss = 0;
  interfaces = [];
  pods = [];
}

-- The registry knows the machine m1.
abbrev pub live : LiveServer ℕ
live = record { server = server; samples = ("m1", core_sample) ∷ [] }

abbrev pub me : Identity
me = record { machine_id = "m1"; tenant_id = "t1" }

abbrev gpu_push : MetricsSample ℕ
gpu_push = record core_sample {
  at_unix = 101;
  cpu_percent = 0;
  mem_total = 0;
  gpus =
      record {
        index = 0;
        name = "gpu";
        util_percent = 50;
        mem_used = 1;
        mem_total = 2;
        temp_c = 60;
        power_w = 200;
      }
      ∷ [];
}

-- 20 seconds after the sample
abbrev now : ℕ
now = 120 * 10 ^ 9

handle_live_all_lem_example :
    let visible =
      keep_if
        (λ m. ("t1" =s= "") || (m.tenant_id =s= "t1"))
        (values live.server.store.contents.machines) in
    (out : _) × (handle_live_all now "t1" live ≡ (ok out, live))
    × ((id : String) (s : MetricsSample ℕ)
        → (get id out ≡ some s) ↔ (
            (any (λ m. m.id =s= id) visible ≡ true)
            × (get id live.samples ≡ some s)
            × (now ≤ s.at_unix * 10 ^ 9 + live_freshness)))
handle_live_all_lem_example = handle_live_all_lem now "t1" live

handle_metrics_lem_example :
    let ms = values live.server.store.contents.machines in
    let recent : Machine → Bool = λ m. elim (get m.id live.samples) [
      | none ↦ false
      | some s ↦ leb now (s.at_unix * 10 ^ 9 + live_freshness)
    ] in
    (lines : List (Line ℕ)) × (handle_metrics now live ≡ (ok lines, live))
    × ((m : Machine) → Has ms m → Shows now live.samples lines m)
    × (lines ≡ machine_facts ms ++ write_live_metrics now live.samples (keep_if recent ms))
handle_metrics_lem_example = handle_metrics_lem now live
