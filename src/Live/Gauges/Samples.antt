-- ===== src/Live/Gauges/Samples.antt =====
-- internal/server/live.go: the gauges of the live registry, and the whole exposition.
use fleet_core.Prelude.{ℕ, String, none, some, List, [], ◌∷◌, ◌++◌, map}
use fleet_core.Prelude.Exec.{ok, err, Exec}
use fleet_core.GoMap.{GoMap}
use fleet_core.Api.{
  Machine, MetricsSample, NetSample, PodSample, ContainerSample, ProcSample, GpuSample,
}
use fleet_core.Store.Machines.{list_machines}
use fleet_core.Server.{on_store}
use fleet_core.Admin.{HttpError, store_error, or_http}
use fleet_core.Live.{LiveServer, fresh_sample}
use fleet_core.Live.Gauges.{Value, float, count, Label, number, Line, esc_text, block}
use fleet_core.Live.Gauges.Facts.{machine_facts}

module _ {F : Type 0} (now : ℕ) (live : GoMap (MetricsSample F)) where
  -- The gauges that skip a machine with no fresh sample.
  unfoldable pub fresh_rows :
      (MetricsSample F → List (List (String × Label) × Value F))
      → Machine
      → List (List (String × Label) × Value F)
  fresh_rows rows m = elim (fresh_sample now live m.id) [ none ↦ [] | some s ↦ rows s ]

  unfoldable pub sample_gauge :
      String → String → (MetricsSample F → Value F) → List Machine → List (Line F)
  sample_gauge name help val = block name help (fresh_rows (λ s. ([], val s) ∷ []))

  unfoldable pub interface_gauge :
      String → String → (NetSample F → F) → List Machine → List (Line F)
  interface_gauge name help val = block name help (
      fresh_rows
        (λ s. map (λ n. (("interface", esc_text n.name) ∷ [], float (val n))) s.interfaces))

  unfoldable pub pod_gauge :
      String → String → (PodSample F → Value F) → List Machine → List (Line F)
  pod_gauge name help val = block name help (
      fresh_rows (λ s.
        map
          (λ p. (
            ("namespace", esc_text p.namespace)
                ∷ ("pod", esc_text p.name)
                ∷ ("uid", esc_text p.uid)
                ∷ ("source", esc_text p.source)
                ∷ [],
            val p,
          ))
          s.pods))

  unfoldable pub container_rows :
      (ContainerSample F → Value F) → List (PodSample F) → List (List (String × Label) × Value F)
  container_rows val [] = []
  container_rows val (p ∷ ps) =
      map
        (λ c. (
          ("namespace", esc_text p.namespace)
              ∷ ("pod", esc_text p.name)
              ∷ ("container", esc_text c.name)
              ∷ [],
          val c,
        ))
        p.containers
      ++ container_rows val ps

  unfoldable pub container_gauge :
      String → String → (ContainerSample F → Value F) → List Machine → List (Line F)
  container_gauge name help val = block name help (fresh_rows (λ s. container_rows val s.pods))

  unfoldable pub process_gauge :
      String → String → (ProcSample F → Value F) → List Machine → List (Line F)
  process_gauge name help val = block name help (
      fresh_rows (λ s.
        map (λ p. (("pid", number p.pid) ∷ ("comm", esc_text p.comm) ∷ [], val p)) s.top_processes))

  unfoldable pub gpu_gauge :
      String → String → (GpuSample F → Value F) → List Machine → List (Line F)
  gpu_gauge name help val = block name help (
      fresh_rows
        (λ s. map (λ g. (("index", number g.index) ∷ ("gpu", esc_text g.name) ∷ [], val g)) s.gpus))

  unfoldable pub machine_gauges : List Machine → List (Line F)
  machine_gauges ms =
      sample_gauge "fleet_live_cpu_percent" "CPU busy percent over the last sample interval."
        (λ s. float s.cpu_percent) ms
      ++ sample_gauge "fleet_live_load1" "1-minute load average." (λ s. float s.load1) ms
      ++ sample_gauge "fleet_live_memory_used_bytes" "Memory in use (total - available)."
          (λ s. count s.mem_used) ms
      ++ sample_gauge "fleet_live_memory_total_bytes" "Total memory." (λ s. count s.mem_total) ms
      ++ sample_gauge "fleet_live_disk_used_bytes" "Root filesystem used." (λ s. count s.disk_used)
          ms
      ++ sample_gauge "fleet_live_disk_total_bytes" "Root filesystem size."
          (λ s. count s.disk_total) ms
      ++ sample_gauge "fleet_live_net_rx_bytes_per_second"
          "Receive rate across non-loopback interfaces." (λ s. float s.net_rx_bps) ms
      ++ sample_gauge "fleet_live_net_tx_bytes_per_second"
          "Transmit rate across non-loopback interfaces." (λ s. float s.net_tx_bps) ms
      ++ sample_gauge "fleet_live_process_count" "Total running processes."
          (λ s. count s.proc_count) ms
      ++ sample_gauge "fleet_live_process_rss_total_bytes" "Summed RSS across every process."
          (λ s. count s.proc_total_rss) ms

  unfoldable pub part_gauges : List Machine → List (Line F)
  part_gauges ms =
      interface_gauge "fleet_live_interface_rx_bytes_per_second" "Per-interface receive rate."
        (λ n. n.rx_bps) ms
      ++ interface_gauge "fleet_live_interface_tx_bytes_per_second" "Per-interface transmit rate."
          (λ n. n.tx_bps) ms
      ++ pod_gauge "fleet_live_pod_cpu_percent" "Pod CPU usage as percent of one core."
          (λ p. float p.cpu_percent) ms
      ++ pod_gauge "fleet_live_pod_memory_bytes" "Pod working-set memory." (λ p. count p.mem_bytes)
          ms
      ++ container_gauge "fleet_live_container_cpu_percent"
          "Container CPU usage as percent of one core." (λ c. float c.cpu_percent) ms
      ++ container_gauge "fleet_live_container_memory_bytes" "Container working-set memory."
          (λ c. count c.mem_bytes) ms
      ++ process_gauge "fleet_live_process_cpu_percent" "Top process CPU% (labeled by pid/comm)."
          (λ p. float p.cpu_percent) ms
      ++ process_gauge "fleet_live_process_memory_bytes" "Top process RSS bytes."
          (λ p. count p.mem_bytes) ms

  unfoldable pub gpu_gauges : List Machine → List (Line F)
  gpu_gauges ms =
      gpu_gauge "fleet_live_gpu_utilization_percent" "GPU utilization percent."
        (λ g. float g.util_percent) ms
      ++ gpu_gauge "fleet_live_gpu_memory_used_bytes" "GPU memory used." (λ g. count g.mem_used) ms
      ++ gpu_gauge "fleet_live_gpu_memory_total_bytes" "GPU memory total." (λ g. count g.mem_total)
          ms
      ++ gpu_gauge "fleet_live_gpu_temp_celsius" "GPU temperature." (λ g. float g.temp_c) ms
      ++ gpu_gauge "fleet_live_gpu_power_watts" "GPU power draw." (λ g. float g.power_w) ms

  unfoldable pub write_live_metrics : List Machine → List (Line F)
  write_live_metrics ms = machine_gauges ms ++ part_gauges ms ++ gpu_gauges ms

-- `now` is `time.Now()` in nanoseconds.
unfoldable pub handle_metrics : {F : Type 0} → ℕ → Exec (LiveServer F) HttpError (List (Line F))
handle_metrics now l =
    let (r, s) = or_http store_error (on_store (list_machines "")) l.server in
    (
      elim r [
        | ok ms ↦ ok (machine_facts ms ++ write_live_metrics now l.samples ms)
        | err e ↦ err e
      ],
      record l { server = s },
    )
