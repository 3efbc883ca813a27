-- ===== src/Sampling/Tick.antt =====
-- internal/agent/metrics.go: one tick of the metrics loop. Times are nanoseconds of the clock.
use fleet_core.Prelude.{
  ℕ, ◌-◌, ◌/◌, ◌%◌, ◌^◌, String, Option, none, some, List, [], ◌∷◌, ltb, ◌==◌, if◌then◌else◌,
}
use fleet_core.Prelude.Int.{ℤ, pos, negsuc}
use fleet_core.Prelude.Float.{Float}
use fleet_core.Prelude.Bytes.{Text, fields}
use fleet_core.GoMap.{GoMap}
use fleet_core.Api.{MetricsSample, PodSample}
use fleet_core.Inventory.{ProcEntry}
use fleet_core.Sampling.{
  ProcCpu, IfaceCounters, wrap_sub, wrap_mul, read_cpu, read_mem, read_net, read_net_per_iface,
}
use fleet_core.Sampling.Processes.{process_report}
use fleet_core.Sampling.Rates.{net_samples}

-- The readings that the loop keeps from one tick to the next.
pub record Meters : Type 0 where
  pub busy : ℕ
  pub total : ℕ
  pub rx : ℕ
  pub tx : ℕ
  pub at : ℕ
  pub procs : List (ℕ × ProcCpu)
  pub ifaces : GoMap IfaceCounters

-- What the host has at a tick; /proc/net/dev is read twice. `disk` is the answer of `statfs`: the
-- blocks, the available ones and their size.
pub record Host (F : Type 0) : Type 0 where
  pub now : ℕ
  pub stat : Option Text
  pub net_dev : Option Text
  pub net_dev_again : Option Text
  pub loadavg : Option Text
  pub meminfo : Option Text
  pub disk : Option (ℕ × ℕ × ℕ)
  pub proc_entries : Option (List ProcEntry)
  pub pods : List (PodSample F)

-- `topN`
unfoldable pub top_n : ℤ → ℤ
top_n (pos n) = if n == 0 then pos 15 else pos n
top_n (negsuc n) = pos 15

-- Total and used bytes of the file system.
unfoldable pub read_disk : Option (ℕ × ℕ × ℕ) → ℕ × ℕ
read_disk none = (0, 0)
read_disk (some (blocks, avail, bsize)) =
    (wrap_mul blocks bsize, wrap_mul (wrap_sub blocks avail) bsize)

-- The readings before the first tick.
unfoldable pub first_meters : (Text → String) → ℕ → Option Text → Option Text → Option Text → Meters
first_meters text now stat net_dev net_dev_again = record {
  busy = (read_cpu stat).0;
  total = (read_cpu stat).1;
  rx = (read_net net_dev).0;
  tx = (read_net net_dev).1;
  at = now;
  procs = [];
  ifaces = read_net_per_iface text net_dev_again;
}

module _ {F : Type 0} (f : Float F) where
  -- `d.Seconds()`
  unfoldable pub seconds : ℕ → F
  seconds d = f.add (f.of_nat (d / 10 ^ 9)) (f.div (f.of_nat (d % 10 ^ 9)) (f.of_nat (10 ^ 9)))

  -- `float64(rx-prevRx) / elapsed`, after a positive time
  unfoldable pub byte_rate : F → ℕ → ℕ → F
  byte_rate elapsed cur prev =
      if f.lt (f.of_nat 0) elapsed then f.div (f.of_nat (wrap_sub cur prev)) elapsed else f.of_nat 0

  unfoldable pub cpu_percent : ℕ → ℕ → F
  cpu_percent busy_delta total_delta =
      if ltb 0 total_delta
      then f.div (f.mul (f.of_nat 100) (f.of_nat busy_delta)) (f.of_nat total_delta)
      else f.of_nat 0

module _ {F : Type 0} (f : Float F) (text : Text → String) (parse_float : Text → F) where
  unfoldable pub read_load1 : Option Text → F
  read_load1 none = f.of_nat 0
  read_load1 (some raw) = elim (fields raw) [ [] ↦ f.of_nat 0 | w ∷ ws ↦ parse_float w ]

  -- The sample of a tick, and the readings that it leaves.
  unfoldable pub metrics_tick : ℕ → ℕ → ℤ → Host F → Meters → MetricsSample F × Meters
  metrics_tick page_size ncpu top_processes h m =
      let (busy, total) = read_cpu h.stat in
      let (rx, tx) = read_net h.net_dev in
      let elapsed = seconds f (h.now - m.at) in
      let total_delta = wrap_sub total m.total in
      let (report, procs) =
        process_report f text page_size h.proc_entries m.procs total_delta ncpu
          (top_n top_processes) in
      let ifaces = read_net_per_iface text h.net_dev_again in
      (
        record {
          at_unix = h.now / 10 ^ 9;
          cpu_percent = cpu_percent f (wrap_sub busy m.busy) total_delta;
          load1 = read_load1 h.loadavg;
          mem_total = (read_mem h.meminfo).0;
          mem_used = (read_mem h.meminfo).1;
          disk_total = (read_disk h.disk).0;
          disk_used = (read_disk h.disk).1;
          net_rx_bps = byte_rate f elapsed rx m.rx;
          net_tx_bps = byte_rate f elapsed tx m.tx;
          top_processes = report.samples;
          gpus = [];
          proc_count = report.count;
          proc_total_rss = report.total_rss;
          interfaces = net_samples f m.ifaces ifaces elapsed;
          pods = h.pods;
        },
        record {
          busy = busy;
          total = total;
          rx = rx;
          tx = tx;
          at = h.now;
          procs = procs;
          ifaces = ifaces;
        },
      )
