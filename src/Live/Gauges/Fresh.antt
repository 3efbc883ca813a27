-- ===== src/Live/Gauges/Fresh.antt =====
-- internal/server/live.go: which machines the gauges of the live registry show.
use fleet_core.Prelude.{
  ℕ, ◌+◌, ◌*◌, ◌^◌, String, ◌≡◌, refl, sym, ap, inl, inr, Bool, true, false, none, some, List, [],
  ◌∷◌, ◌++◌, map, arith, leb, Bool-cases, keep_if,
}
use fleet_core.Prelude.Exec.{ok}
use fleet_core.Prelude.Filters.{keep_if-all}
use fleet_core.GoMap.{GoMap, get, values}
use fleet_core.Api.{
  Machine, MetricsSample, NetSample, PodSample, ContainerSample, ProcSample, GpuSample,
}
use fleet_core.Store.Machines.{list_machines}
use fleet_core.Live.{LiveServer, is_fresh, live_freshness, fresh_sample}
use fleet_core.Live.Gauges.Shown.{Has, Shows, scrape-Shows}
use fleet_core.Live.Gauges.{Line, Value, Label, header, gauge, machine_labels, rows_of, block}
use fleet_core.Live.Gauges.Facts.{machine_facts}
use fleet_core.Live.Gauges.Samples.{
  fresh_rows, sample_gauge, interface_gauge, pod_gauge, container_gauge, process_gauge, gpu_gauge,
  machine_gauges, part_gauges, gpu_gauges, write_live_metrics, handle_metrics,
}

module _ {F : Type 0} (now : ℕ) (live : GoMap (MetricsSample F)) where
  -- The machine has a sample of the last 30 seconds.
  reports : Machine → Bool
  reports m = elim (get m.id live) [
    | none ↦ false
    | some s ↦ leb now (s.at_unix * 10 ^ 9 + live_freshness)
  ]

  reports-fresh_rows :
      (rows : MetricsSample F → List (List (String × Label) × Value F)) (m : Machine)
      → reports m ≡ false
      → fresh_rows now live rows m ≡ []
  unfolding fresh_rows fresh_sample is_fresh reports
  reports-fresh_rows rows m e = ground arith

  rows_of-keep_if :
      (name : String) (rows : Machine → List (List (String × Label) × Value F)) (ms : List Machine)
      → ((m : Machine) → reports m ≡ false → rows m ≡ [])
      → rows_of name rows (keep_if reports ms) ≡ rows_of name rows ms
  unfolding rows_of
  rows_of-keep_if name rows [] h = refl
  rows_of-keep_if name rows (m ∷ ms) h = elim (Bool-cases (reports m)) [
    | inl e ↦
        rw (keep_if, e)
          (ap (◌++◌ (map (λ r. gauge name (machine_labels m r.0) r.1) (rows m)))
            (rows_of-keep_if name rows ms h))
    | inr e ↦ rw (keep_if, e) (rw (h m e) (rows_of-keep_if name rows ms h))
  ]

  fresh_block :
      (name help : String) (rows : MetricsSample F → List (List (String × Label) × Value F))
      (ms : List Machine)
      → block name help (fresh_rows now live rows) (keep_if reports ms)
        ≡ block name help (fresh_rows now live rows) ms
  unfolding block
  fresh_block name help rows ms =
      ap (◌∷◌ (header name help))
        (rows_of-keep_if name (fresh_rows now live rows) ms (reports-fresh_rows rows))

  sample_gauge-keep_if :
      (name help : String) (val : MetricsSample F → Value F) (ms : List Machine)
      → sample_gauge now live name help val (keep_if reports ms)
        ≡ sample_gauge now live name help val ms
  unfolding sample_gauge
  sample_gauge-keep_if name help val ms = fresh_block name help _ ms

  interface_gauge-keep_if :
      (name help : String) (val : NetSample F → F) (ms : List Machine)
      → interface_gauge now live name help val (keep_if reports ms)
        ≡ interface_gauge now live name help val ms
  unfolding interface_gauge
  interface_gauge-keep_if name help val ms = fresh_block name help _ ms

  pod_gauge-keep_if :
      (name help : String) (val : PodSample F → Value F) (ms : List Machine)
      → pod_gauge now live name help val (keep_if reports ms) ≡ pod_gauge now live name help val ms
  unfolding pod_gauge
  pod_gauge-keep_if name help val ms = fresh_block name help _ ms

  container_gauge-keep_if :
      (name help : String) (val : ContainerSample F → Value F) (ms : List Machine)
      → container_gauge now live name help val (keep_if reports ms)
        ≡ container_gauge now live name help val ms
  unfolding container_gauge
  container_gauge-keep_if name help val ms = fresh_block name help _ ms

  process_gauge-keep_if :
      (name help : String) (val : ProcSample F → Value F) (ms : List Machine)
      → process_gauge now live name help val (keep_if reports ms)
        ≡ process_gauge now live name help val ms
  unfolding process_gauge
  process_gauge-keep_if name help val ms = fresh_block name help _ ms

  gpu_gauge-keep_if :
      (name help : String) (val : GpuSample F → Value F) (ms : List Machine)
      → gpu_gauge now live name help val (keep_if reports ms) ≡ gpu_gauge now live name help val ms
  unfolding gpu_gauge
  gpu_gauge-keep_if name help val ms = fresh_block name help _ ms

  ruleset fresh_gauges = (
    sample_gauge-keep_if, interface_gauge-keep_if, pod_gauge-keep_if, container_gauge-keep_if,
    process_gauge-keep_if, gpu_gauge-keep_if,
  )

  machine_gauges-keep_if :
      (ms : List Machine)
      → machine_gauges now live (keep_if reports ms) ≡ machine_gauges now live ms
  unfolding machine_gauges
  machine_gauges-keep_if ms = simp fresh_gauges

  part_gauges-keep_if :
      (ms : List Machine) → part_gauges now live (keep_if reports ms) ≡ part_gauges now live ms
  unfolding part_gauges
  part_gauges-keep_if ms = simp fresh_gauges

  gpu_gauges-keep_if :
      (ms : List Machine) → gpu_gauges now live (keep_if reports ms) ≡ gpu_gauges now live ms
  unfolding gpu_gauges
  gpu_gauges-keep_if ms = simp fresh_gauges

  write_live_metrics-keep_if :
      (ms : List Machine)
      → write_live_metrics now live (keep_if reports ms) ≡ write_live_metrics now live ms
  unfolding write_live_metrics
  write_live_metrics-keep_if ms =
      simp (machine_gauges-keep_if, part_gauges-keep_if, gpu_gauges-keep_if)

-- The scrape changes nothing. For every machine it has the seven gauges of `facts_of`, the machine's
-- facts, and, where the machine's sample is at most 30 seconds old, the ten gauges of `live_of`, the
-- sample's values. The machines without such a sample are in none of the live gauges: these are the ones
-- of the other machines alone.
pub handle_metrics_lem :
    {F : Type 0} (now : ℕ) (l : LiveServer F)
    → let ms = values l.server.store.contents.machines in
      let recent : Machine → Bool = λ m. elim (get m.id l.samples) [
        | none ↦ false
        | some s ↦ leb now (s.at_unix * 10 ^ 9 + live_freshness)
      ] in
      (lines : List (Line F)) × (handle_metrics now l ≡ (ok lines, l))
      × ((m : Machine) → Has ms m → Shows now l.samples lines m)
      × (lines ≡ machine_facts ms ++ write_live_metrics now l.samples (keep_if recent ms))
unfolding handle_metrics list_machines reports
handle_metrics_lem now l =
    let ms = values l.server.store.contents.machines in
    (
      machine_facts ms ++ write_live_metrics now l.samples ms,
      ap (λ xs. (ok (machine_facts xs ++ write_live_metrics now l.samples xs), l))
          (keep_if-all (λ m. true) ms (λ m. refl)),
      scrape-Shows now l.samples ms,
      ap (λ gs. machine_facts ms ++ gs) (sym (write_live_metrics-keep_if now l.samples ms)),
    )
