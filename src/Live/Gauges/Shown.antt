-- ===== src/Live/Gauges/Shown.antt =====
-- internal/server/metrics.go and live.go: lines that the scrape has.
use fleet_core.Prelude.Filters.{All-map_lem}
use fleet_core.Prelude.{
  ℕ, ◌+◌, ◌*◌, ◌^◌, ◌≤◌, String, ◌≡◌, refl, sym, ap, subst, ◌⊎◌, inl, inr, none, some, List, [],
  ◌∷◌, ◌++◌, map, arith, length, All,
}
use fleet_core.GoMap.{GoMap, get}
use fleet_core.Api.{Machine, MetricsSample}
use fleet_core.Live.{is_fresh, live_freshness, fresh_sample}
use fleet_core.Live.Gauges.{
  Value, float, count, int, Label, Line, header, gauge, esc_text, machine_labels, rows_of, block,
}
use fleet_core.Live.Gauges.Facts.{fact_blocks, info_blocks, update_blocks, machine_facts}
use fleet_core.Live.Gauges.Samples.{
  fresh_rows, sample_gauge, machine_gauges, part_gauges, gpu_gauges, write_live_metrics,
}

module _ {A : Type 0} where
  -- The list has the element.
  abbrev pub Has : List A → A → Type 0
  Has [] a = ⊥
  Has (x ∷ xs) a = (x ≡ a) ⊎ Has xs a

  pub Has-left : (xs ys : List A) (a : A) → Has xs a → Has (xs ++ ys) a
  Has-left [] ys a h = absurd h
  Has-left (x ∷ xs) ys a (inl e) = inl e
  Has-left (x ∷ xs) ys a (inr h) = inr (Has-left xs ys a h)

  pub Has-right : (xs ys : List A) (a : A) → Has ys a → Has (xs ++ ys) a
  Has-right [] ys a h = h
  Has-right (x ∷ xs) ys a h = inr (Has-right xs ys a h)

Has-map : {A B : Type 0} (f : A → B) (xs : List A) (a : A) → Has xs a → Has (map f xs) (f a)
Has-map f [] a h = absurd h
Has-map f (x ∷ xs) a (inl e) = inl (ap f e)
Has-map f (x ∷ xs) a (inr h) = inr (Has-map f xs a h)

-- `machine_id` and `name`, and the labels of the gauge
abbrev pub labelled : Machine → List (String × Label) → List (String × Label)
labelled m rest = ("machine_id", esc_text m.id) ∷ ("name", esc_text m.name) ∷ rest

module _ {F : Type 0} where
  abbrev pub gauge_of : String → Machine → Value F → Line F
  gauge_of name m v = gauge name (labelled m []) v

  -- The gauges that each machine has.
  abbrev pub facts_of : Machine → List (Line F)
  facts_of m =
      gauge "fleet_machine_info"
        (labelled m (
          ("tenant_id", esc_text m.tenant_id)
          ∷ ("os", esc_text m.inventory.os)
          ∷ ("os_version", esc_text m.inventory.os_version)
          ∷ ("arch", esc_text m.inventory.arch)
          ∷ ("kernel", esc_text m.inventory.kernel)
          ∷ ("agent_version", esc_text m.inventory.agent_version)
          ∷ []))
        (count 1)
      ∷ gauge_of "fleet_machine_last_seen_timestamp_seconds" m (count m.last_seen)
      ∷ gauge_of "fleet_machine_uptime_seconds" m (count m.inventory.uptime_sec)
      ∷ gauge_of "fleet_machine_packages" m (int m.inventory.packages)
      ∷ gauge_of "fleet_machine_processes" m (count m.inventory.processes)
      ∷ gauge_of "fleet_machine_gpus" m (count (length m.inventory.gpus))
      ∷ gauge_of "fleet_machine_desired_revision" m (count m.desired.revision)
      ∷ []

  -- The gauges of a machine's sample.
  abbrev pub live_of : Machine → MetricsSample F → List (Line F)
  live_of m s =
      gauge_of "fleet_live_cpu_percent" m (float s.cpu_percent)
      ∷ gauge_of "fleet_live_load1" m (float s.load1)
      ∷ gauge_of "fleet_live_memory_used_bytes" m (count s.mem_used)
      ∷ gauge_of "fleet_live_memory_total_bytes" m (count s.mem_total)
      ∷ gauge_of "fleet_live_disk_used_bytes" m (count s.disk_used)
      ∷ gauge_of "fleet_live_disk_total_bytes" m (count s.disk_total)
      ∷ gauge_of "fleet_live_net_rx_bytes_per_second" m (float s.net_rx_bps)
      ∷ gauge_of "fleet_live_net_tx_bytes_per_second" m (float s.net_tx_bps)
      ∷ gauge_of "fleet_live_process_count" m (count s.proc_count)
      ∷ gauge_of "fleet_live_process_rss_total_bytes" m (count s.proc_total_rss)
      ∷ []

  rows_of-Has :
      (name : String) (rows : Machine → List (List (String × Label) × Value F)) (ms : List Machine)
      (m : Machine) (r : List (String × Label) × Value F)
      → Has ms m
      → Has (rows m) r
      → Has (rows_of name rows ms) (gauge name (labelled m r.0) r.1)
  unfolding rows_of machine_labels
  rows_of-Has name rows [] m r h k = absurd h
  rows_of-Has name rows (n ∷ ms) m r (inl e) k =
      subst
        (λ m'.
          Has (rows m') r → Has (rows_of name rows (n ∷ ms)) (gauge name (labelled m' r.0) r.1))
        e
        (λ k'.
          Has-left _ (rows_of name rows ms) _
            (Has-map (λ x. gauge name (machine_labels n x.0) x.1) (rows n) r k'))
        k
  rows_of-Has name rows (n ∷ ms) m r (inr h) k =
      Has-right (map (λ x. gauge name (labelled n x.0) x.1) (rows n)) _ _
        (rows_of-Has name rows ms m r h k)

  block-Has :
      (name help : String) (rows : Machine → List (List (String × Label) × Value F))
      (ms : List Machine) (m : Machine) (r : List (String × Label) × Value F)
      → Has ms m
      → Has (rows m) r
      → Has (block name help rows ms) (gauge name (labelled m r.0) r.1)
  unfolding block
  block-Has name help rows ms m r h k = inr (rows_of-Has name rows ms m r h k)

  one-Has :
      (name help : String) (val : Machine → Value F) (ms : List Machine) (m : Machine)
      → Has ms m
      → Has (block name help (λ n. ([], val n) ∷ []) ms) (gauge_of name m (val m))
  one-Has name help val ms m h =
      block-Has name help (λ n. ([], val n) ∷ []) ms m ([], val m) h (inl refl)

-- Blocks that `++` joins from the left.
abbrev joined : {A : Type 0} → List A → List (List A) → List A
joined acc [] = acc
joined acc (b ∷ bs) = joined (acc ++ b) bs

joined-first :
    {A : Type 0} (acc : List A) (bs : List (List A)) (a : A) → Has acc a → Has (joined acc bs) a
joined-first acc [] a h = h
joined-first acc (b ∷ bs) a h = joined-first (acc ++ b) bs a (Has-left acc b a h)

module _ {X A : Type 0} (made : X → List A) (line : X → A)
    (has : (x : X) → Has (made x) (line x)) where
  joined-Has : (acc : List A) (xs : List X) → All (Has (joined acc (map made xs))) (map line xs)
  joined-Has acc [] = tt
  joined-Has acc (x ∷ xs) = (
    joined-first (acc ++ made x) (map made xs) (line x) (Has-right acc (made x) (line x) (has x)),
    joined-Has (acc ++ made x) xs,
  )

-- A gauge: its name, its help and its value.
abbrev Spec : Type 0 → Type 0 → Type 0
Spec A F = String × String × (A → Value F)

abbrev info_row : {F : Type 0} → Machine → List (String × Label) × Value F
info_row m = (
  ("tenant_id", esc_text m.tenant_id)
      ∷ ("os", esc_text m.inventory.os)
      ∷ ("os_version", esc_text m.inventory.os_version)
      ∷ ("arch", esc_text m.inventory.arch)
      ∷ ("kernel", esc_text m.inventory.kernel)
      ∷ ("agent_version", esc_text m.inventory.agent_version)
      ∷ [],
  count 1,
)

abbrev fact_specs : {F : Type 0} → List (Spec Machine F)
fact_specs =
    (
      "fleet_machine_last_seen_timestamp_seconds",
      "Unix time of last heartbeat.",
      λ m. count m.last_seen,
    )
    ∷ (
      "fleet_machine_uptime_seconds",
      "Host uptime at last heartbeat.",
      λ m. count m.inventory.uptime_sec,
    )
    ∷ (
      "fleet_machine_packages",
      "Installed package count (-1 unknown).",
      λ m. int m.inventory.packages,
    )
    ∷ (
      "fleet_machine_processes",
      "Running process count at last heartbeat.",
      λ m. count m.inventory.processes,
    )
    ∷ ("fleet_machine_gpus", "Detected GPU count.", λ m. count (length m.inventory.gpus))
    ∷ (
      "fleet_machine_desired_revision",
      "Current desired-state revision.",
      λ m. count m.desired.revision,
    )
    ∷ []

facts_of-Has :
    (F : Type 0) (ms : List Machine) (m : Machine)
    → Has ms m
    → All (Has (fact_blocks {F = F} ms)) (facts_of m)
unfolding fact_blocks
facts_of-Has F ms m h =
    let rows = rows_of {F = F} "fleet_machine_info" (λ n. info_row n ∷ []) ms in
    let info = header "fleet_machine_info" "Static machine facts (value is always 1)." ∷ rows in
    let made : Spec Machine F → List (Line F) = λ x. block x.0 x.1 (λ n. ([], x.2 n) ∷ []) ms in
    (
      joined-first info (map made fact_specs) _ (
          inr (
            rows_of-Has "fleet_machine_info" (λ n. info_row n ∷ []) ms m (info_row m) h
              (inl refl))),
      joined-Has made (λ x. gauge_of x.0 m (x.2 m)) (λ x. one-Has x.0 x.1 x.2 ms m h) info
          fact_specs,
    )

module _ {F : Type 0} (now : ℕ) (live : GoMap (MetricsSample F)) where
  fresh-Has :
      (name help : String) (val : MetricsSample F → Value F) (ms : List Machine) (m : Machine)
      (s : MetricsSample F)
      → Has ms m
      → fresh_sample now live m.id ≡ some s
      → Has (sample_gauge now live name help val ms) (gauge_of name m (val s))
  unfolding sample_gauge fresh_rows
  fresh-Has name help val ms m s h e =
      block-Has name help (fresh_rows now live (λ t. ([], val t) ∷ [])) ms m ([], val s) h
        (subst
          (λ o.
            Has
              (elim o as (λ x. List (List (String × Label) × Value F)) [
                | none ↦ []
                | some t ↦ ([], val t) ∷ []
              ])
              ([], val s))
          (sym e) (inl refl))

  is_fresh-sample :
      (id : String) (s : MetricsSample F)
      → get id live ≡ some s
      → now ≤ s.at_unix * 10 ^ 9 + live_freshness
      → fresh_sample now live id ≡ some s
  unfolding fresh_sample is_fresh
  is_fresh-sample id s e f = rw (e, fresh_sample) (ground (arith, f))

  abbrev live_specs : List (Spec (MetricsSample F) F)
  live_specs =
      ("fleet_live_load1", "1-minute load average.", λ s. float s.load1)
      ∷ (
        "fleet_live_memory_used_bytes",
        "Memory in use (total - available).",
        λ s. count s.mem_used,
      )
      ∷ ("fleet_live_memory_total_bytes", "Total memory.", λ s. count s.mem_total)
      ∷ ("fleet_live_disk_used_bytes", "Root filesystem used.", λ s. count s.disk_used)
      ∷ ("fleet_live_disk_total_bytes", "Root filesystem size.", λ s. count s.disk_total)
      ∷ (
        "fleet_live_net_rx_bytes_per_second",
        "Receive rate across non-loopback interfaces.",
        λ s. float s.net_rx_bps,
      )
      ∷ (
        "fleet_live_net_tx_bytes_per_second",
        "Transmit rate across non-loopback interfaces.",
        λ s. float s.net_tx_bps,
      )
      ∷ ("fleet_live_process_count", "Total running processes.", λ s. count s.proc_count)
      ∷ (
        "fleet_live_process_rss_total_bytes",
        "Summed RSS across every process.",
        λ s. count s.proc_total_rss,
      )
      ∷ []

  live_of-Has :
      (ms : List Machine) (m : Machine) (s : MetricsSample F)
      → Has ms m
      → fresh_sample now live m.id ≡ some s
      → All (Has (machine_gauges now live ms)) (live_of m s)
  unfolding machine_gauges
  live_of-Has ms m s h e =
      let made : Spec (MetricsSample F) F → List (Line F) =
        λ x. sample_gauge now live x.0 x.1 x.2 ms in
      let cpu : Spec (MetricsSample F) F = (
        "fleet_live_cpu_percent",
        "CPU busy percent over the last sample interval.",
        λ s. float s.cpu_percent,
      ) in
      (
        joined-first (made cpu) (map made live_specs) _ (fresh-Has cpu.0 cpu.1 cpu.2 ms m s h e),
        joined-Has made (λ x. gauge_of x.0 m (x.2 s)) (λ x. fresh-Has x.0 x.1 x.2 ms m s h e)
            (made cpu) live_specs,
      )

  -- The lines of one machine in the whole exposition.
  abbrev pub Shows : List (Line F) → Machine → Type 0
  Shows lines m =
      All (Has lines) (facts_of m)
      × ((s : MetricsSample F)
          → get m.id live ≡ some s
          → now ≤ s.at_unix * 10 ^ 9 + live_freshness
          → All (Has lines) (live_of m s))

  pub scrape-Shows :
      (ms : List Machine) (m : Machine)
      → Has ms m
      → Shows (machine_facts ms ++ write_live_metrics now live ms) m
  unfolding machine_facts write_live_metrics
  scrape-Shows ms m h =
      let facts = fact_blocks ms in
      let more = info_blocks ms in
      let updates = update_blocks ms in
      let gauges = machine_gauges now live ms in
      let parts = part_gauges now live ms in
      let gpus = gpu_gauges now live ms in
      (
        All-map_lem (facts_of m)
            (λ l e.
              Has-left (facts ++ more ++ updates) (gauges ++ parts ++ gpus) l
                (Has-left (facts ++ more) updates l (Has-left facts more l e)))
            (facts_of-Has F ms m h),
        λ s e f.
            All-map_lem (live_of m s)
              (λ l k.
                Has-right (facts ++ more ++ updates) (gauges ++ parts ++ gpus) l
                  (Has-left (gauges ++ parts) gpus l (Has-left gauges parts l k)))
              (live_of-Has ms m s h (is_fresh-sample m.id s e f)),
      )
