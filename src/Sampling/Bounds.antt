-- ===== src/Sampling/Bounds.antt =====
-- internal/agent/metrics.go: the bounds of the readings, and what a tick's sample does to the registry of
-- internal/server/live.go.
use fleet_core.Prelude.{
  ℕ, ◌+◌, ◌-◌, ◌%◌, ◌^◌, ◌≤◌, ◌<◌, String, ◌≡◌, refl, ap, ◌∙◌, inl, inr, true, Option, none, some,
  List, [], ◌∷◌, arith, leb, if◌then◌else◌, Option-cases,
}
use fleet_core.Prelude.Int.{ℤ}
use fleet_core.Prelude.Float.{Float}
use fleet_core.Prelude.Bytes.{Text, lines}
use fleet_core.GoMap.{get}
use fleet_core.GoMap.Laws.{get-put_self}
use fleet_core.Api.{MetricsSample}
use fleet_core.AgentApi.{Identity}
use fleet_core.Live.{LiveServer, merge_push, is_gpu_only, handle_metrics_push, set_sample, wake}
use fleet_core.Sampling.{
  word64, wrap_sub, read_mem, read_mem_line, read_mem_lines, read_net, read_net_line,
  read_net_lines,
}
use fleet_core.Sampling.Tick.{Host, Meters, metrics_tick, byte_rate, seconds}

abbrev Fits : ℕ × ℕ → Type 0
Fits (total, avail) = total < word64

read_mem_line-Fits : (line : Text) (acc : ℕ × ℕ) → Fits acc → Fits (read_mem_line line acc)
unfolding read_mem_line
read_mem_line-Fits line (total, avail) h = ground (arith, h)

read_mem_lines-Fits : (ls : List Text) (acc : ℕ × ℕ) → Fits acc → Fits (read_mem_lines ls acc)
unfolding read_mem_lines
read_mem_lines-Fits [] acc h = h
read_mem_lines-Fits (l ∷ ls) acc h =
    read_mem_lines-Fits ls (read_mem_line l acc) (read_mem_line-Fits l acc h)

-- The memory in use is at most the memory that there is, which is a `uint64`, whatever the file holds.
read_mem_lem :
    (raw : Option Text) → ((read_mem raw).1 ≤ (read_mem raw).0) × ((read_mem raw).0 < 2 ^ 64)
unfolding read_mem
read_mem_lem none = (ground arith, ground arith)
read_mem_lem (some raw) = (ground arith, read_mem_lines-Fits (lines raw) (0, 0) (ground arith))

read_net_lines-bound :
    (ls : List Text) (acc : ℕ × ℕ)
    → (acc.0 < word64) × (acc.1 < word64)
    → ((read_net_lines ls acc).0 < word64) × ((read_net_lines ls acc).1 < word64)
unfolding read_net_lines
read_net_lines-bound [] acc h = h
read_net_lines-bound (l ∷ ls) (rx, tx) h = elim (Option-cases (read_net_line l)) [
  | inl e ↦ rw (read_net_lines, e) (read_net_lines-bound ls (rx, tx) h)
  | inr (c, e) ↦
      rw (read_net_lines, e)
        (read_net_lines-bound ls ((rx + c.rx) % word64, (tx + c.tx) % word64)
          (omega arith, omega arith))
]

read_net-bound : (raw : Option Text) → ((read_net raw).0 < word64) × ((read_net raw).1 < word64)
unfolding read_net
read_net-bound none = (omega arith, omega arith)
read_net-bound (some raw) = read_net_lines-bound (lines raw) (0, 0) (omega arith, omega arith)

-- The difference of two `uint64`.
wrap_sub_lem :
    (a b : ℕ)
    → a < word64
    → b < word64
    → wrap_sub a b ≡ (if leb b a then a - b else word64 - (b - a))
wrap_sub_lem a b h k = ground (arith, h, k)

module _ {F : Type 0} (f : Float F) where
  merge_push-no_gpus :
      (old : Option (MetricsSample F)) (s : MetricsSample F) → s.gpus ≡ [] → merge_push f old s ≡ s
  unfolding merge_push is_gpu_only
  merge_push-no_gpus none s e = refl
  merge_push-no_gpus (some prev) s e = rw e refl

  push-replaces :
      (me : Identity) (s : MetricsSample F) (l : LiveServer F)
      → s.gpus ≡ []
      → get me.machine_id (handle_metrics_push f me (some s) l).1.samples ≡ some s
  unfolding handle_metrics_push set_sample wake
  push-replaces me s l e =
      let old = get me.machine_id l.samples in
      get-put_self me.machine_id (merge_push f old s) l.samples
      ∙ ap some (merge_push-no_gpus old s e)

module _ {F : Type 0} (f : Float F) (text : Text → String) (parse_float : Text → F) where
  -- The network rates of a tick after a positive time: the increase of the counter by the time, and
  -- where the counter has fallen, the fallen difference taken from 2^64 by the time.
  pub metrics_tick_lem :
      (page_size ncpu : ℕ) (top_processes : ℤ) (h : Host F) (m : Meters)
      → m.rx < 2 ^ 64
      → m.tx < 2 ^ 64
      → f.lt (f.of_nat 0) (seconds f (h.now - m.at)) ≡ true
      → let (s, m') = metrics_tick f text parse_float page_size ncpu top_processes h m in
        let elapsed = seconds f (h.now - m.at) in
        let delta : ℕ → ℕ → ℕ =
          λ cur prev. if leb prev cur then cur - prev else 2 ^ 64 - (prev - cur) in
        (s.net_rx_bps ≡ f.div (f.of_nat (delta m'.rx m.rx)) elapsed)
        × (s.net_tx_bps ≡ f.div (f.of_nat (delta m'.tx m.tx)) elapsed)
  unfolding metrics_tick byte_rate
  metrics_tick_lem page_size ncpu top_processes h m a b e =
      let elapsed = seconds f (h.now - m.at) in
      let n = read_net-bound h.net_dev in
      (
        rw (byte_rate, e)
            (ap (λ d. f.div (f.of_nat d) elapsed) (wrap_sub_lem (read_net h.net_dev).0 m.rx n.0 a)),
        rw (byte_rate, e)
            (ap (λ d. f.div (f.of_nat d) elapsed) (wrap_sub_lem (read_net h.net_dev).1 m.tx n.1 b)),
      )

  -- A sample of the metrics loop has no GPUs, and replaces what the registry holds for the machine: the
  -- GPUs that the collector pushed before are gone.
  pub handle_metrics_push-tick :
      (page_size ncpu : ℕ) (top_processes : ℤ) (h : Host F) (m : Meters) (me : Identity)
      (l : LiveServer F)
      → let s = (metrics_tick f text parse_float page_size ncpu top_processes h m).0 in
        let l' = (handle_metrics_push f me (some s) l).1 in
        (get me.machine_id l'.samples ≡ some s) × (s.gpus ≡ [])
  unfolding metrics_tick
  handle_metrics_push-tick page_size ncpu top_processes h m me l =
      (push-replaces f me _ l refl, refl)
