-- ===== src/Sampling/Processes.antt =====
-- internal/agent/procsample.go: the processes of one interval. `text` makes a `string` of bytes.
pub mod Selected
use fleet_core.Prelude.{
  ℕ, ◌+◌, ◌-◌, String, Bool, not, ◌&&◌, ◌||◌, Option, none, some, List, [], ◌∷◌, ◌++◌, map, ltb,
  ◌==◌, if◌then◌else◌, length, take, keep_if, any, ◌=s=◌,
}
use fleet_core.Prelude.Int.{ℤ, pos, negsuc}
use fleet_core.Prelude.Float.{Float}
use fleet_core.Prelude.Bytes.{Text, ascii, ◌=t=◌}
use fleet_core.Sort.{sort_slice}
use fleet_core.Api.{ProcSample}
use fleet_core.Inventory.{ProcEntry, process_id, k3s_role, known_service}
use fleet_core.Sampling.{ProcCpu, parse_stat, wrap_add}

-- `map[int]procCPU`, with the entry that was put last in front.
unfoldable pub get_proc : ℕ → List (ℕ × ProcCpu) → Option ProcCpu
get_proc pid [] = none
get_proc pid ((k, c) ∷ m) = let rest = get_proc pid m in if k == pid then some c else rest

unfoldable pub put_proc : ℕ → ProcCpu → List (ℕ × ProcCpu) → List (ℕ × ProcCpu)
put_proc pid c [] = (pid, c) ∷ []
put_proc pid c ((k, d) ∷ m) =
    let rest = put_proc pid c m in if k == pid then (pid, c) ∷ m else (k, d) ∷ rest

-- The first loop of `processReport`.
unfoldable pub current : ℕ → List ProcEntry → List (ℕ × ProcCpu) → List (ℕ × ProcCpu)
unfolding put_proc
current page_size [] cur = cur
current page_size (e ∷ es) cur = current page_size es (elim (process_id e) [
  | none ↦ cur
  | some pid ↦ elim e.stat [
    | none ↦ cur
    | some raw ↦ elim (parse_stat raw page_size) [ none ↦ cur | some pc ↦ put_proc pid pc cur ]
  ]
])

-- The command line of a process.
unfoldable pub cmdline_of : ℕ → List ProcEntry → Option Text
cmdline_of pid [] = none
cmdline_of pid (e ∷ es) =
    let rest = cmdline_of pid es in
    elim (process_id e) [ none ↦ rest | some k ↦ if k == pid then e.cmdline else rest ]

unfoldable pub proc_service : ProcCpu → Option Text → String
proc_service c cmdline =
    let known : String = elim (known_service c.comm) [ none ↦ "" | some svc ↦ svc.name ] in
    let role = k3s_role cmdline in
    if ((c.comm =t= ascii "exe") || (c.comm =t= ascii "k3s")) && not (role =s= "")
    then role
    else known

-- `if n <= 0 { n = 5 }`
unfoldable pub top_limit : ℤ → ℕ
top_limit (pos n) = if n == 0 then 5 else n
top_limit (negsuc n) = 5

-- `keep`, as the list of the pids that it is true for.
abbrev pub kept : ℕ → List ℕ → Bool
kept pid = any (λ k. k == pid)

-- `rep.TotalRSS`
unfoldable pub total_rss : List (ℕ × ProcCpu) → ℕ → ℕ
total_rss [] total = total
total_rss ((pid, c) ∷ m) total = total_rss m (wrap_add total c.rss)

module _ {F : Type 0} where
  unfoldable pub samples_of :
      (ℕ × ProcCpu → Option (ProcSample F)) → List (ℕ × ProcCpu) → List (ProcSample F)
  samples_of sample [] = []
  samples_of sample (e ∷ es) =
      let rest = samples_of sample es in elim (sample e) [ none ↦ rest | some s ↦ s ∷ rest ]

  -- The order of `selectProcesses` by memory.
  unfoldable pub by_mem : ProcSample F → ProcSample F → Bool
  by_mem a b = ltb b.mem_bytes a.mem_bytes

  abbrev pub pids : List (ProcSample F) → List ℕ
  pids = map (λ p. p.pid)

  unfoldable pub keep_services : List (ProcSample F) → List ℕ → List ℕ
  keep_services [] keep = keep
  keep_services (p ∷ ps) keep = keep_services ps (if p.service =s= "" then keep else p.pid ∷ keep)

pub record ProcReport (F : Type 0) : Type 0 where
  pub samples : List (ProcSample F)
  pub total_rss : ℕ
  pub count : ℕ

module _ {F : Type 0} (f : Float F) where
  -- `float64(c.jiff-p.jiff) / float64(totalDelta) * float64(ncpu) * 100`
  unfoldable pub cpu_share : ℕ → ℕ → ℕ → F
  cpu_share jiffies total_delta ncpu =
      if ltb 0 total_delta
      then f.mul (f.mul (f.div (f.of_nat jiffies) (f.of_nat total_delta)) (f.of_nat ncpu))
          (f.of_nat 100)
      else f.of_nat 0

  -- The body of the second loop: a process that is new, or whose pid is used again, is left out, and
  -- so is one that uses nothing.
  unfoldable pub sample_of :
      (Text → String)
      → List ProcEntry
      → List (ℕ × ProcCpu)
      → ℕ
      → ℕ
      → ℕ × ProcCpu
      → Option (ProcSample F)
  unfolding cpu_share proc_service
  sample_of text es prev total_delta ncpu (pid, c) = elim (get_proc pid prev) [
    | none ↦ none
    | some p ↦
        let cpu = cpu_share (c.jiff - p.jiff) total_delta ncpu in
        if ltb c.jiff p.jiff
        then none
        else if (f.lt cpu (f.of_nat 0) || f.eq cpu (f.of_nat 0)) && c.rss == 0
        then none
        else some (record {
          pid = pid;
          comm = text c.comm;
          cpu_percent = cpu;
          mem_bytes = c.rss;
          service = proc_service c (cmdline_of pid es);
        })
  ]

  -- The order of `selectProcesses` by CPU.
  unfoldable pub by_cpu : ProcSample F → ProcSample F → Bool
  by_cpu a b =
      if f.eq a.cpu_percent b.cpu_percent
      then ltb b.mem_bytes a.mem_bytes
      else f.lt b.cpu_percent a.cpu_percent

  unfoldable pub select_processes : List (ProcSample F) → ℤ → List (ProcSample F)
  select_processes all n =
      let by_cpu_order = sort_slice by_cpu all in
      let top_cpu = pids (take (top_limit n) by_cpu_order) in
      let top_mem = pids (take (top_limit n) (sort_slice by_mem all)) in
      let keep = keep_services all (top_mem ++ top_cpu) in
      keep_if (λ p. kept p.pid keep) by_cpu_order

  -- The report, and what `prev` holds afterwards. `es` is `none` where /proc cannot be read.
  unfoldable pub process_report :
      (Text → String)
      → ℕ
      → Option (List ProcEntry)
      → List (ℕ × ProcCpu)
      → ℕ
      → ℕ
      → ℤ
      → ProcReport F × List (ℕ × ProcCpu)
  process_report text page_size none prev total_delta ncpu n =
      (record { samples = []; total_rss = 0; count = 0 }, prev)
  process_report text page_size (some es) prev total_delta ncpu n =
      let cur = current page_size es [] in
      (
        record {
          samples = select_processes (samples_of (sample_of text es prev total_delta ncpu) cur) n;
          total_rss = total_rss cur 0;
          count = length cur;
        },
        cur,
      )
