-- ===== src/Sampling.antt =====
-- internal/agent/metrics.go, netinfo.go and procsample.go: what the agent reads from /proc. Each function
-- takes the file's bytes, `none` where it cannot be read. A `uint64` is below 2^64 and its sums, products
-- and differences wrap around.
pub mod Stat
pub mod Tick
pub mod Bounds
pub mod Rates
pub mod Processes
use fleet_core.Prelude.{
  ℕ, ◌+◌, ◌-◌, ◌*◌, ◌%◌, ◌^◌, String, not, ◌||◌, Option, none, some, List, [], ◌∷◌, map, ltb, leb,
  if◌then◌else◌, length, take, drop,
}
use fleet_core.Prelude.Bytes.{
  Text, is_empty, lines, fields, cut_at, trim_space, index_byte, last_index_byte, parse_uint, ◌=t=◌,
  nth,
}
use fleet_core.GoMap.{GoMap, put}

abbrev pub word64 : ℕ
word64 = 2 ^ 64

-- `a + b`, `a - b` and `a * b` of `uint64`
abbrev pub wrap_add : ℕ → ℕ → ℕ
wrap_add a b = (a + b) % word64

abbrev pub wrap_sub : ℕ → ℕ → ℕ
wrap_sub a b = (a + (word64 - b)) % word64

abbrev pub wrap_mul : ℕ → ℕ → ℕ
wrap_mul a b = (a * b) % word64

abbrev pub lo_name : Text
lo_name = b'l' ∷ b'o' ∷ []

abbrev cpu_name : Text
cpu_name = b'c' ∷ b'p' ∷ b'u' ∷ []

abbrev mem_total_name : Text
mem_total_name = b'M' ∷ b'e' ∷ b'm' ∷ b'T' ∷ b'o' ∷ b't' ∷ b'a' ∷ b'l' ∷ b':' ∷ []

abbrev mem_available_name : Text
mem_available_name =
    b'M' ∷ b'e' ∷ b'm' ∷ b'A' ∷ b'v' ∷ b'a' ∷ b'i' ∷ b'l' ∷ b'a' ∷ b'b' ∷ b'l' ∷ b'e' ∷ b':' ∷ []

-- The text before the first new line, or the whole of one with none.
abbrev first_line : Text → Text
first_line raw = elim (cut_at b'\n' raw) [ none ↦ raw | some (line, rest) ↦ line ]

unfoldable pub wrap_sum : List ℕ → ℕ → ℕ
wrap_sum [] total = total
wrap_sum (v ∷ vs) total = wrap_sum vs (wrap_add total v)

-- The numbers of the `cpu` line: busy and total. There are four of them at least.
unfoldable pub cpu_times : List ℕ → ℕ × ℕ
unfolding wrap_sum
cpu_times (user ∷ nice ∷ system ∷ idle ∷ rest) =
    let total = wrap_sum (user ∷ nice ∷ system ∷ idle ∷ rest) 0 in
    let idle' : ℕ = elim rest [ [] ↦ idle | iowait ∷ more ↦ wrap_add idle iowait ] in
    (wrap_sub total idle', total)
cpu_times _ = (0, 0)

unfoldable pub read_cpu : Option Text → ℕ × ℕ
unfolding cpu_times
read_cpu none = (0, 0)
read_cpu (some raw) =
    let fs = fields (first_line raw) in
    if ltb (length fs) 5 || not (nth 0 fs =t= cpu_name)
    then (0, 0)
    else cpu_times (map parse_uint (drop 1 fs))

-- One line of /proc/meminfo, on `total` and `avail`.
unfoldable pub read_mem_line : Text → ℕ × ℕ → ℕ × ℕ
read_mem_line line (total, avail) =
    let fs = fields line in
    if ltb (length fs) 2
    then (total, avail)
    else if nth 0 fs =t= mem_total_name
    then (wrap_mul (parse_uint (nth 1 fs)) 1024, avail)
    else if nth 0 fs =t= mem_available_name
    then (total, wrap_mul (parse_uint (nth 1 fs)) 1024)
    else (total, avail)

unfoldable pub read_mem_lines : List Text → ℕ × ℕ → ℕ × ℕ
unfolding read_mem_line
read_mem_lines [] acc = acc
read_mem_lines (l ∷ ls) acc = read_mem_lines ls (read_mem_line l acc)

-- Total and used bytes.
unfoldable pub read_mem : Option Text → ℕ × ℕ
unfolding read_mem_lines
read_mem none = (0, 0)
read_mem (some raw) =
    let (total, avail) = read_mem_lines (lines raw) (0, 0) in
    (total, if leb avail total then total - avail else 0)

pub record IfaceCounters : Type 0 where
  pub rx : ℕ
  pub tx : ℕ

-- A line of /proc/net/dev that `readNet` counts.
unfoldable pub read_net_line : Text → Option IfaceCounters
read_net_line line = elim (cut_at b':' line) [
  | none ↦ none
  | some (name, rest) ↦
      let fs = fields rest in
      if (trim_space name =t= lo_name) || ltb (length fs) 9
      then none
      else some (record { rx = parse_uint (nth 0 fs); tx = parse_uint (nth 8 fs) })
]

unfoldable pub read_net_lines : List Text → ℕ × ℕ → ℕ × ℕ
unfolding read_net_line
read_net_lines [] acc = acc
read_net_lines (l ∷ ls) (rx, tx) = elim (read_net_line l) [
  | none ↦ read_net_lines ls (rx, tx)
  | some c ↦ read_net_lines ls (wrap_add rx c.rx, wrap_add tx c.tx)
]

unfoldable pub read_net : Option Text → ℕ × ℕ
unfolding read_net_lines
read_net none = (0, 0)
read_net (some raw) = read_net_lines (lines raw) (0, 0)

-- A line of /proc/net/dev as `readNetPerIface` takes it: the interface and its counters.
unfoldable pub read_iface_line : Text → Option (Text × IfaceCounters)
read_iface_line line = elim (cut_at b':' line) [
  | none ↦ none
  | some (untrimmed, rest) ↦
      let name = trim_space untrimmed in
      let fs = fields rest in
      if (name =t= lo_name) || is_empty name || ltb (length fs) 9
      then none
      else some (name, record { rx = parse_uint (nth 0 fs); tx = parse_uint (nth 8 fs) })
]

-- `text` makes a `string` of bytes.
unfoldable pub read_ifaces : (Text → String) → List Text → GoMap IfaceCounters → GoMap IfaceCounters
unfolding read_iface_line
read_ifaces text [] out = out
read_ifaces text (l ∷ ls) out = elim (read_iface_line l) [
  | none ↦ read_ifaces text ls out
  | some (name, c) ↦ read_ifaces text ls (put (text name) c out)
]

unfoldable pub read_net_per_iface : (Text → String) → Option Text → GoMap IfaceCounters
unfolding read_ifaces
read_net_per_iface text none = []
read_net_per_iface text (some raw) = read_ifaces text (lines raw) []

pub record ProcCpu : Type 0 where
  pub comm : Text
  pub jiff : ℕ
  pub rss : ℕ

-- `rest[11]`, `rest[12]` and `rest[21]`, from the fields that follow the comm
unfoldable pub stat_of_fields : Text → List Text → ℕ → Option ProcCpu
stat_of_fields comm rest page_size =
    if ltb (length rest) 22
    then none
    else some (record {
      comm = comm;
      jiff = wrap_add (parse_uint (nth 11 rest)) (parse_uint (nth 12 rest));
      rss = wrap_mul (parse_uint (nth 21 rest)) page_size;
    })

unfoldable pub parse_stat : Text → ℕ → Option ProcCpu
parse_stat stat page_size = elim (index_byte b'(' stat) [
  | none ↦ none
  | some first ↦ elim (last_index_byte b')' stat) [
    | none ↦ none
    | some last ↦
        if ltb last first
        then none
        else stat_of_fields (take (last - (first + 1)) (drop (first + 1) stat))
            (fields (drop (last + 1) stat)) page_size
  ]
]
