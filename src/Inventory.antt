-- ===== src/Inventory.antt =====
-- internal/agent/inventory.go: the server software and the Kubernetes role that an agent finds on its host.
pub mod Host
pub mod Roles
use fleet_core.Prelude.{
  ℕ, ◌+◌, ◌-◌, ◌/◌, ◌<◌, String, Bool, not, ◌&&◌, ◌||◌, Option, none, some, List, [], ◌∷◌, ◌==◌,
  if◌then◌else◌, any, ◌=s=◌, ◌<s◌,
}
use fleet_core.Prelude.Bytes.{Text, is_empty, fields_by, contains, ascii, trim_space, ◌=t=◌}
use fleet_core.GoMap.{GoMap, put, values}
use fleet_core.Sort.{sort_slice}
use fleet_core.Api.{Service}

abbrev service : String → String → Service
service name category = record { name = name; category = category }

-- By comm. The kernel cuts a comm to 15 bytes.
abbrev pub known_services : List (String × Service)
known_services =
    ("postgres", service "postgresql" "database")
    ∷ ("mysqld", service "mysql" "database")
    ∷ ("mariadbd", service "mariadb" "database")
    ∷ ("mongod", service "mongodb" "database")
    ∷ ("redis-server", service "redis" "database")
    ∷ ("valkey-server", service "valkey" "database")
    ∷ ("clickhouse-serv", service "clickhouse" "database")
    ∷ ("memcached", service "memcached" "database")
    ∷ ("sqld", service "sqld" "database")
    ∷ ("etcd", service "etcd" "database")
    ∷ ("kubelet", service "kubelet" "kubernetes")
    ∷ ("kube-apiserver", service "kube-apiserver" "kubernetes")
    ∷ ("kube-scheduler", service "kube-scheduler" "kubernetes")
    ∷ ("kube-controller", service "kube-controller-manager" "kubernetes")
    ∷ ("kube-proxy", service "kube-proxy" "kubernetes")
    ∷ ("k3s", service "k3s" "kubernetes")
    ∷ ("k3s-server", service "k3s-server" "kubernetes")
    ∷ ("k3s-agent", service "k3s-agent" "kubernetes")
    ∷ ("k0s", service "k0s" "kubernetes")
    ∷ ("dockerd", service "docker" "container")
    ∷ ("containerd", service "containerd" "container")
    ∷ ("crio", service "crio" "container")
    ∷ ("nginx", service "nginx" "web")
    ∷ ("haproxy", service "haproxy" "web")
    ∷ ("caddy", service "caddy" "web")
    ∷ ("nats-server", service "nats" "messaging")
    ∷ ("ollama", service "ollama" "ai")
    ∷ ("prometheus", service "prometheus" "monitoring")
    ∷ ("node_exporter", service "node_exporter" "monitoring")
    ∷ ("sshd", service "sshd" "system")
    ∷ []

-- `knownServices[comm]`
unfoldable pub known_in : List (String × Service) → Text → Option Service
known_in [] comm = none
known_in ((k, svc) ∷ es) comm =
    let rest = known_in es comm in if ascii k =t= comm then some svc else rest

abbrev pub known_service : Text → Option Service
known_service = known_in known_services

-- The separators of `k3sRoleFromCmdline`.
unfoldable pub separates : ℕ → Bool
separates c = c == 0 || c == b' ' || c == b'\t' || c == b'\n'

-- `filepath.Base`: what follows the last slash before those at the end.
unfoldable trim_slashes : Text → Text
trim_slashes [] = []
trim_slashes (c ∷ s) =
    let rest = trim_slashes s in if (c == b'/') && is_empty rest then [] else c ∷ rest

unfoldable after_slash : Text → Text
after_slash [] = []
after_slash (c ∷ s) =
    let rest = after_slash s in if any (λ d. d == b'/') (c ∷ s) then rest else c ∷ s

unfoldable pub base : Text → Text
unfolding trim_slashes after_slash
base s =
    if is_empty s
    then ascii "."
    else if is_empty (trim_slashes s)
    then ascii "/"
    else after_slash (trim_slashes s)

unfoldable pub subcommand_role : List Text → String
subcommand_role [] = "k3s"
subcommand_role (f ∷ fs) =
    let rest = subcommand_role fs in
    if f =t= ascii "server" then "k3s-server" else if f =t= ascii "agent" then "k3s-agent" else rest

unfoldable pub k3s_role_from_cmdline : Text → String
unfolding separates base subcommand_role
k3s_role_from_cmdline raw = elim (fields_by separates raw) [
  | [] ↦ ""
  | program ∷ args ↦ if contains (ascii "k3s") (base program) then subcommand_role args else ""
]

-- `raw` is what the file holds.
unfoldable pub k3s_role : Option Text → String
unfolding k3s_role_from_cmdline
k3s_role none = ""
k3s_role (some raw) = k3s_role_from_cmdline raw

unfoldable pub detect_kubernetes : List Service → String
detect_kubernetes services =
    let has : String → Bool = λ name. any (λ s. s.name =s= name) services in
    if has "k3s-server"
    then "k3s-server"
    else if has "k3s-agent"
    then "k3s-agent"
    else if has "k3s"
    then "k3s"
    else if has "kube-apiserver"
    then "control-plane"
    else if has "kubelet"
    then "worker"
    else ""

-- An entry of /proc: whether it is a directory, the number that its name is, and its files, where
-- they can be read.
pub record ProcEntry : Type 0 where
  pub is_dir : Bool
  pub pid : Option ℕ
  pub stat : Option Text
  pub comm : Option Text
  pub cmdline : Option Text

-- `!e.IsDir()` and `strconv.Atoi`
abbrev pub process_id : ProcEntry → Option ℕ
process_id e = if e.is_dir then e.pid else none

abbrev is_k3s_comm : Text → Bool
is_k3s_comm comm = (comm =t= ascii "k3s") || (comm =t= ascii "exe")

-- What one process adds to `found`.
unfoldable pub note_service : ProcEntry → GoMap Service → GoMap Service
unfolding known_in k3s_role
note_service e found = elim e.comm [
  | none ↦ found
  | some raw ↦
      let comm = trim_space raw in
      let role = k3s_role e.cmdline in
      if is_k3s_comm comm && not (role =s= "")
      then put role (service role "kubernetes") found
      else elim (known_service comm) [ none ↦ found | some svc ↦ put svc.name svc found ]
]

unfoldable pub scan_entries : List ProcEntry → ℕ → GoMap Service → ℕ × GoMap Service
unfolding note_service
scan_entries [] count found = (count, found)
scan_entries (e ∷ es) count found = elim (process_id e) [
  | none ↦ scan_entries es count found
  | some pid ↦ scan_entries es (count + 1) (note_service e found)
]

unfoldable pub by_category : Service → Service → Bool
by_category a b = if a.category =s= b.category then a.name <s b.name else a.category <s b.category

unfoldable pub scan_procs : Option (List ProcEntry) → ℕ × List Service
unfolding scan_entries by_category
scan_procs none = (0, [])
scan_procs (some es) =
    let (count, found) = scan_entries es 0 [] in (count, sort_slice by_category (values found))
