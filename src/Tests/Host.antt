-- ===== src/Tests/Host.antt =====
-- Concrete runs of the agent: its samples, its inventory, its stream and its identity.
use fleet_core.Prelude.{
  ℕ, zero, suc, ◌+◌, ◌-◌, ◌*◌, ◌%◌, ◌^◌, ◌≤◌, String, ◌≡◌, refl, Bool, true, false, Option, none,
  some, List, [], ◌∷◌, ◌++◌, arith, leb, if◌then◌else◌, is_some, keep_if, map, All, ◌=s=◌,
}
use fleet_core.Prelude.Exec.{ok}
use mathlib.Core.List.{Permᴰ}
use mathlib.Core.List.Permᴰ
use fleet_core.Prelude.Int.{pos}
use fleet_core.Prelude.Bytes.{Text, ascii, is_space, trim_space, ◌=t=◌}
use fleet_core.GoMap.{GoMap, get, keys}
use fleet_core.Api.{NetInterface, ProcSample, DesiredState, EnrollResponse}
use fleet_core.Live.{handle_metrics_push}
use fleet_core.Sampling.{parse_stat, IfaceCounters}
use fleet_core.Sampling.Stat.{IsWord, stat_line, parse_stat_lem}
use fleet_core.Sampling.Processes.{top_limit, select_processes}
use fleet_core.Sampling.Processes.Selected.{
  Lists, FallsByCpu, NotAbove, IsAccounted, select_processes_lem,
}
use fleet_core.Sampling.Rates.{net_samples, sample_names, IsRate, net_samples_lem}
use fleet_core.Sampling.Tick.{Host, Meters, metrics_tick, seconds}
use fleet_core.Sampling.Bounds.{metrics_tick_lem, handle_metrics_push-tick}
use fleet_core.Inventory.{separates}
use fleet_core.Inventory.Roles.{AreJoined}
use fleet_core.Agent.{written, Save}
use fleet_core.Agent.Runtime.{Runtime, refused, opened, stream_lines, stream_loop}
use fleet_core.Agent.Runtime.Waits.{waits_from, stream_loop-waits}
use fleet_core.Agent.Runtime.Converges.{
  events, last_event, revisions, event_revisions, handled, stream_lines_lem,
}
use fleet_core.Agent.Enrollment.{
  Response, Files, FirstContact, Keys, peer_accepted, enroll, enrolled, load_keys, RenewalWorld,
  maybe_renew_cert,
}
use fleet_core.Agent.Enrollment.Files.{HasKeys, enroll-load_keys}
use fleet_core.Agent.Enrollment.Renewal.{maybe_renew_cert-load_keys}
use fleet_core.Interfaces.{ipv4, ipv6, Iface, collect_interfaces}
use fleet_core.Interfaces.Primary.{Leads, IsRanked, collect_interfaces_lem}
use fleet_core.Tests.{works, no_text, removable, new_agent, wanted}
use fleet_core.Tests.Live.{nat_float, live, me}

-- Fields that are all the digit 7.
abbrev sevens : ℕ → List Text
sevens zero = []
sevens (suc n) = (b'7' ∷ []) ∷ sevens n

sevens-IsWord : (n : ℕ) → All IsWord (sevens n)
unfolding is_space
sevens-IsWord zero = tt
sevens-IsWord (suc n) = ((refl, ((refl, refl), tt)), sevens-IsWord n)

parse_stat_lem_example :
    parse_stat (stat_line 42 (ascii "(sd-pam) x)") (sevens 22)) 4096
    ≡ some
        (record { comm = ascii "(sd-pam) x)"; jiff = (7 + 7) % 2 ^ 64; rss = (7 * 4096) % 2 ^ 64 })
parse_stat_lem_example =
    parse_stat_lem 42 (ascii "(sd-pam) x)") (sevens 22) 4096 7 7 7 (sevens-IsWord 22) (ground arith)
      refl refl refl (ground arith) (ground arith) (ground arith)

abbrev proc : ℕ → ℕ → ℕ → String → ProcSample ℕ
proc pid cpu mem service = record {
  pid = pid;
  comm = "comm";
  cpu_percent = cpu;
  mem_bytes = mem;
  service = service;
}

abbrev procs : List (ProcSample ℕ)
procs = proc 1 90 10 "" ∷ proc 2 0 500 "" ∷ proc 3 1 20 "kubelet" ∷ proc 4 2 30 "" ∷ []

abbrev same_level : ℕ → ℕ
same_level n = n

select_processes_lem_example :
    let out = select_processes nat_float procs (pos 1) in
    ((rest : List (ProcSample ℕ)) × Permᴰ (out ++ rest) procs)
    × FallsByCpu nat_float same_level out
    × All (λ p. (p.service =s= "") ≡ false → Lists out p) procs
    × All (IsAccounted (λ p q. p.mem_bytes ≤ q.mem_bytes) (top_limit (pos 1)) procs out) procs
    × All (IsAccounted (NotAbove nat_float same_level) (top_limit (pos 1)) procs out) procs
select_processes_lem_example = select_processes_lem nat_float same_level procs (pos 1) (
  ((refl, refl), ((refl, refl), ((refl, refl), ((refl, refl), tt)))),
  (
    ((refl, refl), ((refl, refl), ((refl, refl), ((refl, refl), tt)))),
    (
      ((refl, refl), ((refl, refl), ((refl, refl), ((refl, refl), tt)))),
      (((refl, refl), ((refl, refl), ((refl, refl), ((refl, refl), tt)))), tt),
    ),
  ),
)

abbrev counters : ℕ → ℕ → IfaceCounters
counters rx tx = record { rx = rx; tx = tx }

abbrev before : GoMap IfaceCounters
before = ("eth0", counters 100 50) ∷ []

abbrev after : GoMap IfaceCounters
after = ("eth0", counters 40 90) ∷ ("eth1", counters 5 5) ∷ []

net_samples_lem_example :
    let out = net_samples nat_float before after 10 in
    All (IsRate nat_float before after 10) out
    × Permᴰ (sample_names nat_float out) (keys (keep_if (λ e. is_some (get e.0 before)) after))
net_samples_lem_example = net_samples_lem nat_float before after 10 ((refl, tt), (tt, tt)) refl

abbrev idle_host : Host ℕ
idle_host = record {
  now = 10 ^ 9;
  stat = none;
  net_dev = some (ascii "eth0: 4 0 0 0 0 0 0 0 6\n");
  net_dev_again = none;
  loadavg = none;
  meminfo = none;
  disk = none;
  proc_entries = none;
  pods = [];
}

-- The receive counter stood at 10.
abbrev meters : Meters
meters = record { busy = 0; total = 0; rx = 10; tx = 1; at = 0; procs = []; ifaces = [] }

metrics_tick_lem_example :
    let (s, m') = metrics_tick nat_float no_text (λ t. 0) 4096 4 (pos 0) idle_host meters in
    let elapsed = seconds nat_float (idle_host.now - meters.at) in
    let delta : ℕ → ℕ → ℕ =
      λ cur prev. if leb prev cur then cur - prev else 2 ^ 64 - (prev - cur) in
    (s.net_rx_bps ≡ nat_float.div (nat_float.of_nat (delta m'.rx meters.rx)) elapsed)
    × (s.net_tx_bps ≡ nat_float.div (nat_float.of_nat (delta m'.tx meters.tx)) elapsed)
unfolding seconds
metrics_tick_lem_example =
    metrics_tick_lem nat_float no_text (λ t. 0) 4096 4 (pos 0) idle_host meters (ground arith)
      (ground arith) refl

handle_metrics_push-tick_example :
    let s = (metrics_tick nat_float no_text (λ t. 0) 4096 4 (pos 0) idle_host meters).0 in
    let l' = (handle_metrics_push nat_float me (some s) live).1 in
    (get "m1" l'.samples ≡ some s) × (s.gpus ≡ [])
handle_metrics_push-tick_example =
    handle_metrics_push-tick nat_float no_text (λ t. 0) 4096 4 (pos 0) idle_host meters me live

abbrev server_args : ℕ → List (Text × ℕ)
server_args sep = (ascii "k3s", sep) ∷ (ascii "server", sep) ∷ []

server_args-AreJoined : (sep : ℕ) → separates sep ≡ true → AreJoined (server_args sep)
unfolding separates
server_args-AreJoined sep e = (
  ((refl, (refl, (refl, (refl, tt)))), e),
  (((refl, (refl, (refl, (refl, (refl, (refl, (refl, tt))))))), e), tt),
)

spaces_too : (separates 0 ≡ true) × (separates b' ' ≡ true)
unfolding separates
spaces_too = (refl, refl)

-- Every event has the desired state of the tests.
abbrev decode : Text → Option DesiredState
decode body = some wanted

abbrev saves : ℕ → Save
saves n = written

abbrev runtime : Runtime
runtime = record { agent = new_agent; last_desired = none; reports = [] }

abbrev sent : List Text
sent = ascii ": keepalive" ∷ ascii "data: {}" ∷ []

stream_loop-waits_example :
    (stream_loop no_text works removable saves decode
      (refused "no route" ∷ opened (ascii "data: {}\n") none ∷ refused "no route" ∷ [])
      runtime).0
    ≡ waits_from 0 3
stream_loop-waits_example =
    stream_loop-waits no_text works removable saves decode
      (refused "no route" ∷ opened (ascii "data: {}\n") none ∷ refused "no route" ∷ []) runtime

stream_lines_lem_example :
    let rt' = stream_lines no_text works removable saves decode sent runtime in
    (rt' ≡ handled no_text works removable saves (events decode sent) runtime)
    × (rt'.last_desired ≡ last_event (events decode sent) none)
    × (revisions rt'.reports ≡ revisions [] ++ event_revisions (events decode sent))
stream_lines_lem_example = stream_lines_lem no_text works removable saves decode sent runtime

abbrev issued : EnrollResponse
issued = record {
  machine_id = "m1";
  tenant_id = "t1";
  cert_pem = "cert";
  ca_pem = "ca";
  module_pub_pem = "pub";
}

abbrev answer_of : {A : Type 0} → A → Response A
answer_of a = record { code = 200; status = "200 OK"; message = ""; value = ok a }

abbrev pub contact : FirstContact
contact = record {
  dir_error = none;
  csr = ok "csr";
  certificates = [];
  answer = λ req. ok (answer_of issued);
  key_pem = ok (ascii "key");
  writes = λ name. none;
}

abbrev pub no_pair_error : Text → Text → Option String
no_pair_error cert key = none

abbrev pub any_ca : Text → Bool
any_ca ca = true

abbrev pub in_order : List (String × Text) → List (String × Text)
in_order fs = fs

-- Without a fingerprint every server is accepted.
accepted : peer_accepted [] [] ≡ true
unfolding peer_accepted
accepted = refl

enroll-load_keys_example :
    let (result, files) = enroll in_order contact "token" "box" [] [] in
    (result ≡ ok tt)
    × (enrolled files ≡ true)
    × (load_keys no_pair_error any_ca files
        ≡ ok (record {
          machine_id = trim_space (ascii "m1");
          mod_key = ascii "pub";
          cert = ascii "cert";
          key = ascii "key";
          ca = ascii "ca";
        }))
enroll-load_keys_example =
    enroll-load_keys in_order contact "token" "box" "csr" [] (ascii "key") [] (answer_of issued)
      issued no_pair_error any_ca (λ fs. Permᴰ.refl fs) refl refl accepted refl refl refl refl
      (λ name. refl) refl refl

abbrev pub stored : Files
stored =
    ("cert.pem", ascii "cert")
    ∷ ("key.pem", ascii "key")
    ∷ ("ca.pem", ascii "ca")
    ∷ ("machine-id", ascii "m1")
    ∷ ("module-pub.pem", ascii "pub")
    ∷ []

abbrev stored_keys : Keys
stored_keys = record {
  machine_id = trim_space (ascii "m1");
  mod_key = ascii "pub";
  cert = ascii "cert";
  key = ascii "key";
  ca = ascii "ca";
}

stored-HasKeys : HasKeys no_pair_error any_ca stored stored_keys
unfolding get
stored-HasKeys = record {
  raw_id = ascii "m1";
  cert = refl;
  key = refl;
  ca = refl;
  id = refl;
  mod_key = refl;
  trimmed = refl;
  paired = refl;
  certs = refl;
}

-- The certificate ends in 20 days.
abbrev pub near_end : RenewalWorld
near_end = record {
  now = 0;
  not_after = λ cert. some (20 * 24 * 3600 * 10 ^ 9);
  csr = λ key. some "csr";
  answer = λ csr. ok (answer_of "cert2");
  writes = λ name. none;
}

maybe_renew_cert-load_keys_example :
    load_keys no_pair_error any_ca (maybe_renew_cert near_end stored)
    ≡ ok (record stored_keys { cert = ascii "cert2" })
maybe_renew_cert-load_keys_example =
    maybe_renew_cert-load_keys near_end stored stored_keys no_pair_error any_ca
      (20 * 24 * 3600 * 10 ^ 9) "csr" "cert2" (answer_of "cert2") stored-HasKeys refl (ground arith)
      refl refl (ground arith) refl refl refl

abbrev name_text : Text → String
name_text name = if name =t= ascii "lo" then "lo" else "eth0"

abbrev cidr_of : String → Option (String × Bool)
cidr_of s = if s =s= "127.0.0.1/8" then some ("127.0.0.1", true) else some ("10.0.0.5", false)

abbrev lo : Iface
lo = record {
  name = ascii "lo";
  mtu = 65536;
  up = true;
  hardware_addr = none;
  speed = none;
  addrs = some (ipv4 "127.0.0.1/8" "127.0.0.1" ∷ []);
}

abbrev eth0 : Iface
eth0 = record {
  name = ascii "eth0";
  mtu = 1500;
  up = true;
  hardware_addr = some "02:00:00:00:00:01";
  speed = some (ascii "1000 ");
  addrs = some (ipv6 "fe80::1/64" true ∷ ipv4 "10.0.0.5/24" "10.0.0.5" ∷ []);
}

-- No default route: the fallback finds the address of eth0.
abbrev seen : List NetInterface × String
seen = collect_interfaces cidr_of name_text none (some (lo ∷ eth0 ∷ []))

collect_interfaces_lem_example :
    Permᴰ (map (λ n. n.name) seen.0) ("lo" ∷ "eth0" ∷ [])
    × IsRanked seen.0
    × ((seen.1 =s= "") ≡ false → Leads seen.0)
collect_interfaces_lem_example = collect_interfaces_lem cidr_of name_text none (lo ∷ eth0 ∷ [])
