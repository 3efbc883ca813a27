-- ===== src/Interfaces.antt =====
-- internal/agent/netinfo.go: the interfaces of a host and its primary address. What the net package and
-- the kernel's files say is the outside world.
pub mod Primary
use fleet_core.Prelude.{
  ℕ, zero, suc, String, Bool, true, false, not, ◌&&◌, ◌||◌, Option, none, some, List, [], ◌∷◌, ◌++◌,
  ltb, leb, ◌==◌, if◌then◌else◌, length, drop, any, ◌=s=◌, ◌<s◌,
}
use fleet_core.Prelude.Int.{ℤ, pos, negsuc}
use fleet_core.Prelude.Bytes.{
  Text, ascii, is_empty, lines, fields, nth, trim_space, parse_digits, has_prefix, ◌=t=◌,
}
use fleet_core.Sort.{sort_slice}
use fleet_core.Api.{NetInterface}
use fleet_core.Commands.{max_int64}

abbrev virtual_prefixes : List Text
virtual_prefixes =
    ascii "lo"
    ∷ ascii "veth"
    ∷ ascii "docker"
    ∷ ascii "br-"
    ∷ ascii "cni"
    ∷ ascii "flannel"
    ∷ ascii "cali"
    ∷ ascii "cilium"
    ∷ ascii "kube-ipvs"
    ∷ ascii "nodelocaldns"
    ∷ ascii "virbr"
    ∷ ascii "vxlan"
    ∷ ascii "tunl"
    ∷ ascii "dummy"
    ∷ ascii "ifb"
    ∷ []

unfoldable pub is_virtual_iface : Text → Bool
is_virtual_iface name = any (λ p. has_prefix p name) virtual_prefixes

-- The value that `strconv.Atoi` returns, beside an error too.
abbrev clamp : ℕ → ℕ
clamp n = if leb n max_int64 then n else max_int64

abbrev negated : ℕ → ℤ
negated zero = pos 0
negated (suc n) = negsuc (clamp n)

unfoldable atoi_value : Text → ℤ
unfolding parse_digits
atoi_value [] = pos 0
atoi_value (c ∷ s) =
    if c == b'-'
    then negated (parse_digits 0 s)
    else pos (clamp (parse_digits 0 (if c == b'+' then s else c ∷ s)))

abbrev less_int : ℤ → ℤ → Bool
less_int (pos m) (pos n) = ltb m n
less_int (pos m) (negsuc n) = false
less_int (negsuc m) (pos n) = true
less_int (negsuc m) (negsuc n) = ltb n m

-- One line of the routes: the best interface so far and its metric.
unfoldable pub route_line : Text → Text × ℤ → Text × ℤ
unfolding fields atoi_value
route_line line (best, metric) =
    let f = fields line in
    if ltb (length f) 8 || not (nth 1 f =t= ascii "00000000")
    then (best, metric)
    else let m = atoi_value (nth 6 f) in
      if is_empty best || less_int m metric then (nth 0 f, m) else (best, metric)

unfoldable pub route_lines : List Text → Text × ℤ → Text × ℤ
unfolding route_line
route_lines [] best = best
route_lines (l ∷ ls) best = route_lines ls (route_line l best)

-- /proc/net/route, if it can be read, without its header.
unfoldable pub default_route_iface : Option Text → Text
unfolding route_lines lines
default_route_iface none = []
default_route_iface (some raw) = (route_lines (drop 1 (lines raw)) ([], negsuc 0)).0

-- The speed file. A number that is no int64 is an error.
unfoldable pub iface_speed : Option Text → ℕ
unfolding trim_space parse_digits
iface_speed none = 0
iface_speed (some raw) = elim (trim_space raw) [
  | [] ↦ 0
  | c ∷ s ↦
      let n = parse_digits 0 (if c == b'+' then s else c ∷ s) in
      if c == b'-' then 0 else if leb n max_int64 then n else 0
]

-- An address: its CIDR text and, for IPv4, the address alone, or whether it is link-local.
pub data Addr : Type 0 where
  ipv4 : String → String → Addr
  ipv6 : String → Bool → Addr
  no_ip : Addr

pub record Iface : Type 0 where
  pub name : Text
  pub mtu : ℕ
  pub up : Bool
  pub hardware_addr : Option String
  pub speed : Option Text
  pub addrs : Option (List Addr)

-- An error leaves no addresses.
abbrev pub addrs_of : Iface → List Addr
addrs_of ifc = elim ifc.addrs [ none ↦ [] | some as' ↦ as' ]

-- The loop over the addresses: the lists of the interface, and the primary address so far.
unfoldable pub add_addrs : Bool → List Addr → NetInterface × String → NetInterface × String
add_addrs primary [] out = out
add_addrs primary (ipv4 cidr ip ∷ as') (ni, primary_ip) = add_addrs primary as' (
  record ni { ipv4 = ni.ipv4 ++ cidr ∷ [] },
  if primary && primary_ip =s= "" then ip else primary_ip,
)
add_addrs primary (ipv6 cidr link_local ∷ as') (ni, primary_ip) =
    add_addrs primary as'
      (if link_local then ni else record ni { ipv6 = ni.ipv6 ++ cidr ∷ [] }, primary_ip)
add_addrs primary (no_ip ∷ as') out = add_addrs primary as' out

-- `out[i].Primary != out[j].Primary`, and so on.
unfoldable pub by_rank : NetInterface → NetInterface → Bool
unfolding ◌<s◌
by_rank a b =
    if a.primary && not b.primary
    then true
    else if not a.primary && b.primary
    then false
    else if a.virtual && not b.virtual
    then false
    else if not a.virtual && b.virtual
    then true
    else a.name <s b.name

-- `net.ParseCIDR`: the address, and whether it is a loopback one.
module _ (parse_cidr : String → Option (String × Bool)) where
  -- What the fallback takes from an interface.
  unfoldable pub routable_ip : NetInterface → Option String
  routable_ip ni = if not ni.up || ni.virtual then none else elim ni.ipv4 [
    | [] ↦ none
    | cidr ∷ cidrs ↦ elim (parse_cidr cidr) [
      | none ↦ none
      | some (ip, loopback) ↦ if loopback then none else some ip
    ]
  ]

  -- The first interface with a routable address becomes the primary one.
  unfoldable pub fallback : List NetInterface → List NetInterface × String
  unfolding routable_ip
  fallback [] = ([], "")
  fallback (ni ∷ nis) =
      let (rest, ip) = fallback nis in
      elim (routable_ip ni) [
        | none ↦ (ni ∷ rest, ip)
        | some found ↦ (record ni { primary = true } ∷ nis, found)
      ]

module _ (text : Text → String) where
  unfoldable pub net_interface : Text → Iface → NetInterface
  unfolding is_virtual_iface iface_speed
  net_interface def ifc = record {
    name = text ifc.name;
    mac = elim ifc.hardware_addr [ none ↦ "" | some mac ↦ mac ];
    mtu = ifc.mtu;
    speed_mbps = iface_speed ifc.speed;
    up = ifc.up;
    primary = ifc.name =t= def;
    virtual = is_virtual_iface ifc.name;
    ipv4 = [];
    ipv6 = [];
  }

  -- The loop over the interfaces.
  unfoldable pub add_ifaces : Text → List Iface → String → List NetInterface × String
  unfolding net_interface add_addrs
  add_ifaces def [] primary_ip = ([], primary_ip)
  add_ifaces def (ifc ∷ ifcs) primary_ip =
      let new = net_interface def ifc in
      let (ni, ip) = add_addrs new.primary (addrs_of ifc) (new, primary_ip) in
      let (nis, ip') = add_ifaces def ifcs ip in (ni ∷ nis, ip')

-- `none` is an error of `net.Interfaces()`.
unfoldable pub collect_interfaces :
    (String → Option (String × Bool))
    → (Text → String)
    → Option Text
    → Option (List Iface)
    → List NetInterface × String
unfolding default_route_iface add_ifaces fallback by_rank
collect_interfaces parse_cidr text routes none = ([], "")
collect_interfaces parse_cidr text routes (some ifcs) =
    let (found, ip) = add_ifaces text (default_route_iface routes) ifcs "" in
    let (marked, ip') = if ip =s= "" then fallback parse_cidr found else (found, ip) in
    (sort_slice by_rank marked, ip')
