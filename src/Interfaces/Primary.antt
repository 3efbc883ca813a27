-- ===== src/Interfaces/Primary.antt =====
-- internal/agent/netinfo.go: what collectInterfaces reports, and which interface comes first.
use fleet_core.Prelude.Filters.{All-map_lem}
use mathlib.Core.List.{Permᴰ}
use mathlib.Core.List.Permᴰ
use fleet_core.Prelude.{
  String, ◌≡◌, refl, ap, ap₂, ◌∙◌, subst, Bool, true, false, ◌&&◌, ◌||◌, Option, some, List, [],
  ◌∷◌, map, arith, if◌then◌else◌, Bool-cases, Option-cases, inl, inr, any, All, ◌=s=◌, ◌<s◌,
  eq_refl, <s_asym,
}
use fleet_core.Prelude.Bytes.{Text}
use fleet_core.Sort.{insert_sorted, sort_slice}
use fleet_core.Sort.Laws.{StrictWeak, Sorted, sort_slice-Sorted, sort_slice-perm, <s_neg_trans}
use fleet_core.Api.{NetInterface}
use fleet_core.Interfaces.{
  Addr, ipv4, ipv6, no_ip, Iface, add_addrs, by_rank, routable_ip, fallback, net_interface,
  add_ifaces, addrs_of, collect_interfaces, default_route_iface,
}

by_rank-StrictWeak : StrictWeak by_rank
unfolding by_rank
by_rank-StrictWeak = record {
  asym = λ a b. ground (arith, <s_asym a.name b.name);
  neg_trans = λ a b c. ground (arith, <s_neg_trans a.name b.name c.name);
}

abbrev is_primary : NetInterface → Bool
is_primary ni = ni.primary

any-insert_sorted :
    (x : NetInterface) (ys : List NetInterface)
    → any is_primary (insert_sorted by_rank x ys) ≡ (x.primary || any is_primary ys)
unfolding insert_sorted
any-insert_sorted x [] = refl
any-insert_sorted x (y ∷ ys) = elim (Bool-cases (by_rank y x)) [
  | inl e ↦ rw e (rw (any-insert_sorted x ys) (ground arith))
  | inr e ↦ rw e refl
]

any-sort_slice :
    (xs : List NetInterface) → any is_primary (sort_slice by_rank xs) ≡ any is_primary xs
unfolding sort_slice
any-sort_slice [] = refl
any-sort_slice (x ∷ xs) =
    any-insert_sorted x (sort_slice by_rank xs) ∙ ap (λ b. x.primary || b) (any-sort_slice xs)

-- The first interface is a primary one.
abbrev pub Leads : List NetInterface → Type 0
Leads [] = ⊥
Leads (ni ∷ nis) = ni.primary ≡ true

not_below :
    (x : NetInterface) (ys : List NetInterface)
    → All (λ y. by_rank y x ≡ false) ys
    → any is_primary ys ≡ true
    → x.primary ≡ true
unfolding by_rank
not_below x [] h e = cc
not_below x (y ∷ ys) h e = ground (arith, h.0, not_below x ys h.1)

Sorted-Leads : (xs : List NetInterface) → Sorted by_rank xs → any is_primary xs ≡ true → Leads xs
Sorted-Leads [] h e = cc
Sorted-Leads (x ∷ xs) h e = ground (arith, not_below x xs h.0)

add_addrs-fixed :
    (p : Bool) (as' : List Addr) (ni : NetInterface) (ip : String)
    → ((add_addrs p as' (ni, ip)).0.name ≡ ni.name)
      × ((add_addrs p as' (ni, ip)).0.primary ≡ ni.primary)
unfolding add_addrs
add_addrs-fixed p [] ni ip = (refl, refl)
add_addrs-fixed p (ipv4 cidr a ∷ as') ni ip = add_addrs-fixed p as' _ _
add_addrs-fixed p (ipv6 cidr true ∷ as') ni ip = add_addrs-fixed p as' _ _
add_addrs-fixed p (ipv6 cidr false ∷ as') ni ip = add_addrs-fixed p as' _ _
add_addrs-fixed p (no_ip ∷ as') ni ip = add_addrs-fixed p as' ni ip

-- Only a primary interface sets the address.
add_addrs-unset :
    (p : Bool) (as' : List Addr) (ni : NetInterface) (ip : String)
    → p ≡ false
    → (add_addrs p as' (ni, ip)).1 ≡ ip
unfolding add_addrs
add_addrs-unset p [] ni ip h = refl
add_addrs-unset p (ipv4 cidr a ∷ as') ni ip h =
    add_addrs-unset p as' _ _ h ∙ ap (λ b. if b && ip =s= "" then a else ip) h
add_addrs-unset p (ipv6 cidr l ∷ as') ni ip h = add_addrs-unset p as' _ ip h
add_addrs-unset p (no_ip ∷ as') ni ip h = add_addrs-unset p as' ni ip h

module _ (parse_cidr : String → Option (String × Bool)) where
  fallback-names :
      (nis : List NetInterface)
      → map (λ n. n.name) (fallback parse_cidr nis).0 ≡ map (λ n. n.name) nis
  unfolding fallback
  fallback-names [] = refl
  fallback-names (ni ∷ nis) = elim (Option-cases (routable_ip parse_cidr ni)) [
    | inl e ↦ rw (e, fallback) (ap (◌∷◌ ni.name) (fallback-names nis))
    | inr (ip, e) ↦ rw (e, fallback) refl
  ]

  fallback-primary :
      (nis : List NetInterface)
      → ((fallback parse_cidr nis).1 =s= "") ≡ false
      → any is_primary (fallback parse_cidr nis).0 ≡ true
  unfolding fallback
  fallback-primary [] h = cc (h, eq_refl "")
  fallback-primary (ni ∷ nis) h = elim (Option-cases (routable_ip parse_cidr ni)) [
    | inl e ↦ rw (e, fallback) (ground (arith, fallback-primary nis (rw (e, fallback) at h)))
    | inr (ip, e) ↦ rw (e, fallback) refl
  ]

module _ (text : Text → String) where
  add_ifaces-names :
      (def : Text) (ifcs : List Iface) (ip : String)
      → map (λ n. n.name) (add_ifaces text def ifcs ip).0 ≡ map (λ c. text c.name) ifcs
  unfolding add_ifaces net_interface
  add_ifaces-names def [] ip = refl
  add_ifaces-names def (ifc ∷ ifcs) ip =
      let new = net_interface text def ifc in
      ap₂ ◌∷◌ (add_addrs-fixed new.primary (addrs_of ifc) new ip).0
        (add_ifaces-names def ifcs (add_addrs new.primary (addrs_of ifc) (new, ip)).1)

  -- An address that is set here comes with a primary interface.
  add_ifaces-primary :
      (def : Text) (ifcs : List Iface) (ip : String)
      → ((add_ifaces text def ifcs ip).1 =s= ip) ≡ false
      → any is_primary (add_ifaces text def ifcs ip).0 ≡ true
  unfolding add_ifaces
  add_ifaces-primary def [] ip h = cc (h, eq_refl ip)
  add_ifaces-primary def (ifc ∷ ifcs) ip h =
      let new = net_interface text def ifc in
      let fixed = (add_addrs-fixed new.primary (addrs_of ifc) new ip).1 in
      elim (Bool-cases new.primary) [
        | inl e ↦ rw fixed (rw e refl)
        | inr e ↦
            let unset = add_addrs-unset new.primary (addrs_of ifc) new ip e in
            rw unset (ground (arith, add_ifaces-primary def ifcs ip (rw unset at h)))
      ]

-- a may stand before b: a primary interface before the others; of two primary or two other ones, a real
-- one before a virtual one; and of two of one kind, the one with the lesser name.
abbrev pub MayPrecede : NetInterface → NetInterface → Type 0
MayPrecede a b =
    (b.primary ≡ true → a.primary ≡ true)
    × (a.primary ≡ b.primary → a.virtual ≡ true → b.virtual ≡ true)
    × (a.primary ≡ b.primary → a.virtual ≡ b.virtual → (b.name <s a.name) ≡ false)

-- Each entry may stand before all that follow it.
abbrev pub IsRanked : List NetInterface → Type 0
IsRanked [] = Unit
IsRanked (a ∷ nis) = All (MayPrecede a) nis × IsRanked nis

by_rank-MayPrecede : (a b : NetInterface) → by_rank b a ≡ false → MayPrecede a b
unfolding by_rank
by_rank-MayPrecede a b e =
    (λ p. ground (arith, e, p), λ p v. ground (arith, e, p, v), λ p v. ground (arith, e, p, v))

Sorted-IsRanked : (nis : List NetInterface) → Sorted by_rank nis → IsRanked nis
Sorted-IsRanked [] h = tt
Sorted-IsRanked (a ∷ nis) h =
    (All-map_lem nis (λ b e. by_rank-MayPrecede a b e) h.0, Sorted-IsRanked nis h.1)

ranked :
    (nis : List NetInterface) (names : List String) (ip : String)
    → map (λ n. n.name) nis ≡ names
    → ((ip =s= "") ≡ false → any is_primary nis ≡ true)
    → Permᴰ (map (λ n. n.name) (sort_slice by_rank nis)) names
      × IsRanked (sort_slice by_rank nis)
      × ((ip =s= "") ≡ false → Leads (sort_slice by_rank nis))
ranked nis names ip e primary =
    let sorted = sort_slice-Sorted by_rank by_rank-StrictWeak nis in
    (
      subst (λ ns. Permᴰ (map (λ n. n.name) (sort_slice by_rank nis)) ns) e
          (Permᴰ.map (λ n. n.name) (sort_slice-perm by_rank nis)),
      Sorted-IsRanked (sort_slice by_rank nis) sorted,
      λ h. Sorted-Leads (sort_slice by_rank nis) sorted (any-sort_slice nis ∙ primary h),
    )

-- There is one entry for each interface, and each may precede all that follow it: primary before other,
-- real before virtual, and by name; and where an address is reported, the first entry is a primary interface.
pub collect_interfaces_lem :
    (parse_cidr : String → Option (String × Bool)) (text : Text → String) (routes : Option Text)
    (ifcs : List Iface)
    → let (out, ip) = collect_interfaces parse_cidr text routes (some ifcs) in
      Permᴰ (map (λ n. n.name) out) (map (λ c. text c.name) ifcs)
      × IsRanked out
      × ((ip =s= "") ≡ false → Leads out)
unfolding collect_interfaces
collect_interfaces_lem parse_cidr text routes ifcs =
    let def = default_route_iface routes in
    let found = (add_ifaces text def ifcs "").0 in
    let names = add_ifaces-names text def ifcs "" in
    elim (Bool-cases ((add_ifaces text def ifcs "").1 =s= "")) [
      | inl e ↦ rw e (
          ranked (fallback parse_cidr found).0 _ (fallback parse_cidr found).1
            (fallback-names parse_cidr found ∙ names) (fallback-primary parse_cidr found))
      | inr e ↦ rw e (ranked found _ _ names (add_ifaces-primary text def ifcs ""))
    ]
