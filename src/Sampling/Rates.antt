-- ===== src/Sampling/Rates.antt =====
-- internal/agent/netinfo.go: the rates of the network interfaces.
use mathlib.Core.List.Permᴰ
use fleet_core.Prelude.{
  map, subst, ℕ, ◌-◌, String, ◌≡◌, refl, ap, inl, inr, Bool, false, ◌||◌, none, some, List, [], ◌∷◌,
  arith, ltb, leb, if◌then◌else◌, Option-cases, is_some, keep_if, All, ◌=s=◌, ◌<s◌, eq_refl,
}
use mathlib.Core.List.{Permᴰ}
use fleet_core.Prelude.Float.{Float}
use fleet_core.Sort.{sort_slice}
use fleet_core.Sort.Laws.{sort_slice-perm, All-sort}
use fleet_core.GoMap.{GoMap, get, keys}
use fleet_core.GoMap.Laws.{Distinct}
use fleet_core.Api.{NetSample}
use fleet_core.Sampling.{IfaceCounters}

behind_key :
    {V : Type 0} (k : String) (v : V) (m n : GoMap V)
    → All (λ j. (k =s= j) ≡ false) (keys n)
    → All (λ e. get e.0 m ≡ some e.1) n
    → All (λ e. get e.0 ((k, v) ∷ m) ≡ some e.1) n
unfolding get
behind_key k v m [] h g = tt
behind_key k v m (e ∷ n) h g = (rw h.0 g.0, behind_key k v m n h.1 g.1)

-- Each entry of a map with distinct keys is the one that its key finds.
Distinct-get : {V : Type 0} (m : GoMap V) → Distinct (keys m) → All (λ e. get e.0 m ≡ some e.1) m
unfolding get
Distinct-get [] h = tt
Distinct-get ((k, v) ∷ m) h = (rw (eq_refl k) refl, behind_key k v m m h.0 (Distinct-get m h.1))

module _ {F : Type 0} (f : Float F) where
  -- `x <= 0`
  abbrev pub not_positive : F → Bool
  not_positive x = f.lt x (f.of_nat 0) || f.eq x (f.of_nat 0)

  -- `if c >= p { bps = float64(c-p) / elapsed }`
  unfoldable pub rate : F → ℕ → ℕ → F
  rate elapsed c p = if leb p c then f.div (f.of_nat (c - p)) elapsed else f.of_nat 0

  unfoldable pub net_sample : F → String → IfaceCounters → IfaceCounters → NetSample F
  net_sample elapsed name c p = record {
    name = name;
    rx_bps = rate elapsed c.rx p.rx;
    tx_bps = rate elapsed c.tx p.tx;
    rx_bytes = c.rx;
    tx_bytes = c.tx;
  }

  unfoldable pub common_samples : F → GoMap IfaceCounters → GoMap IfaceCounters → List (NetSample F)
  common_samples elapsed prev [] = []
  common_samples elapsed prev ((name, c) ∷ cur) =
      let rest = common_samples elapsed prev cur in
      elim (get name prev) [ none ↦ rest | some p ↦ net_sample elapsed name c p ∷ rest ]

  unfoldable pub by_traffic : NetSample F → NetSample F → Bool
  by_traffic a b =
      let x = f.add a.rx_bps a.tx_bps in
      let y = f.add b.rx_bps b.tx_bps in if f.eq x y then a.name <s b.name else f.lt y x

  unfoldable pub net_samples : GoMap IfaceCounters → GoMap IfaceCounters → F → List (NetSample F)
  net_samples prev cur elapsed =
      if not_positive elapsed then [] else sort_slice by_traffic (common_samples elapsed prev cur)

  -- The sample is that of an interface in both readings: a counter that has not fallen gives its
  -- increase by the time, and one that has gives zero.
  pub record IsRate (prev cur : GoMap IfaceCounters) (elapsed : F) (s : NetSample F) : Type 0 where
    pub before : IfaceCounters
    pub after : IfaceCounters
    pub was_there : get s.name prev ≡ some before
    pub is_there : get s.name cur ≡ some after
    pub bytes : (s.rx_bytes ≡ after.rx) × (s.tx_bytes ≡ after.tx)
    pub rx : s.rx_bps ≡ (
        if ltb after.rx before.rx
        then f.of_nat 0
        else f.div (f.of_nat (after.rx - before.rx)) elapsed)
    pub tx : s.tx_bps ≡ (
        if ltb after.tx before.tx
        then f.of_nat 0
        else f.div (f.of_nat (after.tx - before.tx)) elapsed)

  rate-guard :
      (elapsed : F) (c p : ℕ)
      → rate elapsed c p ≡ (if ltb c p then f.of_nat 0 else f.div (f.of_nat (c - p)) elapsed)
  unfolding rate
  rate-guard elapsed c p = ground arith

  net_sample-IsRate :
      (prev cur : GoMap IfaceCounters) (elapsed : F) (name : String) (c p : IfaceCounters)
      → get name prev ≡ some p
      → get name cur ≡ some c
      → IsRate prev cur elapsed (net_sample elapsed name c p)
  unfolding net_sample
  net_sample-IsRate prev cur elapsed name c p e g = record {
    before = p;
    after = c;
    was_there = e;
    is_there = g;
    bytes = (refl, refl);
    rx = rate-guard elapsed c.rx p.rx;
    tx = rate-guard elapsed c.tx p.tx;
  }

  common_samples-IsRate :
      (elapsed : F) (prev cur m : GoMap IfaceCounters)
      → All (λ e. get e.0 cur ≡ some e.1) m
      → All (IsRate prev cur elapsed) (common_samples elapsed prev m)
  unfolding common_samples
  common_samples-IsRate elapsed prev cur [] h = tt
  common_samples-IsRate elapsed prev cur ((name, c) ∷ m) h = elim (Option-cases (get name prev)) [
    | inl e ↦ rw (common_samples, e) (common_samples-IsRate elapsed prev cur m h.1)
    | inr (p, e) ↦
        rw (common_samples, e)
          (
            net_sample-IsRate prev cur elapsed name c p e h.0,
            common_samples-IsRate elapsed prev cur m h.1,
          )
  ]

  abbrev pub sample_names : List (NetSample F) → List String
  sample_names = map (λ s. s.name)

  common_samples-names :
      (elapsed : F) (prev m : GoMap IfaceCounters)
      → sample_names (common_samples elapsed prev m)
        ≡ keys (keep_if (λ e. is_some (get e.0 prev)) m)
  unfolding common_samples net_sample
  common_samples-names elapsed prev [] = refl
  common_samples-names elapsed prev ((name, c) ∷ m) = elim (Option-cases (get name prev)) [
    | inl e ↦ rw (common_samples, e) (common_samples-names elapsed prev m)
    | inr (p, e) ↦ rw (common_samples, e) (ap (◌∷◌ name) (common_samples-names elapsed prev m))
  ]

  -- After a positive time the samples are those of the interfaces that both readings have, one for
  -- each: their names are these, in some order. A counter
  -- that has not fallen gives its increase by the time, and one that has gives zero.
  pub net_samples_lem :
      (prev cur : GoMap IfaceCounters) (elapsed : F)
      → Distinct (keys cur)
      → not_positive elapsed ≡ false
      → let out = net_samples prev cur elapsed in
        All (IsRate prev cur elapsed) out
        × Permᴰ (sample_names out) (keys (keep_if (λ e. is_some (get e.0 prev)) cur))
  unfolding net_samples
  net_samples_lem prev cur elapsed h e = rw e (
    All-sort by_traffic _ _ (common_samples-IsRate elapsed prev cur cur (Distinct-get cur h)),
    subst (Permᴰ (sample_names (sort_slice by_traffic (common_samples elapsed prev cur))))
        (common_samples-names elapsed prev cur)
        (Permᴰ.map (λ s. s.name) (sort_slice-perm by_traffic (common_samples elapsed prev cur))),
  )
