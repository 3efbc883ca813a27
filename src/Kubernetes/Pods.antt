-- ===== src/Kubernetes/Pods.antt =====
-- internal/agent/kubernetes.go: the samples of the pods, and what the collector remembers between ticks. Times are
-- nanoseconds of the clock, and `text` makes a `string` of bytes.
use fleet_core.Prelude.{
  ℕ, ◌-◌, ◌*◌, ◌^◌, String, Bool, true, Option, none, some, List, [], ◌∷◌, ◌++◌, map, ltb, leb,
  ◌==◌, if◌then◌else◌, ◌<s◌,
}
use fleet_core.Prelude.Float.{Float}
use fleet_core.Prelude.Bytes.{Text, split_by}
use fleet_core.GoMap.{GoMap, get, put}
use fleet_core.Sort.{sort_slice}
use fleet_core.Api.{PodSample}
use fleet_core.Sampling.Rates.{not_positive}
use fleet_core.Kubernetes.{Entries, find_pod_cgroups, pod_usage}

pub record PodName : Type 0 where
  pub namespace : Text
  pub name : Text

-- `strings.Join(parts, "_")`
unfoldable pub join_underscores : List Text → Text
join_underscores [] = []
join_underscores (p ∷ []) = p
join_underscores (p ∷ q ∷ ps) = p ++ b'_' ∷ join_underscores (q ∷ ps)

-- The last part, and those before it.
unfoldable pub split_last : Text → List Text → List Text × Text
split_last p [] = ([], p)
split_last p (q ∷ ps) = let (front, last) = split_last q ps in (p ∷ front, last)

-- `parts[len(parts)-1]` and `strings.Join(parts[1:len(parts)-1], "_")`, if there are at least three parts.
unfoldable pub pod_log_parts : Text → List Text × Text → Option (Text × PodName)
pod_log_parts ns ([], uid) = none
pod_log_parts ns (q ∷ qs, uid) =
    some (uid, record { namespace = ns; name = join_underscores (q ∷ qs) })

-- The uid and the name in the name of a log directory: `parts[0]`, the last part, and those between.
unfoldable pub pod_log_name : Text → Option (Text × PodName)
pod_log_name dir_name = elim (split_by (λ c. c == b'_') dir_name) [
  | [] ↦ none
  | ns ∷ rest ↦ elim rest [ [] ↦ none | p ∷ ps ↦ pod_log_parts ns (split_last p ps) ]
]

-- What `collectPods` keeps: the CPU readings of the pods, their names and when those were read, and
-- whether the kubelet is given up.
pub record KubeState : Type 0 where
  pub prev_pods : GoMap ℕ
  pub names : Option (GoMap PodName)
  pub names_at : ℕ
  pub no_kubelet : Bool

-- The pods of the kubelet's summary.
pub record UsageStats : Type 0 where
  pub nano_cores : ℕ
  pub working_set : ℕ

pub record PodStats : Type 0 where
  pub name : String
  pub namespace : String
  pub uid : String
  pub usage : UsageStats
  pub containers : List (String × UsageStats)

-- The node at a tick: what the kubelet's addresses answer in their order, the cgroup tree, whether it
-- is version 2, and the names of the log directories.
pub record Node : Type 0 where
  pub now : ℕ
  pub summaries : List (Option (List PodStats))
  pub cgroups : Option Entries
  pub is_v2 : Bool
  pub log_dirs : List Text

module _ (text : Text → String) where
  unfoldable pub pod_log_names : List Text → GoMap PodName → GoMap PodName
  pod_log_names [] out = out
  pod_log_names (d ∷ ds) out =
      pod_log_names ds (elim (pod_log_name d) [ none ↦ out | some (uid, n) ↦ put (text uid) n out ])

  -- `if ks.names == nil || time.Since(ks.namesAt) > 30*time.Second { … }`
  unfoldable pub refresh_names : Node → KubeState → KubeState
  refresh_names node ks =
      let read = record ks { names = some (pod_log_names node.log_dirs []); names_at = node.now } in
      elim ks.names [
        | none ↦ read
        | some ns ↦ if ltb (30 * 10 ^ 9) (node.now - ks.names_at) then read else ks
      ]

  module _ {F : Type 0} (f : Float F) where
    unfoldable pub by_usage : PodSample F → PodSample F → Bool
    by_usage a b =
        if f.eq a.cpu_percent b.cpu_percent
        then if a.mem_bytes == b.mem_bytes then a.name <s b.name else ltb b.mem_bytes a.mem_bytes
        else f.lt b.cpu_percent a.cpu_percent

    -- Nanocores, as percent of one core.
    unfoldable pub core_percent : ℕ → F
    core_percent n = f.mul (f.div (f.of_nat n) (f.of_nat (10 ^ 9))) (f.of_nat 100)

    unfoldable pub kubelet_pod : PodStats → PodSample F
    kubelet_pod p = record {
      namespace = p.namespace;
      name = p.name;
      uid = p.uid;
      cpu_percent = core_percent p.usage.nano_cores;
      mem_bytes = p.usage.working_set;
      source = "kubelet";
      containers =
          map
            (λ c. record {
              name = c.0;
              cpu_percent = core_percent c.1.nano_cores;
              mem_bytes = c.1.working_set;
            })
            p.containers;
    }

    -- The first address that answers decides; if none does, the kubelet is given up.
    unfoldable pub ask_kubelet :
        List (Option (List PodStats)) → KubeState → List (PodSample F) × KubeState
    ask_kubelet [] ks = ([], record ks { no_kubelet = true })
    ask_kubelet (none ∷ rs) ks = ask_kubelet rs ks
    ask_kubelet (some ps ∷ rs) ks = (sort_slice by_usage (map kubelet_pod ps), ks)

    unfoldable pub pods_from_kubelet : Node → KubeState → List (PodSample F) × KubeState
    pods_from_kubelet node ks = if ks.no_kubelet then ([], ks) else ask_kubelet node.summaries ks

    -- `float64(usec-p.usec) / 1e6 / elapsed * 100`
    unfoldable pub usage_percent : F → ℕ → Option ℕ → F
    usage_percent elapsed usec none = f.of_nat 0
    usage_percent elapsed usec (some prev) =
        if leb prev usec
        then f.mul (f.div (f.div (f.of_nat (usec - prev)) (f.of_nat (10 ^ 6))) elapsed)
            (f.of_nat 100)
        else f.of_nat 0

    unfoldable pub cgroup_pod : F → Node → KubeState → String × List Entries → PodSample F
    cgroup_pod elapsed node ks (uid, dirs) =
        let (usec, mem) = pod_usage node.is_v2 dirs in
        let named : Option PodName = elim ks.names [ none ↦ none | some ns ↦ get uid ns ] in
        record {
          namespace = elim named [ none ↦ "" | some n ↦ text n.namespace ];
          name = elim named [ none ↦ "" | some n ↦ text n.name ];
          uid = uid;
          cpu_percent = usage_percent elapsed usec (get uid ks.prev_pods);
          mem_bytes = mem;
          source = "cgroup";
          containers = [];
        }

    unfoldable pub pods_from_cgroups : F → Node → KubeState → List (PodSample F) × KubeState
    pods_from_cgroups elapsed node ks = elim (find_pod_cgroups text node.cgroups) [
      | [] ↦ ([], ks)
      | d ∷ ds ↦
          let ks' = refresh_names node ks in
          (
            sort_slice by_usage (map (cgroup_pod elapsed node ks') (d ∷ ds)),
            record ks' { prev_pods = map (λ e. (e.0, (pod_usage node.is_v2 e.1).0)) (d ∷ ds) },
          )
    ]

    unfoldable pub collect_pods : F → Node → KubeState → List (PodSample F) × KubeState
    collect_pods elapsed node ks =
        if not_positive f elapsed
        then ([], ks)
        else let (pods, ks') = pods_from_kubelet node ks in
          elim pods [ [] ↦ pods_from_cgroups elapsed node ks' | p ∷ ps ↦ (p ∷ ps, ks') ]
