-- ===== src/Live/Gauges/Facts.antt =====
-- internal/server/metrics.go: the gauges of the facts that heartbeats carry.
use fleet_core.Prelude.{
  ℕ, ◌+◌, String, Bool, none, some, List, [], ◌∷◌, ◌++◌, map, if◌then◌else◌, length, ◌=s=◌,
}
use Prim.Native.String.{◌++◌ as ◌++s◌}
use fleet_core.Api.{Machine, Updates}
use fleet_core.Live.Gauges.{
  Value, count, int, Label, text, number, Line, header, esc_text, rows_of, block,
}

-- `strings.Join(ss, ",")`
unfoldable pub join_commas : List String → String
join_commas [] = ""
join_commas (s ∷ []) = s
join_commas (s ∷ t ∷ ss) = s ++s ("," ++s join_commas (t ∷ ss))

abbrev pub flag : Bool → ℕ
flag b = if b then 1 else 0

abbrev flag_text : Bool → Label
flag_text b = text (if b then "1" else "0")

module _ {F : Type 0} where
  -- What the `gauge` closure makes of a value.
  abbrev pub value_of : (Machine → Value F) → Machine → List (List (String × Label) × Value F)
  value_of val m = ([], val m) ∷ []

  unfoldable gpu_rows : ℕ → List String → List (List (String × Label) × Value F)
  gpu_rows i [] = []
  gpu_rows i (g ∷ gs) =
      (("index", number i) ∷ ("gpu", esc_text g) ∷ [], count 1) ∷ gpu_rows (i + 1) gs

  -- The rows that need the result of an update scan.
  unfoldable pub update_rows :
      (Updates → List (String × Label) × Value F) → Machine → List (List (String × Label) × Value F)
  update_rows row m = elim m.inventory.updates [ none ↦ [] | some u ↦ row u ∷ [] ]

  unfoldable pub info_blocks : List Machine → List (Line F)
  unfolding block gpu_rows
  info_blocks ms =
      block "fleet_machine_gpu_info" "Detected GPUs (value is always 1)."
        (λ m. gpu_rows 0 m.inventory.gpus) ms
      ++ block "fleet_machine_service_info"
          "Detected server software with category (value is always 1)."
          (λ m.
            map
              (λ svc. (
                ("service", esc_text svc.name) ∷ ("category", esc_text svc.category) ∷ [],
                count 1,
              ))
              m.inventory.services)
          ms
      ++ block "fleet_machine_interface_info"
          "Network interfaces with addresses (value is always 1)."
          (λ m.
            map
              (λ ifc. (
                ("interface", esc_text ifc.name)
                    ∷ ("mac", esc_text ifc.mac)
                    ∷ ("ipv4", esc_text (join_commas ifc.ipv4))
                    ∷ ("primary", flag_text ifc.primary)
                    ∷ ("virtual", flag_text ifc.virtual)
                    ∷ ("up", flag_text ifc.up)
                    ∷ [],
                count 1,
              ))
              m.inventory.interfaces)
          ms
      ++ block "fleet_machine_primary_ip_info"
          "The machine's default-route IPv4 address (value is always 1)."
          (λ m.
            if m.inventory.primary_ip =s= ""
            then []
            else (("ip", esc_text m.inventory.primary_ip) ∷ [], count 1) ∷ [])
          ms
      ++ block "fleet_machine_kubernetes_info"
          "Kubernetes role (value is always 1); absent if not a K8s node."
          (λ m.
            if m.inventory.kubernetes =s= ""
            then []
            else (("role", esc_text m.inventory.kubernetes) ∷ [], count 1) ∷ [])
          ms

  unfoldable pub update_blocks : List Machine → List (Line F)
  unfolding block update_rows
  update_blocks ms =
      block "fleet_machine_updates_pending" "Upgradable packages at last scan."
        (update_rows (λ u. (("manager", esc_text u.manager) ∷ [], count u.total))) ms
      ++ block "fleet_machine_updates_security" "Security updates pending at last scan."
          (update_rows (λ u. ([], count u.security))) ms
      ++ block "fleet_machine_reboot_required" "1 if the machine needs a reboot."
          (update_rows (λ u. ([], count (flag u.reboot_req)))) ms
      ++ block "fleet_module_applied" "Module state per machine (1 applied, 0 failed)."
          (λ m.
            map
              (λ st. (
                ("module", esc_text st.name) ∷ ("version", esc_text st.version) ∷ [],
                count (flag (st.state =s= "applied")),
              ))
              m.status)
          ms

  unfoldable pub fact_blocks : List Machine → List (Line F)
  unfolding block
  fact_blocks ms =
      header "fleet_machine_info" "Static machine facts (value is always 1)."
        ∷ rows_of "fleet_machine_info"
            (λ m.
              (
                ("tenant_id", esc_text m.tenant_id)
                    ∷ ("os", esc_text m.inventory.os)
                    ∷ ("os_version", esc_text m.inventory.os_version)
                    ∷ ("arch", esc_text m.inventory.arch)
                    ∷ ("kernel", esc_text m.inventory.kernel)
                    ∷ ("agent_version", esc_text m.inventory.agent_version)
                    ∷ [],
                count 1,
              )
              ∷ [])
            ms
      ++ block "fleet_machine_last_seen_timestamp_seconds" "Unix time of last heartbeat."
          (value_of (λ m. count m.last_seen)) ms
      ++ block "fleet_machine_uptime_seconds" "Host uptime at last heartbeat."
          (value_of (λ m. count m.inventory.uptime_sec)) ms
      ++ block "fleet_machine_packages" "Installed package count (-1 unknown)."
          (value_of (λ m. int m.inventory.packages)) ms
      ++ block "fleet_machine_processes" "Running process count at last heartbeat."
          (value_of (λ m. count m.inventory.processes)) ms
      ++ block "fleet_machine_gpus" "Detected GPU count."
          (value_of (λ m. count (length m.inventory.gpus))) ms
      ++ block "fleet_machine_desired_revision" "Current desired-state revision."
          (value_of (λ m. count m.desired.revision)) ms

  -- The lines of `handleMetrics` before those of the live registry.
  unfoldable pub machine_facts : List Machine → List (Line F)
  unfolding fact_blocks info_blocks update_blocks
  machine_facts ms = fact_blocks ms ++ info_blocks ms ++ update_blocks ms
