-- ===== src/Api/Samples.antt =====
-- internal/api/types.go: the live metrics. `F` stands for Go's `float64`.
use fleet_core.Prelude.{ℕ, String, List}

module _ (F : Type 0) where
  pub record ProcSample : Type 0 where
    pub pid : ℕ
    pub comm : String
    pub cpu_percent : F
    pub mem_bytes : ℕ
    pub service : String

  pub record NetSample : Type 0 where
    pub name : String
    pub rx_bps : F
    pub tx_bps : F
    pub rx_bytes : ℕ
    pub tx_bytes : ℕ

  pub record ContainerSample : Type 0 where
    pub name : String
    pub cpu_percent : F
    pub mem_bytes : ℕ

  pub record PodSample : Type 0 where
    pub namespace : String
    pub name : String
    pub uid : String
    pub cpu_percent : F
    pub mem_bytes : ℕ
    pub source : String
    pub containers : List ContainerSample

  pub record GpuSample : Type 0 where
    pub index : ℕ
    pub name : String
    pub util_percent : F
    pub mem_used : ℕ
    pub mem_total : ℕ
    pub temp_c : F
    pub power_w : F

  pub record MetricsSample : Type 0 where
    pub at_unix : ℕ
    pub cpu_percent : F
    pub load1 : F
    pub mem_total : ℕ
    pub mem_used : ℕ
    pub disk_total : ℕ
    pub disk_used : ℕ
    pub net_rx_bps : F
    pub net_tx_bps : F
    pub top_processes : List ProcSample
    pub gpus : List GpuSample
    pub proc_count : ℕ
    pub proc_total_rss : ℕ
    pub interfaces : List NetSample
    pub pods : List PodSample
