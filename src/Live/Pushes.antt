-- ===== src/Live/Pushes.antt =====
-- internal/server/live.go: what a push leaves in the registry.
use fleet_core.Prelude.{◌≡◌, true, false, Option, none, some, []}
use fleet_core.Prelude.Float.{Float}
use fleet_core.Api.{MetricsSample}
use fleet_core.Live.{is_gpu_only}

module _ {F : Type 0} where
  -- A sample without its GPUs and its time.
  abbrev pub core : MetricsSample F → MetricsSample F
  core s = record s { gpus = []; at_unix = 0 }

  -- What a push `p` leaves, where the registry held `old` for the machine.
  pub record IsMerged (f : Float F) (old : Option (MetricsSample F)) (p s : MetricsSample F)
      : Type 0 where
    pub gpus : s.gpus ≡ p.gpus
    pub at_unix : s.at_unix ≡ p.at_unix
    pub full : is_gpu_only f p ≡ false → s ≡ p
    pub first : old ≡ none → s ≡ p
    pub kept :
        (prev : MetricsSample F) → old ≡ some prev → is_gpu_only f p ≡ true → core s ≡ core prev
