-- ===== src/Api/Records.antt =====
-- internal/api/types.go: enrollment, inventory, modules and the records of the control plane.
-- Times are Unix seconds and counts are never negative, so they are ℕ; `MaxUses` and the time to live
-- of a token use negative values, and are ℤ. A `[]byte` is a list of bytes.
use fleet_core.Prelude.{ℕ, String, Bool, List, Option}
use fleet_core.Prelude.Int.{ℤ}
use fleet_core.GoMap.{GoMap}

abbrev pub Bytes : Type 0
Bytes = List ℕ

pub record EnrollRequest : Type 0 where
  pub token : String
  pub csr_pem : String
  pub name : String

pub record EnrollResponse : Type 0 where
  pub machine_id : String
  pub tenant_id : String
  pub cert_pem : String
  pub ca_pem : String
  pub module_pub_pem : String

pub record NetInterface : Type 0 where
  pub name : String
  pub mac : String
  pub mtu : ℕ
  pub speed_mbps : ℕ
  pub up : Bool
  pub primary : Bool
  pub virtual : Bool
  pub ipv4 : List String
  pub ipv6 : List String

pub record Service : Type 0 where
  pub name : String
  pub category : String

pub record Updates : Type 0 where
  pub manager : String
  pub total : ℕ
  pub security : ℕ
  pub packages : List String
  pub reboot_req : Bool
  pub at_unix : ℕ

pub record Inventory : Type 0 where
  pub hostname : String
  pub os : String
  pub os_version : String
  pub kernel : String
  pub arch : String
  pub cpu_cores : ℕ
  pub uptime_sec : ℕ
  pub packages : ℤ
  pub processes : ℕ
  pub gpus : List String
  pub services : List Service
  pub kubernetes : String
  pub updates : Option Updates
  pub agent_version : String
  pub interfaces : List NetInterface
  pub primary_ip : String

pub record ModuleSpec : Type 0 where
  pub name : String
  pub version : String
  pub config : GoMap String

-- `none` is the nil slice, which JSON tells apart from an empty one.
pub record DesiredState : Type 0 where
  pub revision : ℕ
  pub modules : Option (List ModuleSpec)

pub record ModuleArtifact : Type 0 where
  pub name : String
  pub version : String
  pub exec : String
  pub payload : Bytes
  pub signature : Bytes

pub record ModuleStatus : Type 0 where
  pub name : String
  pub version : String
  pub state : String
  pub detail : String
  pub at_unix : ℕ

pub record StatusReport : Type 0 where
  pub revision : ℕ
  pub modules : List ModuleStatus

pub record Tenant : Type 0 where
  pub id : String
  pub name : String
  pub created : ℕ

pub record EnrollToken : Type 0 where
  pub token : String
  pub tenant_id : String
  pub labels : GoMap String
  pub created : ℕ
  pub expires_at : ℕ
  pub max_uses : ℤ
  pub uses : ℕ
  pub used : Bool

pub record Machine : Type 0 where
  pub id : String
  pub tenant_id : String
  pub name : String
  pub labels : GoMap String
  pub enrolled : ℕ
  pub last_seen : ℕ
  pub inventory : Inventory
  pub override : List ModuleSpec
  pub desired : DesiredState
  pub status : List ModuleStatus

pub record Group : Type 0 where
  pub id : String
  pub tenant_id : String
  pub name : String
  pub match_all : Bool
  pub selector : GoMap String
  pub modules : List ModuleSpec
  pub created : ℕ
