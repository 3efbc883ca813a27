-- ===== src/Turso/Tables.antt =====
-- internal/store/turso.go: the tables of the schema, after all its migrations. A cell is a value of SQL.
use fleet_core.Prelude.{ℕ, zero, suc, String, Bool, List, [], ◌∷◌, if◌then◌else◌}
use fleet_core.Prelude.Exec.{Result}
use fleet_core.Prelude.Int.{pos}
use fleet_core.Turso.{HranaValue, SqlValue, integer}

pub record TenantRow : Type 0 where
  pub id : SqlValue
  pub name : SqlValue
  pub created : SqlValue

pub record TokenRow : Type 0 where
  pub token : SqlValue
  pub tenant_id : SqlValue
  pub labels : SqlValue
  pub created : SqlValue
  pub expires_at : SqlValue
  pub max_uses : SqlValue
  pub uses : SqlValue
  pub used : SqlValue

pub record MachineRow : Type 0 where
  pub id : SqlValue
  pub tenant_id : SqlValue
  pub name : SqlValue
  pub labels : SqlValue
  pub override : SqlValue
  pub enrolled : SqlValue
  pub last_seen : SqlValue
  pub inventory : SqlValue
  pub desired : SqlValue
  pub status : SqlValue

pub record GroupRow : Type 0 where
  pub id : SqlValue
  pub tenant_id : SqlValue
  pub name : SqlValue
  pub match_all : SqlValue
  pub selector : SqlValue
  pub modules : SqlValue
  pub created : SqlValue

pub record MemberRow : Type 0 where
  pub group_id : SqlValue
  pub machine_id : SqlValue

pub record ModuleRow : Type 0 where
  pub name : SqlValue
  pub version : SqlValue
  pub exec : SqlValue
  pub payload : SqlValue
  pub signature : SqlValue

pub record Tables : Type 0 where
  pub tenants : List TenantRow
  pub tokens : List TokenRow
  pub machines : List MachineRow
  pub groups : List GroupRow
  pub members : List MemberRow
  pub modules : List ModuleRow

-- The i-th column of a row, which has as many as the statement names.
abbrev pub column : ℕ → List HranaValue → HranaValue
column i [] = record { type = "null"; value = ""; base64 = [] }
column zero (v ∷ vs) = v
column (suc i) (v ∷ vs) = column i vs

-- A text of JSON, with what `json.Unmarshal` makes of it. Marshal fails for no value of these types.
pub record Codec (A : Type 0) : Type 0 where
  pub marshal : A → String
  pub unmarshal : String → Result String A

abbrev pub of_bool : Bool → SqlValue
of_bool b = if b then integer (pos 1) else integer (pos 0)
