-- ===== src/Tests/Remote.antt =====
-- Concrete runs of the Turso store, against a server that reads and writes values as the protocol says.
use fleet_core.Prelude.{
  ap₂, ℕ, suc, ◌-◌, ◌≤◌, ◌<◌, String, ◌≡◌, refl, sym, ap, ◌∙◌, true, false, none, some, List, [],
  ◌∷◌, ◌++◌, arith, if◌then◌else◌, Bool-cases, inl, inr, All, ◌=s=◌, eq_iff,
}
use fleet_core.Prelude.Exec.{ok}
use fleet_core.Prelude.Int.{ℤ, pos, negsuc}
use fleet_core.Prelude.Bytes.{is_empty, Text}
use mathlib.Core.List.{append-nil}
use Prim.Native.Char.{code}
use Prim.Native.String.append
use fleet_core.Commands.{max_int64, before_dash, parse_int, print_number}
use fleet_core.Commands.Names.{before_dash-print_number, parse_int-print}
use fleet_core.Turso.{
  SentValue, sent, HranaValue, GoValue, str, int, bool, bytes, nil, SqlValue, text, integer, blob,
  null, arg, format_int, Hrana, IsHrana, Fits, cell_of,
}
use fleet_core.GoMap.{get, put}
use fleet_core.Api.{EnrollToken, ModuleArtifact}
use fleet_core.Store.{FileStore, no_data, commit}
use fleet_core.Store.Tokens.{save_token}
use fleet_core.Store.Machines.{save_machine}
use fleet_core.Store.Modules.{save_module, module_key}
use fleet_core.Store.Writes.{token, machine, drop_machine, artifact, call}
use fleet_core.Turso.{Remote, Fate, no_answer, delivered, disturbed, exec}
use fleet_core.Turso.Table.{find}
use fleet_core.Turso.Tables.{Tables, Codec}
use fleet_core.Turso.Accounts.{save_token as remote_save_token}
use fleet_core.Turso.Machines.{Json, get_machine, save_machine as remote_save_machine}
use fleet_core.Turso.Modules.{get_module, save_module as remote_save_module}
use fleet_core.Turso.Agrees.{Agrees, no_at}
use fleet_core.Turso.Writes.{remote_call}
use fleet_core.Turso.Refines.{remote_call_refines}
use fleet_core.Turso.Retry.{healthy, attempts}
use fleet_core.Turso.Retry.Writes.{attempts_then_delivered}
use fleet_core.Turso.Reads.{IsReadable, get_machine-found, get_module-found}
use fleet_core.Tests.{box}
use fleet_core.Turso.Base64.{raw_encode, std_encode, raw_decode, trim_pad, pad}
use fleet_core.Turso.Blobs.{raw_decode-trim_pad}

abbrev after_sign : String → String
after_sign String.[] = ""
after_sign (String.◌∷◌ c s) = s

abbrev first_code : String → ℕ
first_code String.[] = 0
first_code (String.◌∷◌ c s) = code c

-- The integer of a text: a number with a "-" in front is negative.
abbrev read_int : String → ℤ
read_int s =
    if before_dash s =s= s then pos (parse_int s) else negsuc (parse_int (after_sign s) - 1)

abbrev read_base64 : Text → Text
read_base64 s = elim (raw_decode (trim_pad s)) [ none ↦ [] | some b ↦ b ]

-- A field that is left out reads as an empty one.
abbrev received : SentValue → HranaValue
received v = record {
  type = v.type;
  value = elim v.value [ none ↦ "" | some s ↦ s ];
  base64 = elim v.base64 [ none ↦ [] | some b ↦ b ];
}

given_text :
    (s : String)
    → (elim (if s =s= "" then none else some s) as (λ x. String) [ none ↦ "" | some t ↦ t ]) ≡ s
given_text s = elim (Bool-cases (s =s= "")) [
  | inl e ↦ rw e (sym ((eq_iff s "").0 e))
  | inr e ↦ rw e refl
]

given_base64 :
    (b : Text)
    → (elim (if is_empty b then none else some b) as (λ x. Text) [ none ↦ [] | some t ↦ t ]) ≡ b
given_base64 [] = refl
given_base64 (c ∷ b) = refl

received-sent : (v : HranaValue) → received (sent v) ≡ v
unfolding sent
received-sent v =
    ap₂ (λ s b. record { type = v.type; value = s; base64 = b }) (given_text v.value)
      (given_base64 v.base64)

abbrev read_value : HranaValue → SqlValue
read_value v =
    if v.type =s= "text"
    then text v.value
    else if v.type =s= "integer"
    then integer (read_int v.value)
    else if v.type =s= "blob"
    then blob (read_base64 v.base64)
    else null

abbrev write_value : SqlValue → HranaValue
write_value (text s) = record { type = "text"; value = s; base64 = [] }
write_value (integer n) = record { type = "integer"; value = format_int n; base64 = [] }
write_value (blob b) = record { type = "blob"; value = ""; base64 = raw_encode b }
write_value null = record { type = "null"; value = ""; base64 = [] }

abbrev pub server : Hrana
server = record { read = λ v. read_value (received v); write = write_value }

read_int-pos : (n : ℕ) → n ≤ max_int64 → read_int (format_int (pos n)) ≡ pos n
unfolding format_int before_dash
read_int-pos n h =
    rw
      ((eq_iff (before_dash (print_number n "")) (print_number n "")).1
        (before_dash-print_number n ""))
      (ap pos (parse_int-print n h))

read_int-signed : (s : String) → read_int (String.◌∷◌ "-" s) ≡ negsuc (parse_int s - 1)
unfolding before_dash
read_int-signed s = elim (Bool-cases ("" =s= String.◌∷◌ "-" s)) [
  | inl e ↦
      let z : ◌≡◌ {A = ℕ} 0 45 = ap first_code ((eq_iff "" (String.◌∷◌ "-" s)).0 e) in
      absurd (omega (arith, z))
  | inr d ↦ rw d refl
]

read_int-negsuc : (n : ℕ) → suc n ≤ max_int64 → read_int (format_int (negsuc n)) ≡ negsuc n
unfolding format_int
read_int-negsuc n h =
    ap read_int (
      append.cons "-" "" (print_number (suc n) "")
      ∙ ap (String.◌∷◌ "-") (append.nil (print_number (suc n) "")))
    ∙ read_int-signed (print_number (suc n) "")
    ∙ ap (λ k. negsuc (k - 1)) (parse_int-print (suc n) h)
    ∙ ap negsuc (omega arith)

read_base64-pad :
    (b : Text) (k : ℕ) → All (λ c. c < 256) b → read_base64 (raw_encode b ++ pad k) ≡ b
read_base64-pad b k f =
    ap (λ o. elim o as (λ x. Text) [ none ↦ [] | some s ↦ s ]) (raw_decode-trim_pad b k f)

ones_read :
    (read_value (arg (bool true)) ≡ integer (pos 1))
    × (read_value (arg (bool false)) ≡ integer (pos 0))
unfolding arg before_dash parse_int
ones_read = (refl, refl)

read_arg : (v : GoValue) → Fits v → read_value (arg v) ≡ cell_of v
unfolding arg std_encode
read_arg (str s) f = refl
read_arg (int (pos n)) f = ap integer (read_int-pos n f)
read_arg (int (negsuc n)) f = ap integer (read_int-negsuc n f)
read_arg (bool true) f = ones_read.0
read_arg (bool false) f = ones_read.1
read_arg (bytes b) f = ap blob (read_base64-pad b _ f.0)
read_arg nil f = refl

pub server-IsHrana : IsHrana server
unfolding format_int
server-IsHrana = record {
  read_arg = λ v f. ap read_value (received-sent (arg v)) ∙ read_arg v f;
  write_text = λ s. refl;
  write_int = λ n h. refl;
  write_blob = λ b. (0, sym (append-nil (raw_encode b)));
}

-- JSON of which only the values below are read back.
abbrev constant : {A : Type 0} → A → Codec A
constant a = record { marshal = λ _. "json"; unmarshal = λ _. ok a }

abbrev json : Json
json = record {
  labels = constant box.labels;
  specs = constant box.override;
  inventory = constant box.inventory;
  desired = constant box.desired;
  status = constant box.status;
}

abbrev no_tables : Tables
no_tables = record {
  tenants = [];
  tokens = [];
  machines = [];
  groups = [];
  members = [];
  modules = [];
}

abbrev remote : Remote Tables
remote = record { db = no_tables; fates = λ n. delivered; calls = 0 }

abbrev local : FileStore
local = record { contents = no_data; disk = none; io = λ n. true; writes = 0 }

empty-Agrees : Agrees json no_data no_tables
unfolding find get
empty-Agrees = record {
  tenants = λ id. refl;
  tokens = λ id. refl;
  tokens_once = λ id. omega arith;
  machines = λ id. refl;
  groups = λ id. refl;
  members = λ g m. refl;
  modules = λ n v k. refl;
}

abbrev invite : EnrollToken
invite = record {
  token = "k1";
  tenant_id = "t1";
  labels = [];
  created = 100;
  expires_at = 500;
  max_uses = pos 2;
  uses = 0;
  used = false;
}

-- Both stores after the token has been saved.
abbrev local_invited : FileStore
local_invited = (call (token invite) local).1

abbrev remote_invited : Remote Tables
remote_invited = (remote_call json server (token invite) remote).1

abbrev local_boxed : FileStore
local_boxed = (call (machine box) local).1

abbrev remote_boxed : Remote Tables
remote_boxed = (remote_call json server (machine box) remote).1

boxed-Agrees : Agrees json local_boxed.contents remote_boxed.db
unfolding get
boxed-Agrees =
    (remote_call_refines json server server-IsHrana local remote empty-Agrees refl (λ n. refl)
      (machine box)
      (
        (
          refl,
          (refl, (refl, (refl, (refl, (omega arith, (omega arith, (refl, (refl, (refl, tt))))))))),
        ),
        λ old e. cc,
      )).1

box-IsReadable : IsReadable json box
box-IsReadable = record {
  labels = refl;
  override = refl;
  inventory = refl;
  desired = refl;
  status = refl;
  enrolled = omega arith;
  last_seen = omega arith;
}

get_machine-found_example : (get_machine json server "m1" remote_boxed).0 ≡ ok box
unfolding call save_machine commit get put exec remote_call remote_save_machine
get_machine-found_example =
    get_machine-found server server-IsHrana json remote_boxed boxed-Agrees refl "m1" box refl refl
      box-IsReadable

-- A payload whose length is no multiple of three.
abbrev tool : ModuleArtifact
tool = record {
  name = "tool";
  version = "2@beta";
  exec = "payload";
  payload = 0 ∷ 255 ∷ 128 ∷ 61 ∷ [];
  signature = 7 ∷ [];
}

abbrev local_tool : FileStore
local_tool = (call (artifact tool) local).1

abbrev remote_tool : Remote Tables
remote_tool = (remote_call json server (artifact tool) remote).1

tool-Agrees : Agrees json local_tool.contents remote_tool.db
unfolding get no_at
tool-Agrees =
    (remote_call_refines json server server-IsHrana local remote empty-Agrees refl (λ n. refl)
      (artifact tool)
      ((refl, (refl, (refl, ((omega arith, refl), ((omega arith, refl), tt))))), refl)).1

get_module-found_example : (get_module server "tool" "2@beta" remote_tool).0 ≡ ok tool
unfolding call save_module commit module_key get put no_at exec remote_call remote_save_module
get_module-found_example =
    get_module-found server server-IsHrana json remote_tool tool-Agrees refl "tool" "2@beta" tool
      refl refl refl refl (omega arith) (omega arith)

-- The members are deleted but the answer is lost; then nothing arrives at all.
abbrev lost : List (ℕ → Fate)
lost = (λ n. disturbed true (no_answer "EOF")) ∷ (λ n. disturbed false (no_answer "EOF")) ∷ []

attempts_then_delivered_example :
    (remote_call json server
      (drop_machine "m1")
      (healthy (attempts (remote_call json server (drop_machine "m1")) lost remote_boxed.db))).1.db
    ≡ (remote_call json server (drop_machine "m1") (healthy remote_boxed.db)).1.db
attempts_then_delivered_example =
    attempts_then_delivered json server server-IsHrana (drop_machine "m1") lost remote_boxed.db refl
