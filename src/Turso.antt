-- ===== src/Turso.antt =====
-- internal/store/turso.go: the store over the Hrana protocol. What the source leaves to the server is a
-- parameter: how it reads an argument and writes a cell (Hrana), and what becomes of each request. A
-- statement is a function from its arguments and the tables to its outcome and the tables after it.
pub mod Base64
pub mod Blobs
pub mod Table
pub mod Delivered
pub mod Tables
pub mod Accounts
pub mod Machines
pub mod Modules
pub mod Groups
pub mod Same
pub mod Agrees
pub mod Writes
pub mod Refines
pub mod Reads
pub mod Retry
pub mod Schema
use fleet_core.Prelude.{
  ℕ, zero, suc, ◌+◌, ◌≤◌, ◌<◌, String, ◌≡◌, Bool, true, false, Option, none, some, List, [], ◌∷◌,
  ◌++◌, map, ltb, ◌==◌, if◌then◌else◌, All, ◌=s=◌,
}
use fleet_core.Prelude.Exec.{Result, ok, err, Exec}
use fleet_core.Prelude.Int.{ℤ, pos, negsuc}
use fleet_core.Prelude.Bytes.{Text, is_empty, ◌=t=◌}
use fleet_core.Commands.{max_int64, parse_int, print_number}
use fleet_core.Store.{StoreError}
use fleet_core.Turso.Base64.{std_encode, raw_encode, pad, raw_decode, trim_pad}
use Prim.Native.String.{◌++◌ as ◌++s◌}

pub record HranaValue : Type 0 where
  pub type : String
  pub value : String
  pub base64 : Text

pub record HranaResult : Type 0 where
  pub rows : List (List HranaValue)
  pub affected_row_count : ℕ

-- One entry of the response's `results`.
pub record PipelineResult : Type 0 where
  pub type : String
  pub response : Option (Option HranaResult)
  pub error : Option String

-- The types that `arg` has a case for; `int` and `int64` are one.
pub data GoValue : Type 0 where
  str : String → GoValue
  int : ℤ → GoValue
  bool : Bool → GoValue
  bytes : Text → GoValue
  nil : GoValue

-- `strconv.FormatInt(x, 10)`
unfoldable pub format_int : ℤ → String
format_int (pos n) = print_number n ""
format_int (negsuc n) = "-" ++s print_number (suc n) ""

abbrev integer_value : String → HranaValue
integer_value s = record { type = "integer"; value = s; base64 = [] }

unfoldable pub arg : GoValue → HranaValue
unfolding format_int std_encode
arg (str s) = record { type = "text"; value = s; base64 = [] }
arg (int n) = integer_value (format_int n)
arg (bool true) = integer_value "1"
arg (bool false) = integer_value "0"
arg (bytes b) = record { type = "blob"; value = ""; base64 = std_encode b }
arg nil = record { type = "null"; value = ""; base64 = [] }

-- What the JSON of an argument has: `omitempty` leaves an empty field out.
pub record SentValue : Type 0 where
  pub type : String
  pub value : Option String
  pub base64 : Option Text

unfoldable pub sent : HranaValue → SentValue
sent v = record {
  type = v.type;
  value = if v.value =s= "" then none else some v.value;
  base64 = if is_empty v.base64 then none else some v.base64;
}

-- `ParseInt` of a column that is not negative.
unfoldable pub i64 : HranaValue → ℕ
i64 v = parse_int v.value

unfoldable pub blob_bytes : HranaValue → Text
unfolding raw_decode trim_pad
blob_bytes v = elim (raw_decode (trim_pad v.base64)) [ none ↦ [] | some b ↦ b ]

-- A cell of a table.
pub data SqlValue : Type 0 where
  text : String → SqlValue
  integer : ℤ → SqlValue
  blob : Text → SqlValue
  null : SqlValue

-- What an argument stands for.
abbrev pub cell_of : GoValue → SqlValue
cell_of (str s) = text s
cell_of (int n) = integer n
cell_of (bool true) = integer (pos 1)
cell_of (bool false) = integer (pos 0)
cell_of (bytes b) = blob b
cell_of nil = null

-- How a server reads an argument and writes a cell.
pub record Hrana : Type 0 where
  pub read : SentValue → SqlValue
  pub write : SqlValue → HranaValue

-- The arguments that the protocol has a place for: integers of 64 bits, but for the least, and texts and
-- blobs that are not empty, since `sent` leaves out the value of an empty one.
abbrev pub Fits : GoValue → Type 0
Fits (int (pos n)) = n ≤ max_int64
Fits (int (negsuc n)) = suc n ≤ max_int64
Fits (bytes b) = All (λ c. c < 256) b × (is_empty b ≡ false)
Fits (str s) = (s =s= "") ≡ false
Fits _ = Unit

-- The protocol, as documented: arguments keep their values, text and integers come back as text, and a
-- blob as base64 with or without padding.
pub record IsHrana (h : Hrana) : Type 0 where
  pub read_arg : (v : GoValue) → Fits v → h.read (sent (arg v)) ≡ cell_of v
  pub write_text : (s : String) → (h.write (text s)).value ≡ s
  pub write_int : (n : ℕ) → n ≤ max_int64 → (h.write (integer (pos n))).value ≡ format_int (pos n)
  pub write_blob : (b : Text) → (k : ℕ) × ((h.write (blob b)).base64 ≡ raw_encode b ++ pad k)

-- `=` and `<` of SQL, where NULL compares with nothing.
infix 50 ◌=v=◌
unfoldable pub ◌=v=◌ : SqlValue → SqlValue → Bool
(text s) =v= (text t) = s =s= t
(integer (pos m)) =v= (integer (pos n)) = m == n
(integer (negsuc m)) =v= (integer (negsuc n)) = m == n
(blob b) =v= (blob c) = b =t= c
_ =v= _ = false

unfoldable pub less : SqlValue → SqlValue → Bool
less (integer (pos m)) (integer (pos n)) = ltb m n
less (integer (negsuc m)) (integer (pos n)) = true
less (integer (negsuc m)) (integer (negsuc n)) = ltb n m
less _ _ = false

-- What a statement answers: rows and the number of rows that it changed, or a message.
pub data Outcome : Type 0 where
  done : List (List SqlValue) → ℕ → Outcome
  refused : String → Outcome

-- What comes back for a request: nothing, a status that is not 200, a body that does not decode, or the
-- `results` of the response.
pub data Reply : Type 0 where
  no_answer bad_status undecodable : String → Reply
  results : List PipelineResult → Reply

-- `errors.Is` tells the errors of the store apart; the others have only a text.
pub data TursoError : Type 0 where
  store : StoreError → TursoError
  message : String → TursoError

unfoldable pub read_reply : Reply → Result TursoError HranaResult
read_reply (no_answer e) = err (message e)
read_reply (bad_status s) = err (message ("turso: " ++s s))
read_reply (undecodable e) = err (message e)
read_reply (results []) = err (message "turso: empty pipeline response")
read_reply (results (r ∷ rs)) =
    if r.type =s= "ok"
    then elim r.response [
      | some (some res) ↦ ok res
      | _ ↦ err (message "turso: malformed response")
    ]
    else elim r.error [
      | some m ↦ err (message ("turso: " ++s m))
      | none ↦ err (message "turso: statement failed")
    ]

-- The statement runs and its answer arrives; or the call ends with another reply, whether the statement
-- ran or not.
pub data Fate : Type 0 where
  delivered : Fate
  disturbed : Bool → Reply → Fate

-- The tables `D`, and what becomes of the n-th request.
pub record Remote (D : Type 0) : Type 0 where
  pub db : D
  pub fates : ℕ → Fate
  pub calls : ℕ

abbrev pub Statement : Type 0 → Type 0
Statement D = List SqlValue → D → Outcome × D

-- The i-th parameter of a statement.
abbrev pub param : ℕ → List SqlValue → SqlValue
param i [] = null
param zero (v ∷ vs) = v
param (suc i) (v ∷ vs) = param i vs

module _ (h : Hrana) where
  -- The reply of a server that ran the statement.
  unfoldable pub server_reply : Outcome → Reply
  server_reply (done rows n) = results (
      record {
        type = "ok";
        response = some (some (record { rows = map (map h.write) rows; affected_row_count = n }));
        error = none;
      }
      ∷ [])
  server_reply (refused m) =
      results (record { type = "error"; response = none; error = some m } ∷ [])

  unfoldable pub exec :
      {D : Type 0} → Statement D → List GoValue → Exec (Remote D) TursoError HranaResult
  unfolding server_reply read_reply arg sent
  exec sql args ts =
      let (out, db') = sql (map (λ a. h.read (sent (arg a))) args) ts.db in
      elim (ts.fates ts.calls) [
        | delivered ↦ (read_reply (server_reply out), record ts { db = db'; calls = ts.calls + 1 })
        | disturbed ran reply ↦
            (read_reply reply, record ts { db = if ran then db' else ts.db; calls = ts.calls + 1 })
      ]

-- What a delivered call returns.
abbrev pub answer : Hrana → Outcome → Result TursoError HranaResult
answer h (done rows n) = ok (record { rows = map (map h.write) rows; affected_row_count = n })
answer h (refused m) = err (message ("turso: " ++s m))
