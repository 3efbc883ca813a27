-- ===== src/Live/Gauges.antt =====
-- internal/server/metrics.go and internal/server/live.go: the Prometheus exposition, as its lines.
-- A sample line keeps its labels as the arguments of `%q` and `%d`, and its value as that of `%g` or `%d`.
pub mod Facts
pub mod Samples
pub mod Shown
pub mod Fresh
pub mod Escape
use fleet_core.Prelude.{ℕ, ◌+◌, String, List, [], ◌∷◌, ◌++◌, map, ◌==◌, if◌then◌else◌}
use Prim.Native.Char.{code}
use fleet_core.Prelude.Int.{ℤ}
use fleet_core.Api.{Machine}

pub data Value (F : Type 0) : Type 0 where
  float : F → Value F
  count : ℕ → Value F
  int : ℤ → Value F

pub data Label : Type 0 where
  text : String → Label
  number : ℕ → Label

pub data Line (F : Type 0) : Type 0 where
  -- `# HELP name help` and `# TYPE name gauge`
  header : String → String → Line F
  gauge : String → List (String × Label) → Value F → Line F

-- `s + t`, by the characters of `s`
unfoldable pub prefixed : String → String → String
prefixed String.[] t = t
prefixed (String.◌∷◌ c s) t = String.◌∷◌ c (prefixed s t)

-- `strings.ReplaceAll(s, old, new)`, for an `old` of one character
unfoldable pub replace_all : ℕ → String → String → String
unfolding prefixed
replace_all old new String.[] = ""
replace_all old new (String.◌∷◌ c s) =
    let rest = replace_all old new s in
    if code c == old then prefixed new rest else String.◌∷◌ c rest

unfoldable pub esc : String → String
unfolding replace_all
esc s = replace_all b'"' "\\\"" (replace_all b'\n' "\\n" (replace_all b'\\' "\\\\" s))

abbrev pub esc_text : String → Label
esc_text s = text (esc s)

-- `machine_id=%q,name=%q`, which every line starts with
unfoldable pub machine_labels : Machine → List (String × Label) → List (String × Label)
machine_labels m rest = ("machine_id", esc_text m.id) ∷ ("name", esc_text m.name) ∷ rest

module _ {F : Type 0} where
  -- A gauge's header, and for each machine the lines that its rows make.
  unfoldable pub rows_of :
      String → (Machine → List (List (String × Label) × Value F)) → List Machine → List (Line F)
  rows_of name rows [] = []
  rows_of name rows (m ∷ ms) =
      map (λ r. gauge name (machine_labels m r.0) r.1) (rows m) ++ rows_of name rows ms

  unfoldable pub block :
      String
      → String
      → (Machine → List (List (String × Label) × Value F))
      → List Machine
      → List (Line F)
  unfolding rows_of machine_labels
  block name help rows ms = header name help ∷ rows_of name rows ms
