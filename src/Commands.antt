-- ===== src/Commands.antt =====
-- internal/server/commands.go: ad-hoc commands, which are modules with a generated name, and the
-- bound on how many of them a target keeps.
pub mod Names
pub mod Prune
use fleet_core.Prelude.{
  ℕ, zero, suc, ◌+◌, ◌-◌, ◌*◌, ◌/◌, ◌%◌, ◌^◌, String, Bool, not, ◌&&◌, Option, none, some, List, [],
  map, ltb, leb, ◌==◌, if◌then◌else◌, is_some, length, drop, keep_if, any, ◌=s=◌,
}
use Prim.Native.Char.{Char, code}
use Prim.Native.String.{◌++◌ as ◌++s◌}
use fleet_core.Prelude.Int.{ℤ, pos, negsuc}
use fleet_core.Sort.{sort_slice}
use fleet_core.Api.{ModuleSpec}

abbrev pub cmd_prefix : String
cmd_prefix = "cmd-"

abbrev pub default_command_history : ℕ
default_command_history = 20

-- `s.maxCommands()` for the configured `MaxCommandHistory`.
unfoldable pub max_commands : ℤ → ℕ
max_commands (pos n) = if ltb 0 n then n else default_command_history
max_commands (negsuc n) = default_command_history

-- `strings.CutPrefix(s, prefix)`
unfoldable pub cut_prefix : String → String → Option String
cut_prefix String.[] s = some s
cut_prefix (String.◌∷◌ c p) String.[] = none
cut_prefix (String.◌∷◌ c p) (String.◌∷◌ d s) = if code c == code d then cut_prefix p s else none

-- `strings.HasPrefix(name, cmdPrefix)`
unfoldable pub is_command : String → Bool
unfolding cut_prefix
is_command name = is_some (cut_prefix cmd_prefix name)

-- The text before the first "-", or the whole text: the first result of `strings.Cut(rest, "-")`.
unfoldable pub before_dash : String → String
before_dash String.[] = ""
before_dash (String.◌∷◌ c s) =
    let rest = before_dash s in if code c == b'-' then "" else String.◌∷◌ c rest

abbrev pub max_int64 : ℕ
max_int64 = 2 ^ 63 - 1

-- The value of a run of digits, or nothing where there is another character.
unfoldable pub digits_value : ℕ → String → Option ℕ
digits_value acc String.[] = some acc
digits_value acc (String.◌∷◌ c s) =
    if leb b'0' (code c) && leb (code c) b'9'
    then digits_value (10 * acc + (code c - b'0')) s
    else none

-- The value that `strconv.ParseInt(s, 10, 64)` returns beside its error, for a text without a "-":
-- 0 for no number, the largest int64 for a larger one.
unfoldable pub parse_digits : String → ℕ
unfolding digits_value
parse_digits String.[] = 0
parse_digits (String.◌∷◌ c s) = elim (digits_value 0 (String.◌∷◌ c s)) [
  | none ↦ 0
  | some n ↦ if leb n max_int64 then n else max_int64
]

unfoldable pub parse_int : String → ℕ
unfolding parse_digits
parse_int String.[] = 0
parse_int (String.◌∷◌ c s) =
    if code c == b'+' then parse_digits s else parse_digits (String.◌∷◌ c s)

unfoldable pub command_created_at : String → ℕ
unfolding cut_prefix before_dash parse_int
command_created_at name = elim (cut_prefix cmd_prefix name) [
  | none ↦ 0
  | some rest ↦ parse_int (before_dash rest)
]

-- One decimal digit.
unfoldable pub digit : ℕ → Char
digit n =
    if n == 0
    then "0"
    else if n == 1
    then "1"
    else if n == 2
    then "2"
    else if n == 3
    then "3"
    else if n == 4
    then "4"
    else if n == 5
    then "5"
    else if n == 6
    then "6"
    else if n == 7
    then "7"
    else if n == 8
    then "8"
    else "9"

-- The decimal form of a number, in front of a text: the digits come from the last one on.
unfoldable pub print_digits : ℕ → ℕ → String → String
unfolding digit
print_digits zero n tail = tail
print_digits (suc fuel) n tail =
    let more = print_digits fuel (n / 10) (String.◌∷◌ (digit (n % 10)) tail) in
    if n == 0 then tail else more

-- `%d`: a number has at most as many digits as its value.
unfoldable pub print_number : ℕ → String → String
unfolding print_digits digit
print_number zero tail = String.◌∷◌ (digit zero) tail
print_number (suc n) tail = print_digits (suc n) (suc n) tail

-- `newID()[:6]` of a hexadecimal identity: its first six characters.
unfoldable pub first_chars : ℕ → String → String
first_chars zero s = ""
first_chars (suc n) String.[] = ""
first_chars (suc n) (String.◌∷◌ c s) = String.◌∷◌ c (first_chars n s)

-- `fmt.Sprintf("%s%d-%s", cmdPrefix, now, newID()[:6])`
unfoldable pub command_name : ℕ → String → String
unfolding print_number first_chars
command_name now id = cmd_prefix ++s print_number now (String.◌∷◌ "-" (first_chars 6 id))

-- Newest first.
unfoldable pub newer : ModuleSpec → ModuleSpec → Bool
newer a b = ltb (command_created_at b.name) (command_created_at a.name)

-- The loop that collects the `cmd-*` specs.
unfoldable pub commands_of : List ModuleSpec → List ModuleSpec
commands_of = keep_if (λ sp. is_command sp.name)

-- `remove[name]`
unfoldable pub is_listed : String → List String → Bool
is_listed name = any (λ n. n =s= name)

-- The names that go: those of the commands after the newest `limit`.
unfoldable pub dropped_names : List ModuleSpec → ℕ → List String
unfolding newer commands_of
dropped_names specs limit = map (λ sp. sp.name) (drop limit (sort_slice newer (commands_of specs)))

unfoldable pub prune_to : List ModuleSpec → ℕ → List ModuleSpec × List String
unfolding commands_of dropped_names is_listed
prune_to specs limit = if leb (length (commands_of specs)) limit then (specs, []) else (
  keep_if (λ sp. not (is_listed sp.name (dropped_names specs limit))) specs,
  dropped_names specs limit,
)

unfoldable pub prune_commands : List ModuleSpec → ℕ → List ModuleSpec × List String
unfolding prune_to
prune_commands specs limit =
    if leb limit 0 then prune_to specs default_command_history else prune_to specs limit
