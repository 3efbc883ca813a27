-- ===== src/Prelude/Bytes.antt =====
-- The text functions of Go's library that the agent reads /proc with, on bytes. Only ASCII spaces
-- are told from other bytes, which is all that the kernel writes between fields.
use fleet_core.Prelude.{
  ℕ, zero, suc, ◌+◌, ◌-◌, ◌*◌, String, Bool, true, false, not, ◌&&◌, ◌||◌, Option, none, some, List,
  [], ◌∷◌, map, leb, ◌==◌, if◌then◌else◌, is_some, length, keep_if,
}
use Prim.Native.Char.{code}

abbrev pub Text : Type 0
Text = List ℕ

unfoldable pub is_space : ℕ → Bool
is_space c = c == b' ' || leb 9 c && leb c 13

abbrev pub is_empty : Text → Bool
is_empty [] = true
is_empty (c ∷ s) = false

-- A byte more in front of the first part.
abbrev pub grow : ℕ → List Text → List Text
grow c [] = (c ∷ []) ∷ []
grow c (w ∷ ws) = (c ∷ w) ∷ ws

-- The parts between the bytes that `sep` holds for.
unfoldable pub split_by : (ℕ → Bool) → Text → List Text
split_by sep [] = [] ∷ []
split_by sep (c ∷ s) = let parts = split_by sep s in if sep c then [] ∷ parts else grow c parts

-- `strings.Split(s, "\n")`
unfoldable pub lines : Text → List Text
unfolding split_by
lines = split_by (λ c. c == b'\n')

-- `strings.Fields`
unfoldable pub fields : Text → List Text
unfolding split_by is_space
fields s = keep_if (λ w. not (is_empty w)) (split_by is_space s)

-- `strings.Cut(s, sep)`, for a separator of one byte
unfoldable pub cut_at : ℕ → Text → Option (Text × Text)
cut_at sep [] = none
cut_at sep (c ∷ s) =
    let rest = cut_at sep s in
    if c == sep then some ([], s) else elim rest [ none ↦ none | some (a, b) ↦ some (c ∷ a, b) ]

unfoldable trim_left : Text → Text
unfolding is_space
trim_left [] = []
trim_left (c ∷ s) = let rest = trim_left s in if is_space c then rest else c ∷ s

unfoldable trim_right : Text → Text
unfolding is_space
trim_right [] = []
trim_right (c ∷ s) = let rest = trim_right s in if is_space c && is_empty rest then [] else c ∷ rest

-- `strings.TrimSpace`
unfoldable pub trim_space : Text → Text
unfolding trim_left trim_right
trim_space s = trim_right (trim_left s)

-- `strings.IndexByte` and `strings.LastIndexByte`, with `none` for -1
unfoldable pub index_byte : ℕ → Text → Option ℕ
index_byte b [] = none
index_byte b (c ∷ s) =
    let rest = index_byte b s in
    if c == b then some 0 else elim rest [ none ↦ none | some i ↦ some (i + 1) ]

unfoldable pub last_index_byte : ℕ → Text → Option ℕ
last_index_byte b [] = none
last_index_byte b (c ∷ s) = elim (last_index_byte b s) [
  | none ↦ if c == b then some 0 else none
  | some i ↦ some (i + 1)
]

abbrev pub max_uint64 : ℕ
max_uint64 = 18446744073709551615

unfoldable pub is_digit : ℕ → Bool
is_digit c = leb b'0' c && leb c b'9'

-- The value that `strconv.ParseUint(s, 10, 64)` returns beside an error is 0 for a byte that is no
-- digit, and the largest integer from the digit on at which the number is too large.
unfoldable pub parse_digits : ℕ → Text → ℕ
unfolding is_digit
parse_digits n [] = n
parse_digits n (c ∷ s) =
    let m = n * 10 + (c - b'0') in
    let rest = parse_digits m s in
    if is_digit c then if leb m max_uint64 then rest else max_uint64 else 0

-- `v, _ := strconv.ParseUint(s, 10, 64)`
unfoldable pub parse_uint : Text → ℕ
unfolding parse_digits
parse_uint s = parse_digits 0 s

abbrev eq_text : Text → Text → Bool
eq_text [] [] = true
eq_text [] (d ∷ t) = false
eq_text (c ∷ s) [] = false
eq_text (c ∷ s) (d ∷ t) = c == d && eq_text s t

infix 50 ◌=t=◌
abbrev pub ◌=t=◌ : Text → Text → Bool
s =t= t = eq_text s t

-- The i-th part of a text that has that many.
abbrev pub nth : ℕ → List Text → Text
nth i [] = []
nth zero (w ∷ ws) = w
nth (suc i) (w ∷ ws) = nth i ws

-- `strings.FieldsFunc`
unfoldable pub fields_by : (ℕ → Bool) → Text → List Text
fields_by sep s = keep_if (λ w. not (is_empty w)) (split_by sep s)

-- `strings.CutPrefix`, which also tells `strings.HasPrefix`
abbrev pub cut_prefix : Text → Text → Option Text
cut_prefix [] s = some s
cut_prefix (p ∷ ps) [] = none
cut_prefix (p ∷ ps) (c ∷ s) = let rest = cut_prefix ps s in if p == c then rest else none

abbrev pub has_prefix : Text → Text → Bool
has_prefix p s = is_some (cut_prefix p s)

-- `strings.Contains(s, sub)`
unfoldable pub contains : Text → Text → Bool
contains sub [] = has_prefix sub []
contains sub (c ∷ s) = has_prefix sub (c ∷ s) || contains sub s

-- The bytes of an ASCII constant.
abbrev pub ascii : String → Text
ascii String.[] = []
ascii (String.◌∷◌ c s) = code c ∷ ascii s

-- `strings.Trim(s, cutset)` for a cutset of one byte
unfoldable trim_byte_left : ℕ → Text → Text
trim_byte_left b [] = []
trim_byte_left b (c ∷ s) = let rest = trim_byte_left b s in if c == b then rest else c ∷ s

unfoldable trim_byte_right : ℕ → Text → Text
trim_byte_right b [] = []
trim_byte_right b (c ∷ s) =
    let rest = trim_byte_right b s in if (c == b) && is_empty rest then [] else c ∷ rest

unfoldable pub trim_byte : ℕ → Text → Text
unfolding trim_byte_left trim_byte_right
trim_byte b s = trim_byte_right b (trim_byte_left b s)

-- `strings.ToLower`, on ASCII letters
unfoldable pub to_lower : Text → Text
to_lower = map (λ c. if leb b'A' c && leb c b'Z' then c + 32 else c)

-- `bufio.Scanner` with a buffer of `limit` bytes: the lines, without their ends, up to the first that
-- does not fit.
abbrev drop_cr : Text → Text
drop_cr [] = []
drop_cr (c ∷ s) = let rest = drop_cr s in if (c == b'\r') && is_empty s then [] else c ∷ rest

unfoldable scanned : ℕ → List Text → List Text
scanned limit [] = []
scanned limit (l ∷ ls) =
    let rest = scanned limit ls in
    if leb limit (length l)
    then []
    else if is_empty l && elim ls [ [] ↦ true | _ ↦ false ]
    then []
    else drop_cr l ∷ rest

unfoldable pub scan_lines : ℕ → Text → List Text
unfolding scanned split_by
scan_lines limit s = scanned limit (split_by (λ c. c == b'\n') s)
